-- ===== src/Plugin/Presence.antt =====
-- plugin/Line6HAL.c: the presence monitor, which lists the device while write_frames grows.
pub mod Laws
use line6_coreaudio.Prelude.{
  ℕ, ◌+◌, Bool, true, false, not, ◌||◌, ◌&&◌, ltb, ◌==◌, if◌then◌else◌, List, [], ◌∷◌,
}
use line6_coreaudio.Shm.{Shm}
use line6_coreaudio.Plugin.{Globals, Outcome, returned, ◌>>=◌}
use line6_coreaudio.Plugin.Lifecycle.{Mapping, attach_shm}

-- PRESENCE_STALL_MAX
abbrev pub presence_stall_max : ℕ
presence_stall_max = 4

-- The locals of PresenceMonitor.
pub record Monitor : Type 0 where
  pub last_wf : ℕ
  pub have_last : Bool
  pub stall : ℕ

abbrev pub new_monitor : Monitor
new_monitor = record { last_wf = 0; have_last = false; stall = 0 }

-- The round's decision with a segment attached: the new locals and `present`.
pub observe : ℕ → Monitor → Monitor × Bool
observe wf s =
    if not s.have_last || not (wf == s.last_wf)
    then (record { last_wf = wf; have_last = true; stall = 0 }, true)
    else let stall = if ltb s.stall presence_stall_max then s.stall + 1 else s.stall in
      (record s { stall = stall }, ltb stall presence_stall_max)

-- Whether two flags differ, as `prev != present`.
abbrev pub differ : Bool → Bool → Bool
differ true b = not b
differ false b = b

-- The result of a round: the locals, the globals, and whether PropertiesChanged was called.
abbrev pub Polled : Type 0 → Type 0
Polled F = Monitor × Globals F × Bool

module _ {F : Type 0} where
  -- NotifyDeviceList: whether it calls PropertiesChanged.
  abbrev pub notify_device_list : Globals F → Bool
  notify_device_list g = g.has_host

  -- The end of a round: gDevicePresent is exchanged, and a change is reported.
  pub publish : Monitor → Bool → Globals F → Polled F
  publish s present g = (
    s,
    record g { device_present = present },
    differ g.device_present present && notify_device_list g,
  )

module _ {F A : Type 0} where
  -- One round of PresenceMonitor after its sleep.
  pub poll : Mapping → Shm A → Monitor → Globals F → Outcome (Polled F)
  unfolding publish
  poll m shm s g = do
    g1 ← attach_shm m shm g
    let seen =
        if g1.attached then observe shm.write_frames s else (record s { have_last = false }, false)
    returned (publish seen.0 seen.1 g1)

-- What a round finds: the outcome of shm_open and mmap, and the segment.
pub record Round (A : Type 0) : Type 0 where
  pub mapping : Mapping
  pub shm : Shm A

module _ {F A : Type 0} where
  -- The loop of PresenceMonitor over its rounds, and the number of reports.
  pub monitor : List (Round A) → Monitor → Globals F → Outcome (Monitor × Globals F × ℕ)
  monitor [] s g = returned (s, g, 0)
  monitor (r ∷ rs) s g =
      if not g.monitor_run
      then returned (s, g, 0)
      else (poll r.mapping r.shm s g >>= λ p.
          monitor rs p.0 p.1 >>= λ q. returned (q.0, q.1, (if p.2 then 1 else 0) + q.2))
