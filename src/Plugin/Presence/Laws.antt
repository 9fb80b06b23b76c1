-- ===== src/Plugin/Presence/Laws.antt =====
-- When the presence monitor of plugin/Line6HAL.c lists the device, and what it reports.
use line6_coreaudio.Prelude.{
  ℕ, zero, suc, ◌+◌, ◌≡◌, ◌≢◌, refl, inl, inr, sym, ◌∙◌, ap, Bool, true, false, not, ◌||◌, ◌&&◌,
  arith, Bool-cases, List, [], ◌∷◌, replicate, if◌then◌else◌, ltb,
}
use Prim.Native.Nat.{min}
use native.Mathlib.Nat.{add-zero, zero-add, add_comm}
use native.Mathlib.Numerals.{add-one}
use line6_coreaudio.Shm.{Shm}
use line6_coreaudio.Plugin.{Globals, returned}
use line6_coreaudio.Plugin.Lifecycle.{Mapping}
use line6_coreaudio.Plugin.Lifecycle.Laws.{finds, attach_shm_lem}
use line6_coreaudio.Plugin.Presence.{
  Monitor, presence_stall_max, observe, differ, poll, Round, monitor,
}

-- The monitor's locals after a list of observed counts, and the last decision (`before` if none).
abbrev pub watch : List ℕ → Monitor → Bool → Monitor × Bool
watch [] s before = (s, before)
watch (wf ∷ wfs) s before = watch wfs (observe wf s).0 (observe wf s).1

-- A count that differs from the last one lists the device at once.
pub observe_growth :
    (wf : ℕ) (s : Monitor)
    → wf ≢ s.last_wf
    → observe wf s ≡ (record { last_wf = wf; have_last = true; stall = 0 }, true)
unfolding observe
observe_growth wf s more = ground arith

observe_stall :
    (wf k : ℕ)
    → observe wf (record { last_wf = wf; have_last = true; stall = min k presence_stall_max }) ≡ (
      record { last_wf = wf; have_last = true; stall = min (k + 1) presence_stall_max },
      ltb (k + 1) presence_stall_max,
    )
unfolding observe
observe_stall wf k = ground arith

watch_stalled :
    (wf j k : ℕ) (before : Bool)
    → before ≡ ltb j presence_stall_max
    → watch
        (replicate k wf)
        (record { last_wf = wf; have_last = true; stall = min j presence_stall_max })
        before
      ≡ (
        record { last_wf = wf; have_last = true; stall = min (j + k) presence_stall_max },
        ltb (j + k) presence_stall_max,
      )
watch_stalled wf j zero before e = rw (add-zero, e)
watch_stalled wf j (suc k) before e =
    let next : j + 1 + k ≡ j + suc k = omega arith in
    ap (λ (p : Monitor × Bool). watch (replicate k wf) p.0 p.1) (observe_stall wf j)
    ∙ rw (← next) (watch_stalled wf (j + 1) k (ltb (j + 1) presence_stall_max) refl)

-- After the count has grown to `wf`, `k` rounds with no growth leave the device listed exactly
-- while `k` is below the limit of four rounds, whatever the monitor has seen before.
pub watch_present_iff :
    (wf k : ℕ) (s : Monitor) (before : Bool)
    → wf ≢ s.last_wf
    → (watch (wf ∷ replicate k wf) s before).1 ≡ ltb k presence_stall_max
watch_present_iff wf k s before more =
    ap (λ (p : Monitor × Bool). (watch (replicate k wf) p.0 p.1).1) (observe_growth wf s more)
    ∙ ap (λ (p : Monitor × Bool). p.1) (watch_stalled wf 0 k true refl)
    ∙ ap (λ n. ltb n presence_stall_max) (zero-add k)

module _ {F A : Type 0} (m : Mapping) (shm : Shm A) (s : Monitor) (g : Globals F) where
  -- What a round sees: the segment's count, or that there is no segment.
  abbrev pub round_sees : Monitor × Bool
  round_sees =
      if g.attached || finds m shm
      then observe shm.write_frames s
      else (record s { have_last = false }, false)

  -- A round that starts with the mutex free comes back with it free; the device is listed as the
  -- count says, not at all without a segment, and a host is told exactly if that is a change.
  pub poll_lem :
      g.locked ≡ false
      → poll m shm s g
        ≡ returned (
          round_sees.0,
          record g { attached = g.attached || finds m shm; device_present = round_sees.1 },
          differ g.device_present round_sees.1 && g.has_host,
        )
  unfolding poll
  poll_lem free = rw (attach_shm_lem m shm g free)

-- The device list of a host that turns its view round at each report.
pub host_view : ℕ → Bool → Bool
host_view zero listed = listed
host_view (suc n) listed = host_view n (not listed)

host_view-suc : (n : ℕ) (listed : Bool) → host_view (suc n) listed ≡ host_view n (not listed)
unfolding host_view
host_view-suc n listed = refl

host_view-differ :
    (n : ℕ) (old new host : Bool)
    → host ≡ true
    → host_view ((if differ old new && host then 1 else 0) + n) old ≡ host_view n new
host_view-differ n old new host e = rw e (told n old new)
  where
    told :
        (n : ℕ) (old new : Bool)
        → host_view ((if differ old new && true then 1 else 0) + n) old ≡ host_view n new
    told n true true = rw zero-add
    told n true false = rw (add_comm 1 n, add-one, host_view-suc)
    told n false true = rw (add_comm 1 n, add-one, host_view-suc)
    told n false false = rw zero-add

module _ {F A : Type 0} where
  -- With the mutex free and a host, over any rounds the monitor does not get stuck and leaves the
  -- mutex free, and a host that turns its view round at each report knows at the end whether the
  -- device is listed.
  pub monitor_reports :
      (rs : List (Round A)) (s : Monitor) (g : Globals F)
      → g.locked ≡ false
      → g.has_host ≡ true
      → (s' : Monitor) × (g' : Globals F) × (n : ℕ) × (monitor rs s g ≡ returned (s', g', n))
        × (g'.locked ≡ false)
        × (g'.device_present ≡ host_view n g.device_present)
  unfolding monitor host_view
  monitor_reports [] s g free host = (s, g, 0, refl, free, refl)
  monitor_reports (r ∷ rs) s g free host = elim (Bool-cases g.monitor_run) [
    | inl on ↦
        let seen : Monitor × Bool = round_sees r.mapping r.shm s g in
        let g1 : Globals F = record g {
          attached = g.attached || finds r.mapping r.shm;
          device_present = seen.1;
        } in
        let (s', g', n, ran, free', view) = monitor_reports rs seen.0 g1 free host in
        (
          s',
          g',
          (if differ g.device_present seen.1 && g.has_host then 1 else 0) + n,
          rw (poll_lem r.mapping r.shm s g free, ran) (simp on),
          free',
          view ∙ sym (host_view-differ n g.device_present seen.1 g.has_host host),
        )
    | inr off ↦ (s, g, 0, simp off, free, refl)
  ]
