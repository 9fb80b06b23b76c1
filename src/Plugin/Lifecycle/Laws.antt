-- ===== src/Plugin/Lifecycle/Laws.antt =====
-- plugin/Line6HAL.c: AttachShm by the state of the mutex and of gShm, and the reference count.
use line6_coreaudio.Prelude.{ℕ, refl, ◌+◌, ◌<◌, ◌≡◌, Bool, true, false, arith, u32_mod, ◌||◌}
use line6_coreaudio.Shm.{Shm}
use line6_coreaudio.Float64.{Float64}
use line6_coreaudio.Plugin.{no_err, Globals, returned, deadlock, ◌>>=◌}
use line6_coreaudio.Plugin.Lifecycle.{
  Mapping, mapped, has_good_header, map_segment, attach_shm, add_ref, release, initialize,
  ticks_per_frame,
}

-- Whether a call of AttachShm leaves a segment attached.
abbrev pub finds : {A : Type 0} → Mapping → Shm A → Bool
finds mapped shm = has_good_header shm
finds _ shm = false

module _ {F A : Type 0} (m : Mapping) (shm : Shm A) (g : Globals F) where
  -- Called with the mutex free, AttachShm returns with it free; a segment is attached exactly if
  -- one was before or the segment maps with a good header, and no other global changes.
  pub attach_shm_lem :
      g.locked ≡ false
      → attach_shm m shm g ≡ returned (record g { attached = g.attached || finds m shm })
  unfolding attach_shm map_segment
  attach_shm_lem free = ground arith

  -- Called with the mutex held and no segment attached, AttachShm never returns.
  pub attach_shm_stuck : g.locked ≡ true → g.attached ≡ false → attach_shm m shm g ≡ deadlock
  unfolding attach_shm
  attach_shm_stuck held none_yet = ground arith

  -- Once a segment is attached AttachShm takes no lock and changes nothing.
  pub attach_shm_again : g.attached ≡ true → attach_shm m shm g ≡ returned g
  unfolding attach_shm
  attach_shm_again old = ground arith

module _ (f : Float64) {A : Type 0} (m : Mapping) (shm : Shm A) (g : Globals f.Carrier) where
  -- Called with the mutex free, Initialize returns, with a segment attached if one was before or
  -- AttachShm finds one.
  pub initialize_lem :
      (host thread : Bool) (numer denom : ℕ)
      → g.locked ≡ false
      → initialize f true host numer denom m shm thread g
        ≡ returned (
          no_err,
          thread,
          record g {
            has_host = host;
            host_ticks_per_frame = ticks_per_frame f numer denom;
            attached = g.attached || finds m shm;
            monitor_run = true;
          },
        )
  unfolding initialize
  initialize_lem host thread numer denom free =
      rw
        (attach_shm_lem m shm
          (record g { has_host = host; host_ticks_per_frame = ticks_per_frame f numer denom }) free)
        refl

-- With the mutex free and the count below 2^32, an AddRef and a Release by the host restore the
-- globals, and Release returns the count.
release-add_ref :
    {F : Type 0} (g : Globals F)
    → g.locked ≡ false
    → g.ref_count + 1 < u32_mod
    → (add_ref true g >>= λ p. release true p.1) ≡ returned (g.ref_count, g)
unfolding add_ref release
release-add_ref g free small = ground arith
