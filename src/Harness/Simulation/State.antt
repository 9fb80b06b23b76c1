-- ===== src/Harness/Simulation/State.antt =====
-- plugin/haltest.c, iosim: what its variables and the plugin keep to while its loop runs.
use line6_coreaudio.Prelude.{
  ℕ, zero, suc, ◌+◌, ◌-◌, ◌*◌, ◌%◌, ◌≤◌, ◌<◌, ◌≡◌, ◌⊎◌, inl, inr, refl, true, false, arith, dec_lt,
  List, [], ◌∷◌, some, u64_mod, length, ltb,
}
use line6_coreaudio.Shm.{Shm}
use line6_coreaudio.Plugin.{Globals, returned, object_device, no_err, dev_channels}
use line6_coreaudio.Plugin.Lifecycle.{Mapping}
use line6_coreaudio.Plugin.Io.{start_io, stop_io, read_input, do_io, advance, copy_frames}
use line6_coreaudio.Plugin.Io.Session.{first_client, start_io_first, start_io_later}
use line6_coreaudio.Plugin.Timeline.{TimeStamp}
use line6_coreaudio.Harness.Simulation.{
  Pace, Pass, Simulation, cycle_frames, begun, note_seed, keep,
}

-- The plugin while iosim runs, with `n` clients.
pub record IsPlaying {F : Type 0} (n : ℕ) (g : Globals F) : Type 0 where
  pub free : g.locked ≡ false
  pub attached : g.attached ≡ true
  pub clients : g.io_running ≡ n

-- The variables of the loop: whole cycles within `cap`, and at most one seed seen, which is 1.
pub record IsSane {A : Type 0} (p : Pace) (s : Simulation A) : Type 0 where
  pub whole : length s.captured ≡ s.cycle * cycle_frames
  pub room : length s.captured ≤ p.max_frames
  pub one_seed : ((s.seeds ≡ 0) × (s.last_seed ≡ 0)) ⊎ ((s.seeds ≡ 1) × (s.last_seed ≡ 1))

-- Some pass of the loop comes when the time is up.
abbrev pub IsOverdue : {A : Type 0} → Pace → ℕ → List (Pass A) → Type 0
IsOverdue p start [] = ⊥
IsOverdue p start (x ∷ xs) =
    (p.limit ≤ (x.checked + u64_mod - start) % u64_mod) ⊎ IsOverdue p start xs

pub begun-IsSane : {A : Type 0} (p : Pace) (start : ℕ) → IsSane {A = A} p (begun p start)
unfolding begun
begun-IsSane p start = record {
  whole = omega arith;
  room = omega arith;
  one_seed = inl (refl, refl);
}

module _ {A : Type 0} (channels : ℕ) (p : Pace) where
  pub length-keep :
      (written : List A) (stack : ℕ → A) (i got left : ℕ)
      → got + left ≤ p.max_frames
      → length (keep channels p written stack i got left) ≡ left
  unfolding keep
  length-keep written stack i got zero fits = refl
  length-keep written stack i got (suc left) fits =
      let more : ltb got p.max_frames ≡ true = ground arith in
      rw (more, length-keep written stack (i + 1) (got + 1) left (omega arith)) refl

-- A read by a playing client comes back.
pub do_io-IsPlaying :
    {F A : Type 0} (silence : A) (in_frames cycle : ℕ) (shm : Shm A) (ring : ℕ → ℕ → ℕ → A) (n : ℕ)
    (g : Globals F)
    → IsPlaying n g
    → (written : List A) × (g' : Globals F) × (do_io silence read_input true in_frames cycle shm
          ring g
        ≡ returned (written, g'))
      × IsPlaying n g'
unfolding do_io
do_io-IsPlaying silence in_frames cycle shm ring n g k = (
  copy_frames silence ring (dev_channels g shm) shm.write_frames
      (advance cycle shm.write_frames in_frames shm.latency_frames g.cursor).cycle_read_frame 0
      in_frames,
  record g { cursor = advance cycle shm.write_frames in_frames shm.latency_frames g.cursor },
  rw (k.attached, k.free) refl,
  record { free = k.free; attached = k.attached; clients = k.clients },
)

-- A look at a seed of 1.
pub note_seed-IsSane :
    {F A : Type 0} (p : Pace) (z : TimeStamp F) (s : Simulation A)
    → z.seed ≡ 1
    → IsSane p s
    → IsSane p (note_seed (some z) s) × (length (note_seed (some z) s).captured ≡ length s.captured)
unfolding note_seed
note_seed-IsSane p z s one sane = elim sane.one_seed [
  | inl (none_yet, zero_seed) ↦
      rw (one, zero_seed)
        (record { whole = sane.whole; room = sane.room; one_seed = inr (omega arith, refl) }, refl)
  | inr (seen, same_seed) ↦
      rw (one, same_seed)
        (record { whole = sane.whole; room = sane.room; one_seed = inr (seen, refl) }, refl)
]

module _ {F : Type 0} where
  pub started :
      {A : Type 0} (m : Mapping) (now : ℕ) (shm : Shm A) (g : Globals F)
      → g.locked ≡ false
      → g.attached ≡ true
      → g.io_running + 1 < u64_mod
      → (g' : Globals F) × (start_io true object_device m now shm g ≡ returned (no_err, g'))
        × IsPlaying (g.io_running + 1) g'
  started m now shm g free there few = elim (dec_lt 0 g.io_running) [
    | yes busy ↦ (
      record g { io_running = g.io_running + 1 },
      start_io_later m now shm g free busy few,
      record { free = free; attached = there; clients = refl },
    )
    | no idle ↦ (
      first_client now shm g,
      start_io_first m now shm g free (omega arith) there,
      record { free = free; attached = there; clients = omega arith },
    )
  ]

  pub stopped :
      (n : ℕ) (g : Globals F)
      → IsPlaying (n + 1) g
      → (g' : Globals F) × (stop_io true object_device g ≡ returned (no_err, g')) × IsPlaying n g'
  unfolding stop_io
  stopped n g k = (
    record g { io_running = n },
    ground (arith, k.free, k.clients),
    record { free = k.free; attached = k.attached; clients = refl },
  )
