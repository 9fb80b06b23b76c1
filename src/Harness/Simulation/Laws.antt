-- ===== src/Harness/Simulation/Laws.antt =====
-- plugin/haltest.c, iosim: its loop against a plugin with a segment attached.
use line6_coreaudio.Prelude.{
  ℕ, ◌+◌, ◌-◌, ◌%◌, ◌≤◌, ◌<◌, ◌≡◌, ◌⊎◌, inl, inr, refl, ◌∙◌, ap, true, false, arith, Bool-cases,
  List, [], ◌∷◌, ◌++◌, some, u64_mod, length, length-append, ltb,
}
use line6_coreaudio.Shm.{Shm}
use line6_coreaudio.Float64.{Float64}
use line6_coreaudio.Plugin.{Globals, Outcome, returned, deadlock}
use line6_coreaudio.Plugin.Lifecycle.{Mapping}
use line6_coreaudio.Plugin.Io.Session.{start_io_deadlock}
use line6_coreaudio.Plugin.Timeline.{stamp, next_stamps}
use line6_coreaudio.Plugin.Timeline.Laws.{seed-stamp, get_zero_time_stamp-eq}
use line6_coreaudio.Harness.Simulation.{
  Pace, Pass, Simulation, Course, going, ended, cycle_frames, begun, note_seed, goes_on, keep,
  read_cycle, pass, passes, iosim,
}
use line6_coreaudio.Harness.Simulation.State.{
  IsPlaying, IsSane, IsOverdue, begun-IsSane, started, stopped, length-keep, do_io-IsPlaying,
  note_seed-IsSane,
}

module _ (f : Float64) {A : Type 0} (silence : A) (channels : ℕ) (p : Pace)
    (small : p.max_frames + cycle_frames < u64_mod) (start n : ℕ) where
  pub goes_on-room :
      (x : Pass A) (s : Simulation A)
      → IsSane p s
      → goes_on f silence channels p start x s ≡ true
      → length s.captured + cycle_frames ≤ p.max_frames
  unfolding goes_on
  goes_on-room x s sane on = ground (arith, small, sane.room)

  -- What a call that runs some passes comes to.
  record Passed (run : Outcome (Course × Simulation A × Globals f.Carrier)) (x : Pass A)
      (s : Simulation A) : Type 0 where
    course : Course
    after : Simulation A
    globals : Globals f.Carrier
    ran : run ≡ returned (course, after, globals)
    way : ((course ≡ going) × (goes_on f silence channels p start x s ≡ true)) ⊎ (course ≡ ended)
    sane : IsSane p after
    playing : IsPlaying n globals

  read_cycle-Passed :
      (x : Pass A) (s s0 : Simulation A) (g : Globals f.Carrier)
      → goes_on f silence channels p start x s0 ≡ true
      → length s.captured + cycle_frames ≤ p.max_frames
      → IsSane p s
      → IsPlaying n g
      → Passed (read_cycle f silence channels p start x s g) x s0
  unfolding read_cycle
  read_cycle-Passed x s s0 g on fits sane k =
      let cycle : ℕ = (s.cycle + 1) % u64_mod in
      let (written, g', came, k') = do_io-IsPlaying silence cycle_frames cycle x.shm x.ring n g k in
      let kept : List A = keep channels p written x.stack 0 (length s.captured) cycle_frames in
      let grown : length (s.captured ++ kept) ≡ length s.captured + cycle_frames =
        length-append s.captured kept
        ∙ ap (λ k. length s.captured + k)
            (length-keep channels p written x.stack 0 (length s.captured) cycle_frames fits) in
      record {
        course = going;
        after = record s { captured = s.captured ++ kept; cycle = cycle };
        globals = g';
        ran = rw came refl;
        way = inl (refl, on);
        sane = record {
          whole = omega (arith, grown, sane.whole, fits, small);
          room = rw grown fits;
          one_seed = sane.one_seed;
        };
        playing = k';
      }

  pass-Passed :
      (x : Pass A) (s : Simulation A) (g : Globals f.Carrier)
      → IsSane p s
      → IsPlaying n g
      → Passed (pass f silence channels p start x s g) x s
  unfolding pass
  pass-Passed x s g sane k = elim (Bool-cases (goes_on f silence channels p start x s)) [
    | inr over ↦ record {
      course = ended;
      after = s;
      globals = g;
      ran = rw over refl;
      way = inr refl;
      sane = sane;
      playing = k;
    }
    | inl on ↦ elim (Bool-cases (ltb x.now s.next_call)) [
      | inl early ↦ record {
        course = going;
        after = s;
        globals = g;
        ran = rw (on, early) refl;
        way = inl (refl, on);
        sane = sane;
        playing = k;
      }
      | inr due ↦
          let s1 : Simulation A = record s {
            next_call = (s.next_call + p.ticks_per_buffer) % u64_mod;
          } in
          let m : ℕ = next_stamps f x.stamped g in
          let (noted, same) =
            note_seed-IsSane p (stamp f m g) s1 (seed-stamp f m g)
              (record { whole = sane.whole; room = sane.room; one_seed = sane.one_seed }) in
          rw (due, on, get_zero_time_stamp-eq f x.stamped g k.free)
            (read_cycle-Passed x (note_seed (some (stamp f m g)) s1) s
              (record g { number_time_stamps = m }) on (rw same (goes_on-room x s sane on)) noted
              (record { free = k.free; attached = k.attached; clients = k.clients }))
    ]
  ]

  goes_on-lt-limit :
      (x : Pass A) (s : Simulation A)
      → goes_on f silence channels p start x s ≡ true
      → (x.checked + u64_mod - start) % u64_mod < p.limit
  unfolding goes_on
  goes_on-lt-limit x s on = ground arith

  goes_on-IsOverdue :
      (x : Pass A) (xs : List (Pass A)) (s : Simulation A)
      → goes_on f silence channels p start x s ≡ true
      → IsOverdue p start (x ∷ xs)
      → IsOverdue p start xs
  goes_on-IsOverdue x xs s on (inl now) = absurd (omega (arith, goes_on-lt-limit x s on))
  goes_on-IsOverdue x xs s on (inr later) = later

  passes_lem :
      (xs : List (Pass A)) (s : Simulation A) (g : Globals f.Carrier)
      → IsSane p s
      → IsPlaying n g
      → IsOverdue p start xs
      → (s' : Simulation A) × (g' : Globals f.Carrier) × (passes f silence channels p start xs s g
          ≡ returned (ended, s', g'))
        × IsSane p s'
        × IsPlaying n g'
  unfolding passes
  passes_lem [] s g sane k late = absurd late
  passes_lem (x ∷ xs) s g sane k late =
      let q = pass-Passed x s g sane k in
      elim q.way [
        | inr over ↦ (q.after, q.globals, rw (q.ran, over) refl, q.sane, q.playing)
        | inl (goes, on) ↦
            let (s', g', ran, sane', k') =
              passes_lem xs q.after q.globals q.sane q.playing (goes_on-IsOverdue x xs s on late) in
            (s', g', rw (q.ran, goes) ran, sane', k')
      ]

module _ (f : Float64) {A : Type 0} (silence : A) (channels : ℕ) (p : Pace) where
  -- With the mutex free, a segment attached and fewer than 2^64 clients, iosim comes back once its
  -- time is up, however the clock and the daemon go: the loop ends by its condition, no handler has
  -- given an error, whole cycles of 512 samples have been kept within the array, the seed has not
  -- changed, and StopIO has left the plugin its mutex free and the number of clients of before.
  pub iosim_ends :
      (m : Mapping) (opened : ℕ) (shm : Shm A) (start : ℕ) (xs : List (Pass A))
      (g : Globals f.Carrier)
      → p.max_frames + cycle_frames < u64_mod
      → g.locked ≡ false
      → g.attached ≡ true
      → g.io_running + 1 < u64_mod
      → IsOverdue p start xs
      → (s : Simulation A) × (g' : Globals f.Carrier) × (iosim f silence channels p m opened shm
            start xs g
          ≡ returned (some (ended, s), g'))
        × IsSane p s
        × IsPlaying g.io_running g'
  unfolding iosim
  iosim_ends m opened shm start xs g small free there few late =
      let (g1, began, k) = started m opened shm g free there few in
      let (s, g2, ran, sane, k2) =
        passes_lem f silence channels p small start (g.io_running + 1) xs (begun p start) g1
          (begun-IsSane p start) k late in
      let (g3, gone, k3) = stopped g.io_running g2 k2 in
      (s, g3, rw (began, ran, gone) refl, sane, k3)

  -- With no client and no segment attached, iosim waits for ever in StartIO.
  pub iosim_deadlock :
      (m : Mapping) (opened : ℕ) (shm : Shm A) (start : ℕ) (xs : List (Pass A))
      (g : Globals f.Carrier)
      → g.locked ≡ false
      → g.io_running ≡ 0
      → g.attached ≡ false
      → iosim f silence channels p m opened shm start xs g ≡ deadlock
  unfolding iosim
  iosim_deadlock m opened shm start xs g free idle absent =
      rw (start_io_deadlock m opened shm g free idle absent) refl
