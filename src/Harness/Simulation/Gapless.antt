-- ===== src/Harness/Simulation/Gapless.antt =====
-- plugin/haltest.c, iosim: what it keeps is channel 0 of one stretch of the daemon's stream.
use mathlib.Core.List.{append_assoc, append-nil}
use native.Mathlib.Nat.{add-zero, zero-mul}
use line6_coreaudio.Prelude.{
  ℕ, suc, ◌+◌, ◌-◌, ◌*◌, ◌%◌, ◌≤◌, ◌<◌, ◌≡◌, ◌⊎◌, inl, inr, refl, sym, ◌∙◌, ap, true, false, arith,
  Bool-cases, List, [], ◌∷◌, ◌++◌, some, u64_mod, length, length-append, ltb, ◌==◌,
}
use line6_coreaudio.Shm.{ring_frames_count}
use line6_coreaudio.Float64.{Float64}
use line6_coreaudio.Stream.{Holds, segment}
use line6_coreaudio.Plugin.{Globals, Outcome, returned}
use line6_coreaudio.Plugin.Io.{read_input, do_io}
use line6_coreaudio.Plugin.Io.Clients.{IoCycle, IsPaced, moved, paced_step}
use line6_coreaudio.Plugin.Timeline.{next_stamps, stamp}
use line6_coreaudio.Plugin.Timeline.Laws.{seed-stamp, get_zero_time_stamp-eq}
use line6_coreaudio.Harness.Simulation.{
  Pace, Pass, Simulation, Course, going, ended, cycle_frames, note_seed, goes_on, keep, read_cycle,
  pass, passes,
}
use line6_coreaudio.Harness.Simulation.State.{IsPlaying, IsSane, note_seed-IsSane}
use line6_coreaudio.Harness.Simulation.Laws.{goes_on-room}
use line6_coreaudio.Harness.Simulation.Hearing.{
  first_channel, first_channel-append, first_channel-zero, length-first_channel, keep-segment,
}

-- A pass as an IO cycle of a client.
abbrev pub cycle_of : {A : Type 0} → Pass A → ℕ → IoCycle A
cycle_of x counter = record { counter = counter; shm = x.shm; seen = x.ring }

module _ {A : Type 0} (channels : ℕ) (some_channel : 0 < channels) (h : ℕ → ℕ → A) (old : ℕ → A)
    (first : ℕ) (held : Holds channels h (first + 1 - ring_frames_count) first old) (p : Pace)
    (silence : A) where
  -- A paced read, and what is kept of it.
  heard_cycle :
      {F : Type 0} (in_frames counter got n : ℕ) (x : Pass A) (g : Globals F)
      → IsPlaying n g
      → got + in_frames ≤ p.max_frames
      → IsPaced channels h old first in_frames g.cursor.read_frame g.cursor.last_cycle
          (cycle_of x counter)
      → (written : List A) × (do_io silence read_input true in_frames counter x.shm x.ring g
          ≡ returned (written, moved in_frames counter g))
        × (keep channels p written x.stack 0 got in_frames
            ≡ first_channel h g.cursor.read_frame in_frames)
  heard_cycle in_frames counter got n x g k fits paced = (
    segment channels h g.cursor.read_frame in_frames,
    paced_step channels h old first in_frames silence held (cycle_of x counter) g k.free k.attached
        paced,
    keep-segment h channels p x.stack g.cursor.read_frame in_frames 0 got in_frames some_channel
          (omega arith) fits
        ∙ ap (λ f. first_channel h f in_frames) (add-zero _),
  )

  -- Each pass of the loop comes before the next cycle is due, or its cycle is paced.
  abbrev pub Hears : ℕ → ℕ → ℕ → ℕ → List (Pass A) → Type 0
  Hears next cycle at last [] = Unit
  Hears next cycle at last (x ∷ xs) =
      ((x.now < next) × Hears next cycle at last xs)
      ⊎ ((next ≤ x.now)
          × IsPaced channels h old first cycle_frames at last (cycle_of x (cycle + 1))
          × Hears ((next + p.ticks_per_buffer) % u64_mod) (cycle + 1) (at + cycle_frames)
              (cycle + 1) xs)

  -- The variables after a cycle.
  abbrev grown : ℕ → Simulation A → Simulation A
  grown at s = record s {
    captured = s.captured ++ first_channel h at cycle_frames;
    cycle = s.cycle + 1;
  }

  length-grown :
      (at : ℕ) (s : Simulation A) → length (grown at s).captured ≡ length s.captured + cycle_frames
  length-grown at s =
      length-append s.captured (first_channel h at cycle_frames)
      ∙ ap (λ k. length s.captured + k) (length-first_channel h at cycle_frames)

  grown-IsSane :
      (at : ℕ) (s : Simulation A)
      → IsSane p s
      → length s.captured + cycle_frames ≤ p.max_frames
      → IsSane p (grown at s)
  grown-IsSane at s sane fits = record {
    whole = omega (arith, length-grown at s, sane.whole);
    room = rw (length-grown at s) fits;
    one_seed = sane.one_seed;
  }

  -- What a run of the loop has kept: channel 0 of one stretch from the cursor on.
  pub record Heard {F : Type 0} (s : Simulation A) (g : Globals F)
      (run : Outcome (Course × Simulation A × Globals F)) : Type 0 where
    pub course : Course
    pub after : Simulation A
    pub globals : Globals F
    pub count : ℕ
    pub ran : run ≡ returned (course, after, globals)
    pub stretch :
        after.captured ≡ s.captured ++ first_channel h g.cursor.read_frame (count * cycle_frames)
    pub cycles : after.cycle ≡ s.cycle + count

  nothing-Heard :
      {F : Type 0} (c : Course) (s : Simulation A) (g : Globals F) → Heard s g (returned (c, s, g))
  nothing-Heard c s g = record {
    course = c;
    after = s;
    globals = g;
    count = 0;
    ran = refl;
    stretch = sym (
        ap (λ ys. s.captured ++ ys)
          (ap (first_channel h g.cursor.read_frame) (zero-mul cycle_frames)
            ∙ first_channel-zero h g.cursor.read_frame)
        ∙ append-nil s.captured);
    cycles = sym (add-zero _);
  }

  module _ (f : Float64) (small : p.max_frames + cycle_frames < u64_mod) (start n : ℕ) where
    read_cycle-grown :
        (x : Pass A) (s : Simulation A) (g : Globals f.Carrier)
        → IsSane p s
        → IsPlaying n g
        → length s.captured + cycle_frames ≤ p.max_frames
        → IsPaced channels h old first cycle_frames g.cursor.read_frame g.cursor.last_cycle
            (cycle_of x (s.cycle + 1))
        → read_cycle f silence channels p start x s g
          ≡ returned (going, grown g.cursor.read_frame s, moved cycle_frames (s.cycle + 1) g)
    unfolding read_cycle
    read_cycle-grown x s g sane k fits paced =
        let (written, came, kept) =
          heard_cycle cycle_frames (s.cycle + 1) (length s.captured) n x g k fits paced in
        let counter : (s.cycle + 1) % u64_mod ≡ s.cycle + 1 =
          omega (arith, sane.whole, fits, small) in
        rw (counter, came, kept) refl

    -- Looking at the seed changes no other variable.
    note_seed-shape :
        (m : ℕ) (g : Globals f.Carrier) (s : Simulation A)
        → (last : ℕ) × (seeds : ℕ) × (note_seed (some (stamp f m g)) s
            ≡ record s { last_seed = last; seeds = seeds })
    unfolding note_seed
    note_seed-shape m g s = elim (Bool-cases ((stamp f m g).seed == s.last_seed)) [
      | inl same ↦ (s.last_seed, s.seeds, rw same refl)
      | inr new ↦ ((stamp f m g).seed, s.seeds + 1, rw new refl)
    ]

    -- One more cycle before a stretch.
    longer-Heard :
        (s s1 : Simulation A) (g g1 : Globals f.Carrier)
        (run : Outcome (Course × Simulation A × Globals f.Carrier))
        → g1.cursor.read_frame ≡ g.cursor.read_frame + cycle_frames
        → s1.captured ≡ s.captured ++ first_channel h g.cursor.read_frame cycle_frames
        → s1.cycle ≡ s.cycle + 1
        → Heard s1 g1 run
        → Heard s g run
    longer-Heard s s1 g g1 run there kept counted r =
        let more : suc r.count * cycle_frames ≡ cycle_frames + r.count * cycle_frames =
          omega arith in
        record {
          course = r.course;
          after = r.after;
          globals = r.globals;
          count = suc r.count;
          ran = r.ran;
          stretch =
              r.stretch
              ∙ rw
                  (
                    kept,
                    there,
                    more,
                    first_channel-append h g.cursor.read_frame cycle_frames
                        (r.count * cycle_frames),
                    append_assoc,
                  )
                  refl;
          cycles = omega (arith, r.cycles);
        }

    pass_reads :
        (x : Pass A) (s : Simulation A) (g : Globals f.Carrier)
        → IsSane p s
        → IsPlaying n g
        → goes_on f silence channels p start x s ≡ true
        → s.next_call ≤ x.now
        → IsPaced channels h old first cycle_frames g.cursor.read_frame g.cursor.last_cycle
            (cycle_of x (s.cycle + 1))
        → (s1 : Simulation A) × (g1 : Globals f.Carrier) × (pass f silence channels p start x s g
            ≡ returned (going, s1, g1))
          × IsSane p s1
          × IsPlaying n g1
          × (s1.next_call ≡ (s.next_call + p.ticks_per_buffer) % u64_mod)
          × (s1.captured ≡ s.captured ++ first_channel h g.cursor.read_frame cycle_frames)
          × (s1.cycle ≡ s.cycle + 1)
          × (g1.cursor.read_frame ≡ g.cursor.read_frame + cycle_frames)
          × (g1.cursor.last_cycle ≡ s.cycle + 1)
    unfolding pass
    pass_reads x s g sane k on due paced =
        let s0 : Simulation A = record s {
          next_call = (s.next_call + p.ticks_per_buffer) % u64_mod;
        } in
        let m : ℕ = next_stamps f x.stamped g in
        let g0 : Globals f.Carrier = record g { number_time_stamps = m } in
        let (last, seeds, shape) = note_seed-shape m g s0 in
        let noted : Simulation A = record s0 { last_seed = last; seeds = seeds } in
        let noted-IsSane : IsSane p noted =
          rw (← shape)
            (note_seed-IsSane p (stamp f m g) s0 (seed-stamp f m g)
              (record { whole = sane.whole; room = sane.room; one_seed = sane.one_seed })).0 in
        let k0 : IsPlaying n g0 = record {
          free = k.free;
          attached = k.attached;
          clients = k.clients;
        } in
        let fits : length s.captured + cycle_frames ≤ p.max_frames =
          goes_on-room f silence channels p small start n x s sane on in
        let late : ltb x.now s.next_call ≡ false = ground arith in
        (
          grown g.cursor.read_frame noted,
          moved cycle_frames (s.cycle + 1) g0,
          rw
              (
                on,
                late,
                get_zero_time_stamp-eq f x.stamped g k.free,
                shape,
                read_cycle-grown x noted g0 noted-IsSane k0 fits paced,
              )
              refl,
          grown-IsSane g.cursor.read_frame noted noted-IsSane fits,
          record { free = k.free; attached = k.attached; clients = k.clients },
          refl,
          refl,
          refl,
          refl,
          refl,
        )

    pass_ended :
        (x : Pass A) (s : Simulation A) (g : Globals f.Carrier)
        → goes_on f silence channels p start x s ≡ false
        → pass f silence channels p start x s g ≡ returned (ended, s, g)
    unfolding pass
    pass_ended x s g over = rw over refl

    pass_waits :
        (x : Pass A) (s : Simulation A) (g : Globals f.Carrier)
        → goes_on f silence channels p start x s ≡ true
        → x.now < s.next_call
        → pass f silence channels p start x s g ≡ returned (going, s, g)
    unfolding pass
    pass_waits x s g on early =
        let soon : ltb x.now s.next_call ≡ true = ground arith in rw (on, soon) refl

    -- With a segment attached, the mutex free and `cap` shorter than 2^64 by a cycle, if every cycle
    -- that becomes due finds the daemon far enough ahead and less than a ring ahead (Hears), then the
    -- loop of iosim comes through its passes, and what it has kept grows by channel 0 of one unbroken
    -- stretch of the daemon's stream from the cursor on, 512 frames for each cycle that it counts.
    pub passes-Heard :
        (xs : List (Pass A)) (s : Simulation A) (g : Globals f.Carrier)
        → IsSane p s
        → IsPlaying n g
        → Hears s.next_call s.cycle g.cursor.read_frame g.cursor.last_cycle xs
        → Heard s g (passes f silence channels p start xs s g)
    unfolding passes
    passes-Heard [] s g sane k hears = nothing-Heard going s g
    passes-Heard (x ∷ xs) s g sane k hears =
        elim (Bool-cases (goes_on f silence channels p start x s)) [
          | inr over ↦ rw (pass_ended x s g over) (nothing-Heard ended s g)
          | inl on ↦ elim hears [
            | inl (early, rest) ↦ rw (pass_waits x s g on early) (passes-Heard xs s g sane k rest)
            | inr (due, paced, rest) ↦
                let (s1, g1, ran, sane1, k1, next, kept, counted, there, last) =
                  pass_reads x s g sane k on due paced in
                rw ran (
                  longer-Heard s s1 g g1 _ there kept counted
                    (passes-Heard xs s1 g1 sane1 k1 (rw (next, counted, there, last) rest)))
          ]
        ]
