-- ===== src/Harness/Main/Verdict.antt =====
-- plugin/haltest.c, main: the exit status that gates an install.
use native.Mathlib.Nat.{zero-add}
use line6_coreaudio.Prelude.{ℕ, ◌+◌, ◌<◌, ◌≡◌, refl, true, false, List, some, u64_mod, arith, ap}
use line6_coreaudio.Float64.{Float64}
use line6_coreaudio.CoreAudio.{CoreAudio}
use line6_coreaudio.CoreFoundation.{CoreFoundation, IsCounted}
use line6_coreaudio.Plugin.{Globals, returned, deadlock, no_err}
use line6_coreaudio.Plugin.Lifecycle.{ticks_per_frame, initialize}
use line6_coreaudio.Plugin.Lifecycle.Laws.{finds, initialize_lem}
use line6_coreaudio.Plugin.Interface.{loaded}
use line6_coreaudio.Plugin.Names.{current_name, Names}
use line6_coreaudio.Plugin.Names.Laws.{CanCreate, IsOwned}
use line6_coreaudio.Plugin.Property.Value.{Value}
use line6_coreaudio.Plugin.Property.Agree.{IsLaidOut}
use line6_coreaudio.Harness.{sweep}
use line6_coreaudio.Harness.Sizes.{IsShort}
use line6_coreaudio.Harness.Laws.{sweep-Clean}
use line6_coreaudio.Harness.Simulation.{Simulation, ended, cycle_frames, pace_of}
use line6_coreaudio.Harness.Simulation.State.{IsOverdue, IsSane}
use line6_coreaudio.Harness.Simulation.Laws.{iosim_ends, iosim_deadlock}
use line6_coreaudio.Harness.Analysis.{Analog, failures}
use line6_coreaudio.Harness.Main.{Surroundings, exit_status, status_after, peek_attach, main}

module _ (f : Float64) {A : Type 0} (o : Analog f A) (seconds : f.Carrier) (ca : CoreAudio)
    (laid : IsLaidOut ca) (short : IsShort ca) (encode : Value ca → List ℕ) (cf : CoreFoundation)
    (law : IsCounted cf) (silence : A) (e : Surroundings A) (heap : cf.Heap)
    (opens : e.opens ≡ true) (finds_factory : e.finds_factory ≡ true) where
  -- The plugin's variables after Initialize.
  abbrev pub initialized : Globals f.Carrier
  initialized = record ((loaded cf heap f).globals) {
    has_host = true;
    host_ticks_per_frame = ticks_per_frame f e.numer e.denom;
    attached = finds e.mapping e.shm;
    monitor_run = true;
  }

  ended_status :
      (s : Simulation A)
      → status_after f o seconds 0 (some (ended, s))
        ≡ some (exit_status (failures f o seconds s.captured))
  unfolding status_after
  ended_status s = ap (λ n. some (exit_status n)) (zero-add _)

  loaded-IsOwned : IsOwned cf law ((loaded cf heap f).names)
  unfolding IsOwned
  loaded-IsOwned r e = cc

  module _ (can : CanCreate cf law (current_name initialized e.shm)) where
    -- What main does up to the sweep: Initialize gives no error, and the sweep finds no problem.
    swept :
        (n : Names cf.Heap) × (sweep ca encode cf e.shm ((loaded cf heap f).names) initialized
          ≡ returned (0, n, initialized))
    swept =
        let (n, ran, owned) =
          sweep-Clean ca laid short encode cf law e.shm initialized refl can
            ((loaded cf heap f).names) loaded-IsOwned in
        (n, ran)

    initializes :
        initialize f true true e.numer e.denom e.mapping e.shm e.thread_started
          ((loaded cf heap f).globals)
        ≡ returned (no_err, e.thread_started, initialized)
    initializes =
        initialize_lem f e.mapping e.shm ((loaded cf heap f).globals) true e.thread_started e.numer
          e.denom refl

    -- If the bundle opens and has the factory, sizes are as in the framework's headers and a string
    -- can be made of the device's name, then main with --sweep-only exits with 0, whether or not
    -- there is a segment: the check before an install passes.
    pub main_sweep_only : main f o seconds ca encode cf silence true e heap ≡ returned (some 0)
    unfolding main
    main_sweep_only = let (n, ran) = swept in rw (opens, finds_factory, initializes, ran) refl

    -- Under the same conditions, without --sweep-only and with no segment to attach, main never
    -- exits: the StartIO of iosim waits for the mutex that it holds.
    pub main_deadlock :
        finds e.mapping e.shm ≡ false
        → main f o seconds ca encode cf silence false e heap ≡ deadlock
    unfolding main
    main_deadlock absent =
        let (n, ran) = swept in
        rw (opens, finds_factory, initializes, ran)
          (rw
            (iosim_deadlock f silence (peek_attach e.peeked e.peeked_shm)
              (pace_of f seconds e.numer e.denom) e.mapping_at_start e.start_clock e.shm_at_start
              e.loop_clock e.passes initialized refl refl absent)
            refl)

    -- Under the same conditions, without --sweep-only, with a segment attached and once the time of
    -- iosim is up, main exits, with 0 or 2 by the analysis alone: no handler is found to fail, and
    -- what is analysed is whole cycles of 512 samples within the array.
    pub main_verdict :
        finds e.mapping e.shm ≡ true
        → (pace_of f seconds e.numer e.denom).max_frames + cycle_frames < u64_mod
        → IsOverdue (pace_of f seconds e.numer e.denom) e.loop_clock e.passes
        → (s : Simulation A) × IsSane (pace_of f seconds e.numer e.denom) s
          × (main f o seconds ca encode cf silence false e heap
              ≡ returned (some (exit_status (failures f o seconds s.captured))))
    unfolding main
    main_verdict there small late =
        let (n, ran) = swept in
        let (s, g', played, sane, left) =
          iosim_ends f silence (peek_attach e.peeked e.peeked_shm)
            (pace_of f seconds e.numer e.denom) e.mapping_at_start e.start_clock e.shm_at_start
            e.loop_clock e.passes initialized small refl there (omega arith) late in
        (
          s,
          sane,
          rw (opens, finds_factory, initializes, ran, played) (ap returned (ended_status s)),
        )
