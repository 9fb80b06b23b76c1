-- ===== src/Tests/Harness.antt =====
-- The theorems on the test harness at concrete inputs.
use line6_coreaudio.Prelude.{
  ℕ, ◌+◌, ◌-◌, ◌%◌, ◌≡◌, refl, true, false, arith, ltb, leb, inl, inr, List, [], ◌∷◌, some, u64_mod,
}
use line6_coreaudio.Plugin.{Globals, returned, deadlock}
use line6_coreaudio.Plugin.Lifecycle.{open_failed, mapped, has_good_header}
use line6_coreaudio.Harness.Simulation.{Pace, Pass, Simulation, ended, pace_of, passes, iosim}
use line6_coreaudio.Harness.Simulation.State.{IsSane, IsPlaying}
use line6_coreaudio.Harness.Simulation.Laws.{iosim_ends}
use line6_coreaudio.Harness.Simulation.Gapless.{Heard, passes-Heard}
use line6_coreaudio.Harness.Analysis.{
  Analog, seen, crossed_at, crossings_after, crossings_of, failures,
}
use line6_coreaudio.Harness.Analysis.Spacing.{AreApart, crossings_of-AreApart}
use line6_coreaudio.Harness.Main.{Surroundings, exit_status, main}
use line6_coreaudio.Harness.Main.Verdict.{main_sweep_only, main_deadlock, main_verdict}
use line6_coreaudio.Tests.Frameworks.{whole_float, log_heap, log_heap-IsCounted, core_audio_64}
use line6_coreaudio.Tests.State.{
  shm4000, seen as ring_seen, stream, old_ring, old_held, running_globals, IsPaced-at,
  fresh_globals, can_create, core_audio_64-IsLaidOut,
}
use line6_coreaudio.Tests.Properties.{core_audio_64-IsShort}

-- Whole numbers of which 1000 to 1999 stand for -1000 to -1.
abbrev key : ℕ → ℕ
key x = (x + 1000) % 2000

abbrev signed : Analog whole_float ℕ
signed = record {
  widen = λ x. x;
  magnitude = λ x. x;
  minus = λ x y. x - y;
  less = λ x y. ltb (key x) (key y);
  at_least = λ x y. leb (key y) (key x);
  tiny = 1;
  pi = 3;
  two_and_half = 2;
  half = 1;
  weak = 1;
}

-- Two crossings, at 1 and at 3, that are two samples apart.
abbrev wave : List ℕ
wave = 1999 ∷ 3 ∷ 1998 ∷ 4 ∷ []

signed_excludes : (x : ℕ) → leb (key 0) (key x) ≡ true → ltb (key x) (key 0) ≡ false
signed_excludes x above = ground arith

crossings_of-AreApart_example : AreApart (crossings_of whole_float signed wave) 4
crossings_of-AreApart_example = crossings_of-AreApart whole_float signed signed_excludes wave

two_crossings : crossings_of whole_float signed wave ≡ seen 2 1 3
unfolding crossings_of crossings_after crossed_at
two_crossings = refl

-- A pass that reads a cycle, and one when the time is up.
abbrev pass_at : ℕ → Pass ℕ
pass_at t = record {
  checked = t;
  now = t;
  stamped = t;
  shm = shm4000;
  ring = ring_seen;
  stack = λ k. 7;
}

abbrev short_pace : Pace
short_pace = record { limit = 100; ticks_per_buffer = 10; max_frames = 2000 }

abbrev attached_globals : Globals ℕ
attached_globals = record fresh_globals { attached = true }

iosim_ends_example :
    (s : Simulation ℕ) × (g' : Globals ℕ) × (iosim whole_float 0 2 short_pace mapped 5 shm4000 1000
        (pass_at 1020 ∷ pass_at 1100 ∷ [])
        attached_globals
      ≡ returned (some (ended, s), g'))
    × IsSane short_pace s
    × IsPlaying 0 g'
iosim_ends_example =
    iosim_ends whole_float 0 2 short_pace mapped 5 shm4000 1000 (pass_at 1020 ∷ pass_at 1100 ∷ [])
      attached_globals (omega arith) refl refl (omega arith) (inr (inl (omega arith)))

-- A run of one second with the segment there.
abbrev with_segment : Surroundings ℕ
with_segment = record {
  opens = true;
  finds_factory = true;
  numer = 125;
  denom = 3;
  mapping = mapped;
  shm = shm4000;
  peeked = mapped;
  peeked_shm = record shm4000 { write_frames = 3000 };
  thread_started = true;
  mapping_at_start = mapped;
  shm_at_start = record shm4000 { write_frames = 5000 };
  start_clock = 5;
  loop_clock = 1000;
  passes = pass_at 900000 ∷ pass_at 24001000 ∷ [];
}

abbrev without_segment : Surroundings ℕ
without_segment = record with_segment { mapping = open_failed }

main_sweep_only_example :
    main whole_float signed 1 core_audio_64 (λ v. 1 ∷ []) log_heap 0 true without_segment []
    ≡ returned (some 0)
main_sweep_only_example =
    main_sweep_only whole_float signed 1 core_audio_64 core_audio_64-IsLaidOut core_audio_64-IsShort
      (λ v. 1 ∷ []) log_heap log_heap-IsCounted 0 without_segment [] refl refl (can_create _)

main_deadlock_example :
    main whole_float signed 1 core_audio_64 (λ v. 1 ∷ []) log_heap 0 false without_segment []
    ≡ deadlock
main_deadlock_example =
    main_deadlock whole_float signed 1 core_audio_64 core_audio_64-IsLaidOut core_audio_64-IsShort
      (λ v. 1 ∷ []) log_heap log_heap-IsCounted 0 without_segment [] refl refl (can_create _) refl

main_verdict_example :
    (s : Simulation ℕ) × IsSane (pace_of whole_float 1 125 3) s
    × (main whole_float signed 1 core_audio_64 (λ v. 1 ∷ []) log_heap 0 false with_segment []
        ≡ returned (some (exit_status (failures whole_float signed 1 s.captured))))
unfolding has_good_header pace_of
main_verdict_example =
    main_verdict whole_float signed 1 core_audio_64 core_audio_64-IsLaidOut core_audio_64-IsShort
      (λ v. 1 ∷ []) log_heap log_heap-IsCounted 0 with_segment [] refl refl (can_create _) refl
      (omega arith) (inr (inl (omega arith)))

-- iosim's variables when a client has started at 1000, and passes of which the first comes early.
abbrev first_variables : Simulation ℕ
first_variables = record { captured = []; next_call = 1010; cycle = 0; last_seed = 0; seeds = 0 }

abbrev three_passes : List (Pass ℕ)
three_passes = pass_at 1005 ∷ pass_at 1020 ∷ pass_at 1040 ∷ []

passes-Heard_example :
    Heard 2
      (omega arith)
      stream
      old_ring
      4000
      (old_held _ 4000)
      short_pace
      0
      first_variables
      running_globals
      (passes whole_float 0 2 short_pace 1000 three_passes first_variables running_globals)
passes-Heard_example =
    passes-Heard 2 (omega arith) stream old_ring 4000 (old_held _ 4000) short_pace 0 whole_float
      (omega arith) 1000 1 three_passes first_variables running_globals
      (record { whole = omega arith; room = omega arith; one_seed = inl (refl, refl) })
      (record { free = refl; attached = refl; clients = refl })
      (inl (
        omega arith,
        inr (
          omega arith,
          IsPaced-at 1000 (u64_mod - 1) 1 (omega arith) (λ e. omega (arith, e)),
          inr (omega arith, IsPaced-at 1512 1 2 (omega arith) (λ e. omega (arith, e)), tt),
        ),
      ))
