-- ===== src/Harness/Simulation.antt =====
-- plugin/haltest.c, iosim: a client of the plugin, paced on the host clock, which keeps channel 0 of
-- what it reads. A pass of the loop takes what it meets of the outside: the clock each time that it
-- is read, the segment and its ring, and what the stack holds where the buffer is put.
pub mod State
pub mod Laws
pub mod Hearing
pub mod Gapless
use line6_coreaudio.Prelude.{
  ℕ, zero, suc, ◌+◌, ◌-◌, ◌*◌, ◌%◌, Bool, true, false, not, ◌&&◌, List, [], ◌∷◌, ◌++◌, Option, none,
  some, ltb, ◌==◌, if◌then◌else◌, u64_mod, length, get_or,
}
use line6_coreaudio.Shm.{Shm, max_channels}
use line6_coreaudio.Float64.{Float64}
use line6_coreaudio.Plugin.{
  Status, no_err, bad_object, unknown_property, unsupported_operation, object_device, Globals,
  Outcome, returned, ◌>>=◌,
}
use line6_coreaudio.Plugin.Lifecycle.{Mapping}
use line6_coreaudio.Plugin.Io.{start_io, stop_io, read_input, do_io}
use line6_coreaudio.Plugin.Timeline.{TimeStamp, get_zero_time_stamp}

-- B, the frames of one IO cycle.
abbrev pub cycle_frames : ℕ
cycle_frames = 512

abbrev pub is_no_err : Status → Bool
is_no_err no_err = true
is_no_err bad_object = false
is_no_err unknown_property = false
is_no_err unsupported_operation = false

-- The integers that iosim computes before its loop: (UInt64)(seconds * ticksPerSec),
-- (UInt64)tickPerBuf and maxFrames.
pub record Pace : Type 0 where
  pub limit : ℕ
  pub ticks_per_buffer : ℕ
  pub max_frames : ℕ

module _ (f : Float64) where
  open f use {Carrier, of_u64, to_u64, times, over}

  -- `seconds` is the argument of iosim, numer/denom the timebase.
  unfoldable pub pace_of : Carrier → ℕ → ℕ → Pace
  pace_of seconds numer denom =
      let ticks_per_sec = over (times (of_u64 1000000000) (of_u64 denom)) (of_u64 numer) in
      let ticks_per_frame = over ticks_per_sec (of_u64 48000) in
      record {
        limit = to_u64 (times seconds ticks_per_sec);
        ticks_per_buffer = to_u64 (times ticks_per_frame (of_u64 cycle_frames));
        max_frames = (to_u64 (times seconds (of_u64 48000)) + 4096) % u64_mod;
      }

-- What a pass of the loop meets: the clock in the loop's condition, in `now`, and inside
-- GetZeroTimeStamp; the segment and the ring during DoIOOperation; and `buf` before it is written.
pub record Pass (A : Type 0) : Type 0 where
  pub checked : ℕ
  pub now : ℕ
  pub stamped : ℕ
  pub shm : Shm A
  pub ring : ℕ → ℕ → ℕ → A
  pub stack : ℕ → A

-- The variables of the loop: the first `got` elements of `cap`, nextCall, cycle, lastSeed, and
-- seedChanges, which starts at -1, plus one.
pub record Simulation (A : Type 0) : Type 0 where
  pub captured : List A
  pub next_call : ℕ
  pub cycle : ℕ
  pub last_seed : ℕ
  pub seeds : ℕ

-- How a pass leaves the loop: it goes on, its condition has failed, or a handler gave an error.
pub data Course : Type 0 where
  going ended failed : Course

abbrev pub is_going : Course → Bool
is_going going = true
is_going ended = false
is_going failed = false

-- The variables before the loop, `start` being the clock.
unfoldable pub begun : {A : Type 0} → Pace → ℕ → Simulation A
begun p start = record {
  captured = [];
  next_call = (start + p.ticks_per_buffer) % u64_mod;
  cycle = 0;
  last_seed = 0;
  seeds = 0;
}

-- The look at zSeed.
unfoldable pub note_seed : {F A : Type 0} → Option (TimeStamp F) → Simulation A → Simulation A
note_seed none s = s
note_seed (some z) s =
    if z.seed == s.last_seed then s else record s { last_seed = z.seed; seeds = s.seeds + 1 }

module _ {A : Type 0} (channels : ℕ) (p : Pace) where
  -- The loop that keeps channel 0, from iteration `i` on: `got` elements are in `cap`, `left`
  -- iterations are to go.
  unfoldable pub keep : List A → (ℕ → A) → ℕ → ℕ → ℕ → List A
  keep written stack i got zero = []
  keep written stack i got (suc left) =
      if ltb got p.max_frames
      then get_or written (i * channels) (stack (i * channels))
        ∷ keep written stack (i + 1) (got + 1) left
      else []

module _ (f : Float64) {A : Type 0} (silence : A) (channels : ℕ) (p : Pace) (start : ℕ) where
  -- The loop's condition.
  unfoldable pub goes_on : Pass A → Simulation A → Bool
  goes_on x s =
      ltb ((x.checked + u64_mod - start) % u64_mod) p.limit
      && ltb ((length s.captured + cycle_frames) % u64_mod) p.max_frames

  -- The pass after GetZeroTimeStamp. DoIOOperation gives no status but noErr.
  unfoldable pub read_cycle :
      Pass A
      → Simulation A
      → Globals f.Carrier
      → Outcome (Course × Simulation A × Globals f.Carrier)
  read_cycle x s g =
      let cycle = (s.cycle + 1) % u64_mod in
      do_io silence read_input true cycle_frames cycle x.shm x.ring g >>= λ d. returned (
        going,
        record s {
          captured = s.captured ++ keep channels p d.0 x.stack 0 (length s.captured) cycle_frames;
          cycle = cycle;
        },
        d.1,
      )

  -- A pass of the loop.
  unfoldable pub pass :
      Pass A
      → Simulation A
      → Globals f.Carrier
      → Outcome (Course × Simulation A × Globals f.Carrier)
  pass x s g =
      if not (goes_on x s)
      then returned (ended, s, g)
      else if ltb x.now s.next_call
      then returned (going, s, g)
      else (let s1 = record s { next_call = (s.next_call + p.ticks_per_buffer) % u64_mod } in
          get_zero_time_stamp f true object_device x.stamped g >>= λ z.
          if is_no_err z.0 then read_cycle x (note_seed z.1 s1) z.2 else returned (failed, s1, z.2))

  -- The loop over its passes; `going` where they do not suffice.
  unfoldable pub passes :
      List (Pass A)
      → Simulation A
      → Globals f.Carrier
      → Outcome (Course × Simulation A × Globals f.Carrier)
  passes [] s g = returned (going, s, g)
  passes (x ∷ xs) s g = pass x s g >>= λ q. if is_going q.0 then passes xs q.1 q.2 else returned q

module _ (f : Float64) {A : Type 0} (silence : A) (channels : ℕ) where
  -- iosim up to its analysis: `m`, `opened` and `shm` are what StartIO meets, `start` is the clock
  -- after it. Nothing where StartIO gives an error.
  unfoldable pub iosim :
      Pace
      → Mapping
      → ℕ
      → Shm A
      → ℕ
      → List (Pass A)
      → Globals f.Carrier
      → Outcome (Option (Course × Simulation A) × Globals f.Carrier)
  iosim p m opened shm start xs g = start_io true object_device m opened shm g >>= λ r.
      if not (is_no_err r.0)
      then returned (none, r.1)
      else (passes f silence channels p start xs (begun p start) r.1 >>= λ q.
          if is_going q.0
          then returned (some (q.0, q.1), q.2)
          else (stop_io true object_device q.2 >>= λ t. returned (some (q.0, q.1), t.1)))
