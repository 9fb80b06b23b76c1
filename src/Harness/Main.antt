-- ===== src/Harness/Main.antt =====
-- plugin/haltest.c: main and peek_attach. The mock host (MockPropertiesChanged and the others) only
-- counts notifications and gives no values; the plugin's handlers read nothing of it.
pub mod Verdict
use line6_coreaudio.Prelude.{
  ℕ, ◌+◌, Bool, true, false, not, ◌&&◌, ◌||◌, List, Option, none, some, leb, ltb, ◌==◌,
  if◌then◌else◌,
}
use line6_coreaudio.Shm.{Shm, max_channels}
use line6_coreaudio.Float64.{Float64}
use line6_coreaudio.CoreAudio.{CoreAudio}
use line6_coreaudio.CoreFoundation.{CoreFoundation}
use line6_coreaudio.Plugin.{Globals, Outcome, returned, ◌>>=◌}
use line6_coreaudio.Plugin.Lifecycle.{Mapping, open_failed, map_failed, mapped, create, initialize}
use line6_coreaudio.Plugin.Interface.{Driver, loaded}
use line6_coreaudio.Plugin.Property.Value.{Value}
use line6_coreaudio.Harness.{sweep}
use line6_coreaudio.Harness.Simulation.{
  Pass, Simulation, Course, going, ended, failed, is_no_err, pace_of, iosim,
}
use line6_coreaudio.Harness.Analysis.{Analog, failures}

-- gChannels after peek_attach, by what shm_open and mmap give.
unfoldable pub peek_attach : {A : Type 0} → Mapping → Shm A → ℕ
peek_attach open_failed shm = max_channels
peek_attach map_failed shm = max_channels
peek_attach mapped shm =
    if ltb 0 shm.channels && leb shm.channels max_channels then shm.channels else max_channels

-- What main meets of the outside: whether dlopen and dlsym give something, the timebase, the segment
-- as peek_attach finds it, as the plugin's Initialize and the sweep find it, and as StartIO finds it,
-- whether the monitor's thread starts, and what iosim meets.
pub record Surroundings (A : Type 0) : Type 0 where
  pub opens : Bool
  pub finds_factory : Bool
  pub numer : ℕ
  pub denom : ℕ
  pub mapping : Mapping
  pub shm : Shm A
  pub peeked : Mapping
  pub peeked_shm : Shm A
  pub thread_started : Bool
  pub mapping_at_start : Mapping
  pub shm_at_start : Shm A
  pub start_clock : ℕ
  pub loop_clock : ℕ
  pub passes : List (Pass A)

-- The exit status by gProblems.
abbrev pub exit_status : ℕ → ℕ
exit_status problems = if problems == 0 then 0 else 2

module _ (f : Float64) {A : Type 0} (o : Analog f A) (seconds : f.Carrier) where
  -- The exit status after the sweep's problems and what iosim comes to; nothing while its loop
  -- still goes on.
  unfoldable pub status_after : ℕ → Option (Course × Simulation A) → Option ℕ
  status_after problems none = some (exit_status (problems + 1))
  status_after problems (some (going, s)) = none
  status_after problems (some (ended, s)) =
      some (exit_status (problems + failures f o seconds s.captured))
  status_after problems (some (failed, s)) =
      some (exit_status (problems + (1 + failures f o seconds s.captured)))

  module _ (ca : CoreAudio) (encode : Value ca → List ℕ) (cf : CoreFoundation) (silence : A) where
    -- main, on a plugin that has just been loaded; `sweep_only` is the flag --sweep-only.
    unfoldable pub main : Bool → Surroundings A → cf.Heap → Outcome (Option ℕ)
    main sweep_only e heap =
        let d = loaded cf heap f in
        if not e.opens || not e.finds_factory || not (create true)
        then returned (some 1)
        else initialize f true true e.numer e.denom e.mapping e.shm e.thread_started d.globals
          >>= λ i.
              if not (is_no_err i.0)
              then returned (some 1)
              else (sweep ca encode cf e.shm d.names i.2 >>= λ w.
                  if sweep_only
                  then returned (some (exit_status w.0))
                  else (iosim f silence (peek_attach e.peeked e.peeked_shm)
                        (pace_of f seconds e.numer e.denom) e.mapping_at_start e.start_clock
                        e.shm_at_start e.loop_clock e.passes w.2
                      >>= λ r. returned (status_after w.0 r.0)))
