-- ===== src/Tests/Io.antt =====
-- The theorems on the segment and on the plugin's IO at concrete inputs.
use line6_coreaudio.Prelude.{
  ℕ, ◌+◌, ◌-◌, ◌*◌, ◌≡◌, ◌≢◌, refl, true, false, arith, List, [], ◌∷◌, u64_mod,
}
use line6_coreaudio.Shm.{slot, ring_frames_count}
use line6_coreaudio.Shm.Layout.{slot_disjoint}
use line6_coreaudio.Stream.{Holds, segment}
use line6_coreaudio.Stream.Producer.{Produced-Holds}
use line6_coreaudio.Plugin.{Globals, returned}
use line6_coreaudio.Plugin.Lifecycle.{mapped}
use line6_coreaudio.Plugin.Io.{read_input, depth, advance, out_of_window, do_io}
use line6_coreaudio.Plugin.Io.Window.{IsWindow}
use line6_coreaudio.Plugin.Io.Delivery.{next_cursor, position, do_io_delivers}
use line6_coreaudio.Plugin.Io.Clients.{do_io_same_cycle, IoCycle, play, play_gapless}
use line6_coreaudio.Plugin.Io.Session.{Call, start, stop, clients, run_calls, run_calls_lem}
use line6_coreaudio.Tests.State.{
  IsPaced-at, old_ring, new_ring, stream, seen, segment_at, shm4000, fresh_globals, running_globals,
  old_held, one_stored, seen_up_to, shm4000-IsSized, running-IsReady,
}

slot_disjoint_example : slot 2 10 1 ≢ slot 2 65545 0
slot_disjoint_example =
    slot_disjoint 2 10 65545 1 0 (omega arith) (omega arith) (omega arith) (omega arith)

Produced-Holds_example : Holds 2 stream (4000 + 1 - ring_frames_count) 4000 new_ring
Produced-Holds_example = Produced-Holds 2 stream (old_held _ 4000) one_stored

do_io_delivers_example :
    (do_io 0 read_input true 512 1 shm4000 seen running_globals
      ≡ returned (
        segment 2 stream (position shm4000 1 512 running_globals) 512,
        record running_globals { cursor = next_cursor shm4000 1 512 running_globals },
      ))
    × IsWindow 4000 512 (position shm4000 1 512 running_globals)
unfolding depth
do_io_delivers_example =
    do_io_delivers 0 shm4000 running_globals (running-IsReady 4000) stream old_ring 4000 512 1 seen
      (old_held _ 4000) shm4000-IsSized (omega arith) (λ e. omega (arith, e)) (omega arith)
      (seen_up_to (4000 + 512) (omega arith))

do_io_same_cycle_example :
    do_io 0 read_input true 512 1
      (segment_at 4000)
      seen
      (record running_globals { cursor = next_cursor shm4000 1 512 running_globals })
    ≡ do_io 0 read_input true 512 1 shm4000 seen running_globals
unfolding advance out_of_window
do_io_same_cycle_example =
    do_io_same_cycle 0 shm4000 running_globals (running-IsReady 4000) stream old_ring 4000 512 1
      4000 seen seen (old_held _ 4000) (omega arith) (omega arith) (omega arith)
      (seen_up_to (1000 + ring_frames_count) (omega arith))
      (seen_up_to (1000 + ring_frames_count) (omega arith))

abbrev cycle_one : IoCycle ℕ
cycle_one = record { counter = 1; shm = shm4000; seen = seen }

abbrev cycle_two : IoCycle ℕ
cycle_two = record { counter = 2; shm = shm4000; seen = seen }

play_gapless_example :
    (g' : Globals ℕ) × (play 0 512 (cycle_one ∷ cycle_two ∷ []) running_globals
      ≡ returned (segment 2 stream 1000 (2 * 512), g'))
play_gapless_example =
    play_gapless 2 stream old_ring 4000 512 0 (old_held _ 4000) (cycle_one ∷ cycle_two ∷ [])
      running_globals refl refl
      (
        IsPaced-at 1000 (u64_mod - 1) 1 (omega arith) (λ e. omega (arith, e)),
        (IsPaced-at 1512 1 2 (omega arith) (λ e. omega (arith, e)), tt),
      )

abbrev idle_globals : Globals ℕ
idle_globals = record fresh_globals { attached = true }

abbrev some_calls : List (Call ℕ)
some_calls = start mapped 5 shm4000 ∷ start mapped 9 shm4000 ∷ stop ∷ []

run_calls_lem_example :
    (g' : Globals ℕ) × (run_calls some_calls idle_globals ≡ returned g')
    × (g'.locked ≡ false)
    × (g'.attached ≡ true)
    × (g'.io_running ≡ clients some_calls 0)
run_calls_lem_example = run_calls_lem some_calls idle_globals refl refl (omega arith)
