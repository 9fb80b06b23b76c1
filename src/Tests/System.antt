-- ===== src/Tests/System.antt =====
-- The theorem on the whole path at a concrete input.
use line6_coreaudio.Prelude.{ℕ, ◌+◌, ◌*◌, ◌≡◌, refl, true, arith, List, [], ◌∷◌, some}
use line6_coreaudio.Shm.{Shm}
use line6_coreaudio.Stream.{segment}
use line6_coreaudio.Plugin.{Globals, returned}
use line6_coreaudio.Plugin.Io.{read_input, depth, do_io}
use line6_coreaudio.Plugin.Io.Window.{IsWindow}
use line6_coreaudio.Daemon.Samples.{Steps, pos}
use line6_coreaudio.Daemon.Capture.{StreamState}
use line6_coreaudio.Daemon.Capture.Transfer.{frames_of}
use line6_coreaudio.System.{Transfer, capture, captured, packets_in, capture_delivers}
use line6_coreaudio.Tests.State.{running_globals}
use line6_coreaudio.Tests.Wire.{
  segment_from, stream_from, Holds-stream_from, test_double, test_stream, test_buffer, test_packets,
  test_stream-IsCapture, Delivers-test_packets,
}

abbrev test_transfers : List Transfer
test_transfers = record { submits = true; buffer = test_buffer; packets = test_packets } ∷ []

capture_delivers_example :
    (st' : StreamState test_double) × (shm' : Shm Steps) × (f : ℕ) × (g' : Globals ℕ) × (capture
        test_transfers test_stream
        (segment_from 400)
      ≡ some (st', shm'))
    × (do_io (pos 0) read_input true 64 9 shm' (λ i c. shm'.ring) running_globals
        ≡ returned (segment 1 (stream_from 400) f 64, g'))
    × IsWindow (400 + captured (1 * 3) test_transfers) 64 f
unfolding captured packets_in frames_of depth
capture_delivers_example =
    capture_delivers (stream_from 400) test_stream test_stream-IsCapture (segment_from 400) refl
      (pos 0) running_globals refl refl test_transfers 64 9 (omega arith) (omega arith)
      (Delivers-test_packets 400, tt) (Holds-stream_from 400 _) (omega arith)
      (record {
        buffer = omega arith;
        latency = omega arith;
        default_fits = omega arith;
        clock = omega arith;
      })
      (omega arith) (λ e. omega (arith, e)) (omega arith)
