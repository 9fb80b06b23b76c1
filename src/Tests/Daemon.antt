-- ===== src/Tests/Daemon.antt =====
-- The theorems on the daemon at concrete inputs.
use line6_coreaudio.Prelude.{
  ℕ, ◌+◌, ◌-◌, ◌*◌, ◌≡◌, refl, true, false, arith, List, [], ◌∷◌, Option, none, some, ltb,
  if◌then◌else◌,
}
use line6_coreaudio.Shm.{Shm, ring_frames_count}
use line6_coreaudio.Stream.{Holds}
use line6_coreaudio.Plugin.{returned, dev_channels}
use line6_coreaudio.Plugin.Lifecycle.{mapped, attach_shm}
use line6_coreaudio.Plugin.Names.{current_name}
use line6_coreaudio.Daemon.Devices.{Ids, pod_x3, find_connected}
use line6_coreaudio.Daemon.Devices.Laws.{head, tail, ScanFound, find_connected-ScanFound}
use line6_coreaudio.Daemon.Samples.{Steps, pos, s24_value, encode_s24, InS24, encode-s24_value}
use line6_coreaudio.Daemon.Writer.{SameHeader, push_frames, push_frames-Holds}
use line6_coreaudio.Daemon.Capture.{tone, on_in, resubmit}
use line6_coreaudio.Daemon.Capture.Transfer.{frames_of, tallied, on_in_lem}
use line6_coreaudio.Daemon.Capture.Sine.{phase_after}
use line6_coreaudio.Daemon.Header.{create, create-attach}
use line6_coreaudio.Tests.State.{fresh_globals}
use line6_coreaudio.Tests.Wire.{
  segment_from, two_frames, stream_from, Holds-stream_from, Carries-stream_from, test_double,
  test_stream, test_buffer, test_packets, test_stream-IsCapture, Delivers-test_packets,
}

encode-s24_value_example :
    InS24 (s24_value 1 2 255) × (encode_s24 (s24_value 1 2 255) ≡ (1, 2, 255))
encode-s24_value_example = encode-s24_value 1 2 255 (omega arith) (omega arith) (omega arith)

push_frames-Holds_example :
    (shm' : Shm Steps) × (push_frames 1 two_frames (segment_from 10) ≡ some shm')
    × (shm'.write_frames ≡ 10 + 2)
    × Holds 1
        (stream_from 10)
        (shm'.write_frames + 1 - ring_frames_count)
        shm'.write_frames
        shm'.ring
    × SameHeader (segment_from 10) shm'
push_frames-Holds_example =
    push_frames-Holds 1 two_frames (segment_from 10) (stream_from 10) (omega arith) (omega arith)
      (omega arith) (Carries-stream_from 10) (Holds-stream_from 10 _)

on_in_lem_example :
    (shm' : Shm Steps) × (on_in false test_buffer test_packets test_stream (segment_from 10)
      ≡ some (resubmit false (tallied test_packets test_stream), shm'))
    × (shm'.write_frames ≡ 10 + frames_of (1 * 3) test_packets)
    × Holds 1
        (stream_from 10)
        (shm'.write_frames + 1 - ring_frames_count)
        shm'.write_frames
        shm'.ring
    × SameHeader (segment_from 10) shm'
unfolding frames_of
on_in_lem_example =
    on_in_lem test_stream test_stream-IsCapture test_buffer (stream_from 10) (segment_from 10) false
      test_packets (omega arith) (omega arith) (omega arith) (Delivers-test_packets 10)
      (Holds-stream_from 10 _)

abbrev tone_from : ℕ → ℕ → ℕ → Steps
tone_from w f c = if ltb f w then pos 7 else tone test_double (phase_after test_double (f - w) 0)

abbrev test_bus : List (Option Ids)
test_bus = none ∷ some (record { vendor = 5; product = 0x414A }) ∷ []

find_connected-ScanFound_example : ScanFound test_bus (find_connected (some test_bus))
find_connected-ScanFound_example = find_connected-ScanFound test_bus

abbrev pod_name : List ℕ
pod_name = 80 ∷ 79 ∷ 68 ∷ []

create-attach_example :
    (shm : Shm ℕ) × (create (λ s. pod_name) mapped pod_x3 0 (λ i. i) ≡ some shm)
    × (attach_shm mapped shm fresh_globals ≡ returned (record fresh_globals { attached = true }))
    × (dev_channels (record fresh_globals { attached = true }) shm ≡ 8)
    × (current_name (record fresh_globals { attached = true }) shm ≡ pod_name)
create-attach_example =
    create-attach (λ s. pod_name) pod_x3 0 (λ i. i) fresh_globals refl (tail (head refl))
      (omega arith) (omega arith)
      ((λ e. omega (arith, e)), ((λ e. omega (arith, e)), ((λ e. omega (arith, e)), tt)))
