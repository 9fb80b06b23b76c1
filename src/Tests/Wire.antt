-- ===== src/Tests/Wire.antt =====
-- Test data: a segment of one channel, a stream, and a transfer that carries two of its frames.
use line6_coreaudio.Prelude.{
  ℕ, ◌+◌, ◌-◌, ◌*◌, ◌/◌, ◌≡◌, refl, true, false, arith, List, [], ◌∷◌, ◌++◌, replicate, ltb, lt→ltb,
  ltb_of_le, if◌then◌else◌,
}
use line6_coreaudio.Shm.{Shm}
use line6_coreaudio.Stream.{Holds}
use line6_coreaudio.Daemon.Samples.{Steps, pos}
use line6_coreaudio.Daemon.Writer.{decoded, Carries}
use line6_coreaudio.Daemon.Capture.{Double, StreamState, Packet}
use line6_coreaudio.Daemon.Capture.Packets.{IsCapture}
use line6_coreaudio.Daemon.Capture.Transfer.{Delivers}

-- A segment of one channel at some frame, and a stream whose frames from there on are the bytes'.
abbrev pub segment_from : ℕ → Shm Steps
segment_from w = record {
  magic = 0;
  version = 1;
  sample_rate = 48000;
  channels = 1;
  ring_frames = 65536;
  latency_frames = 1;
  name = [];
  write_frames = w;
  ring = λ i. pos 7;
}

abbrev pub two_frames : List ℕ
two_frames = 1 ∷ 0 ∷ 0 ∷ 2 ∷ 0 ∷ 255 ∷ []

abbrev pub stream_from : ℕ → ℕ → ℕ → Steps
stream_from w f c = if ltb f w then pos 7 else decoded two_frames ((f - w) * 3)

pub Holds-stream_from : (w lo : ℕ) → Holds 1 (stream_from w) lo w (λ i. pos 7)
Holds-stream_from w lo f c from before low = rw (lt→ltb f w before)

pub Carries-stream_from : (w : ℕ) → Carries 1 two_frames (stream_from w) w
Carries-stream_from w i c near low =
    let at : (w + i - w) * 3 ≡ i * (1 * 3) + c * 3 = omega arith in
    rw (ltb_of_le (w + i) w (omega arith), at)

-- Whole numbers as f64, with the identity as sine and a quarter of 1.
abbrev pub test_double : Double
test_double = record {
  Carrier = ℕ;
  whole = λ n. n;
  quarter = 1;
  pi = 300;
  times = λ x y. x * y;
  over = λ x y. x / y;
  plus = λ x y. x + y;
  minus = λ x y. x - y;
  greater = λ x y. ltb y x;
  sin = λ x. x;
  as_f32 = pos;
}

abbrev pub test_stream : StreamState test_double
test_stream = record {
  running = true;
  in_flight = 8;
  channels = 1;
  frame_bytes = 3;
  in_pkt_len = 24;
  sine = false;
  sine_phase = 0;
  iso_errors = 0;
  unaligned_packets = 0;
}

-- Two frames and a byte arrive, then a packet fails with nothing in it.
abbrev pub test_buffer : List ℕ
test_buffer = two_frames ++ replicate 42 9

abbrev pub test_packets : List Packet
test_packets =
    record { completed = true; actual_length = 7 }
    ∷ record { completed = false; actual_length = 0 }
    ∷ []

pub test_stream-IsCapture : IsCapture test_stream
test_stream-IsCapture = record {
  some_channel = omega arith;
  few_channels = omega arith;
  three_bytes = refl;
  real = refl;
}

pub Delivers-test_packets : (w : ℕ) → Delivers 1 24 test_buffer (stream_from w) 0 w test_packets
Delivers-test_packets w =
    (omega arith, Carries-stream_from w, (omega arith, (λ i c near low. absurd (omega arith)), tt))
