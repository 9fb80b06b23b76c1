-- ===== src/Tests/Engine.antt =====
-- The theorems on the USB engine at concrete inputs.
use line6_coreaudio.Prelude.{◌≡◌, refl, true, false, arith, List, [], ◌∷◌, some, ltb, ◌==◌}
use line6_coreaudio.Shm.{Shm}
use line6_coreaudio.Daemon.Samples.{Steps}
use line6_coreaudio.Daemon.Writer.{SameHeader}
use line6_coreaudio.Daemon.Devices.{pod_x3}
use line6_coreaudio.Daemon.Capture.{StreamState, new_stream, on_in, resubmit}
use line6_coreaudio.Daemon.Capture.Total.{IsSetUp, SameStream, AreWithin, on_in_returns}
use line6_coreaudio.Daemon.Engine.{Replies, Engine, transfers_of, start, Completion, Round}
use line6_coreaudio.Daemon.Engine.Protocol.{Held, follow}
use line6_coreaudio.Daemon.Engine.Streaming.{nothing, Settled}
use line6_coreaudio.Daemon.Engine.Start.{start_settles}
use line6_coreaudio.Tests.Wire.{segment_from, test_double, test_stream, test_buffer, test_packets}

pub test_stream-IsSetUp : IsSetUp test_stream
test_stream-IsSetUp = record {
  some_channel = omega arith;
  few_channels = omega arith;
  three_bytes = refl;
}

test_packets-AreWithin : AreWithin 24 test_buffer 0 test_packets
test_packets-AreWithin = omega arith

on_in_returns_example :
    (st' : StreamState test_double) × (shm' : Shm Steps) × (on_in true test_buffer test_packets
        test_stream
        (segment_from 10)
      ≡ some (resubmit true st', shm'))
    × SameStream test_stream st'
    × SameHeader (segment_from 10) shm'
on_in_returns_example =
    on_in_returns test_buffer true test_packets test_stream (segment_from 10) test_stream-IsSetUp
      test_packets-AreWithin

-- libusb takes one transfer only.
abbrev pub one_reply : Replies
one_reply = record {
  inits = true;
  opens = true;
  claims = true;
  sets_alt = true;
  submits = λ t. t == 3;
}

start_settles_example :
    (h : Held) × (follow (start one_reply pod_x3 (new_stream test_double pod_x3 false)).2 nothing
      ≡ some h)
    × Settled
        (start one_reply pod_x3 (new_stream test_double pod_x3 false)).0
        (start one_reply pod_x3 (new_stream test_double pod_x3 false)).1
        h
unfolding new_stream
start_settles_example = start_settles one_reply pod_x3 (new_stream test_double pod_x3 false) refl

abbrev one_active : Held
one_active = record {
  context = true;
  handle = true;
  claimed = true;
  allocated = λ t. ltb t 16;
  active = λ t. t == 3;
}

abbrev test_engine : Engine
test_engine = record { interface = 0; transfers = transfers_of pod_x3 }

abbrev one_in_flight : StreamState test_double
one_in_flight = record test_stream { in_flight = 1 }

abbrev third : Completion
third = record { id = 3; submits = true; buffer = test_buffer; packets = test_packets }

abbrev two_rounds : List Round
two_rounds =
    record { elapsed = 0; completions = third ∷ [] }
    ∷ record { elapsed = 2000000000; completions = [] }
    ∷ []
