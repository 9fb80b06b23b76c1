-- ===== src/Tests/Main.antt =====
-- The theorems on the daemon's main loop at concrete inputs.
use Prim.Native.String.{String}
use line6_coreaudio.Prelude.{
  ℕ, ◌≤◌, ◌≡◌, refl, true, false, arith, List, [], ◌∷◌, ◌++◌, Option, some, none, inl,
}
use line6_coreaudio.Shm.{Shm, max_channels, shm_magic, shm_version}
use line6_coreaudio.Plugin.Lifecycle.{mapped, has_good_header}
use line6_coreaudio.Plugin.Io.Window.{IsWindow}
use line6_coreaudio.Plugin.Io.{depth, advance}
use line6_coreaudio.Tests.State.{cursor_at}
use line6_coreaudio.Daemon.Samples.{Steps, pos}
use line6_coreaudio.Daemon.Devices.{Ids, vid_line6, pod_x3, find_product, scan, find_connected}
use line6_coreaudio.Daemon.Header.{write_name, create}
use line6_coreaudio.Daemon.Capture.{new_stream, on_in, take_packets, resubmit}
use line6_coreaudio.Daemon.Capture.Total.{IsSetUp}
use line6_coreaudio.Daemon.Engine.{
  Call, handle_events_timeout, called_back, submit_transfer, transfers_of, make_isos, make_iso,
  submit_all, start, call_backs, call_back,
}
use line6_coreaudio.Daemon.Engine.Protocol.{Held, follow, allow}
use line6_coreaudio.Daemon.Engine.Streaming.{nothing, IsStreaming}
use line6_coreaudio.Daemon.Main.{
  Active, Locals, new_locals, Turn, next, leave, turn, capture_turn, idle_turn, turns,
  latency_frames_of,
}
use line6_coreaudio.Daemon.Main.Laws.{IsFair}
use line6_coreaudio.Daemon.Main.Absent.{latency_frames_of-IsWindow, absent_exit}
use line6_coreaudio.Daemon.Main.Reach.{Reach, begins, turned, reached_capture}
use line6_coreaudio.Tests.Engine.{one_reply}
use line6_coreaudio.Tests.Wire.{test_double}

latency_frames_of-IsWindow_example :
    (240 ≤ latency_frames_of 2000)
    × (latency_frames_of 2000 ≤ 24000)
    × IsWindow 40000 512
        (advance 1 40000 512 (latency_frames_of 2000) (cursor_at 0)).cycle_read_frame
unfolding latency_frames_of depth
latency_frames_of-IsWindow_example =
    latency_frames_of-IsWindow 2000 40000 512 1 (cursor_at 0) (omega arith) (omega arith)
      (omega arith) (λ e. omega (arith, e)) (omega arith)

abbrev pod_text : String → List ℕ
pod_text s = 80 ∷ 79 ∷ 68 ∷ []

abbrev turn_with : Option (List (Option Ids)) → Turn
turn_with bus = record {
  keeps_running = true;
  now = 1000;
  completions = [];
  rounds = [];
  bus = bus;
  mapping = mapped;
  old_ring = λ i. pos 0;
  replies = one_reply;
}

abbrev pod_bus : Option (List (Option Ids))
pod_bus = some (some (record { vendor = vid_line6; product = 0x414A }) ∷ [])

abbrev empty_turn : Turn
empty_turn = turn_with (some [])

abbrev idle_locals : Locals test_double
idle_locals = new_locals test_double 0

empty_turn-absent : find_connected empty_turn.bus ≡ none
unfolding find_connected scan
empty_turn-absent = refl

absent_exit_example :
    turns false true 3072 pod_text
      ((empty_turn ∷ empty_turn ∷ empty_turn ∷ []) ++ turn_with pod_bus ∷ [])
      idle_locals
    ≡ leave (record idle_locals { absent_count = 3 }) []
absent_exit_example =
    absent_exit false 3072 pod_text (empty_turn ∷ empty_turn ∷ empty_turn ∷ [])
      (turn_with pod_bus ∷ []) idle_locals
      ((refl, empty_turn-absent, (refl, empty_turn-absent, (refl, empty_turn-absent, tt)))) refl
      (omega arith) (omega arith)

-- The state after a POD X3 is found.
abbrev pod_active : Active test_double
pod_active = record {
  stream = record (new_stream test_double pod_x3 false) { in_flight = 1 };
  engine = record { interface = 0; transfers = transfers_of pod_x3 };
}

abbrev pod_segment : Shm Steps
pod_segment = record {
  magic = shm_magic;
  version = shm_version;
  sample_rate = 48000;
  channels = 8;
  ring_frames = 65536;
  latency_frames = 3072;
  name = write_name (pod_text "");
  write_frames = 0;
  ring = λ i. pos 0;
}

abbrev pod_locals : Locals test_double
pod_locals = record {
  active = some pod_active;
  segment = some pod_segment;
  shm_pid = 0x414A;
  last_wf = 0;
  last_progress = 1000;
  absent_count = 0;
}

abbrev pod_calls : List Call
pod_calls = (start one_reply pod_x3 (new_stream test_double pod_x3 false)).2

pod_turn : turn false true 3072 pod_text (turn_with pod_bus) idle_locals ≡ next pod_locals pod_calls
unfolding turn idle_turn find_connected scan find_product start submit_all transfers_of make_isos
    make_iso create new_stream
pod_turn = refl

-- What libusb holds after some calls that it allows.
abbrev held_after : Option Held → Held
held_after none = nothing
held_after (some h) = h

abbrev pod_held : Held
pod_held = held_after (follow pod_calls nothing)

pod_followed : follow pod_calls nothing ≡ some pod_held
unfolding follow allow start submit_all transfers_of make_isos make_iso new_stream
pod_followed = refl

pod_Reach : Reach false true 3072 pod_text pod_locals pod_held
pod_Reach = turned (turn_with pod_bus) pod_calls (begins 0) tt pod_turn pod_followed

-- The device is unplugged: its one active transfer comes back and cannot be submitted again.
abbrev unplugged_at : ℕ → Turn
unplugged_at now = record (turn_with pod_bus) {
  now = now;
  completions = record { id = 3; submits = false; buffer = []; packets = [] } ∷ [];
  rounds = record { elapsed = 2000000000; completions = [] } ∷ [];
}

third_active : pod_held.active 3 ≡ true
unfolding follow allow start submit_all transfers_of make_isos make_iso new_stream
third_active = refl

unplugged-IsFair : (now : ℕ) → IsFair (unplugged_at now) pod_locals.active pod_held
unplugged-IsFair now = ((third_active, tt, tt), (tt, tt), inl (omega arith))

-- The capture with nothing in flight, before the watchdog sees it.
abbrev stalled_active : Active test_double
stalled_active = record pod_active { stream = record pod_active.stream { in_flight = 0 } }

abbrev stalled_locals : Locals test_double
stalled_locals = record pod_locals { active = some stalled_active }

abbrev stalled_calls : List Call
stalled_calls = handle_events_timeout ∷ called_back 3 ∷ submit_transfer 3 false ∷ []

abbrev stalled_held : Held
stalled_held = held_after (follow stalled_calls pod_held)

stalled_turn :
    turn false true 3072 pod_text (unplugged_at 2000) pod_locals ≡ next stalled_locals stalled_calls
unfolding turn capture_turn call_backs call_back on_in take_packets resubmit new_stream
stalled_turn = refl

stalled_followed : follow stalled_calls pod_held ≡ some stalled_held
unfolding follow allow start submit_all transfers_of make_isos make_iso new_stream
stalled_followed = refl

stalled_Reach : Reach false true 3072 pod_text stalled_locals stalled_held
stalled_Reach =
    turned (unplugged_at 2000) stalled_calls pod_Reach (unplugged-IsFair 2000) stalled_turn
      stalled_followed

reached_capture_example :
    (shm : Shm Steps) × (stalled_locals.segment ≡ some shm)
    × (stalled_active.stream.channels ≡ shm.channels)
    × (shm.channels ≡ max_channels)
    × (has_good_header shm ≡ true)
    × (shm.latency_frames ≡ 3072)
    × IsSetUp stalled_active.stream
    × IsStreaming stalled_active.engine stalled_active.stream stalled_held
reached_capture_example =
    reached_capture false true 3072 pod_text stalled_locals stalled_held stalled_active
      stalled_Reach refl
