-- ===== src/Daemon/Main.antt =====
-- daemon/src/main.rs: the loop of run_daemon. A turn of the loop takes what it reads of the outside:
-- the signal flag, the clock, what libusb calls back and answers, the bus and the outcome of mmap.
-- Printing, sleeping and the two variables that only steer the printing are left out; the calls of
-- libusb inside find_connected use a context of their own and are left out too.
pub mod Laws
pub mod Turns
pub mod Absent
pub mod Reach
use Prim.Native.String.{String}
use line6_coreaudio.Prelude.{
  ℕ, ◌+◌, ◌-◌, ◌*◌, ◌/◌, ◌%◌, Bool, true, false, not, ◌||◌, List, [], ◌∷◌, ◌++◌, Option, none, some,
  u32_mod, ltb, leb, ◌==◌, if◌then◌else◌,
}
use line6_coreaudio.Shm.{Shm, sample_rate_hz}
use line6_coreaudio.Plugin.Lifecycle.{Mapping}
use line6_coreaudio.Daemon.Samples.{Steps}
use line6_coreaudio.Daemon.Devices.{Device, Ids, find_connected}
use line6_coreaudio.Daemon.Header.{create}
use line6_coreaudio.Daemon.Capture.{Double, StreamState, new_stream}
use line6_coreaudio.Daemon.Engine.{
  Call, handle_events_timeout, Replies, Engine, Started, ok, err, start, Completion, Round, Drained,
  done, panicked, waiting, call_backs, stop,
}

-- latency_ms.clamp(5, 500) * (SAMPLE_RATE_HZ / 1000)
unfoldable pub latency_frames_of : ℕ → ℕ
latency_frames_of latency_ms =
    (if ltb latency_ms 5 then 5 else if ltb 500 latency_ms then 500 else latency_ms)
    * (sample_rate_hz / 1000)

-- WATCHDOG_STALL_S in nanoseconds, and ABSENT_EXIT_GRACE
abbrev pub watchdog_stall : ℕ
watchdog_stall = 500000000

abbrev pub absent_exit_grace : ℕ
absent_exit_grace = 3

-- The running capture: its state and its engine.
pub record Active (fp : Double) : Type 0 where
  pub stream : StreamState fp
  pub engine : Engine

-- The locals of run_daemon; `segment` is none while shm_ptr is null. `last_progress` is an Instant
-- in nanoseconds.
pub record Locals (fp : Double) : Type 0 where
  pub active : Option (Active fp)
  pub segment : Option (Shm Steps)
  pub shm_pid : ℕ
  pub last_wf : ℕ
  pub last_progress : ℕ
  pub absent_count : ℕ

abbrev pub new_locals : (fp : Double) → ℕ → Locals fp
new_locals fp now = record {
  active = none;
  segment = none;
  shm_pid = 0;
  last_wf = 0;
  last_progress = now;
  absent_count = 0;
}

-- What a turn reads of the outside. `old_ring` is what the segment holds when it is mapped.
pub record Turn : Type 0 where
  pub keeps_running : Bool
  pub now : ℕ
  pub completions : List Completion
  pub rounds : List Round
  pub bus : Option (List (Option Ids))
  pub mapping : Mapping
  pub old_ring : ℕ → Steps
  pub replies : Replies

-- How a turn ends, with the libusb calls on the way: with the next one, with the loop left by its
-- condition or by break, with the error of shm::create, or not at all.
pub data Turned (fp : Double) : Type 0 where
  next : Locals fp → List Call → Turned fp
  leave : Locals fp → List Call → Turned fp
  fail : Turned fp
  panic : Turned fp
  wait : Turned fp

abbrev pub or_panic {ℓ} : {A : Type ℓ} {fp : Double} → Option A → (A → Turned fp) → Turned fp
or_panic none f = panic
or_panic (some a) f = f a

module _ (latency_frames : ℕ) (as_bytes : String → List ℕ) where
  -- The segment for a device: the present one, if it describes the device.
  abbrev pub segment_for : Turn → Device → ℕ → Option (Shm Steps) → Option (Shm Steps)
  segment_for t device pid none = create as_bytes t.mapping device latency_frames t.old_ring
  segment_for t device pid (some shm) =
      if not (pid == device.product_id)
      then create as_bytes t.mapping device latency_frames t.old_ring
      else some shm

module _ {fp : Double} where
  -- The capture is stopped and dropped, after some calls.
  abbrev pub stopped :
      (Locals fp → List Call → Turned fp)
      → Locals fp
      → List Call
      → Drained (StreamState fp × Shm Steps × List Call)
      → Turned fp
  stopped how l before (done (st, shm, calls)) =
      how (record l { active = none; segment = some shm }) (before ++ calls)
  stopped how l before panicked = panic
  stopped how l before waiting = wait

  -- The turn while a capture runs: events, then the watchdog.
  unfoldable pub capture_turn : Turn → Active fp → Shm Steps → Locals fp → Turned fp
  capture_turn t a shm l = or_panic (call_backs t.completions a.stream shm) λ p.
      let going = record l {
        active = some (record { stream = p.0; engine = a.engine });
        segment = some p.1;
      } in
      let calls = handle_events_timeout ∷ p.2 in
      if not (p.1.write_frames == l.last_wf)
      then next (record going { last_wf = p.1.write_frames; last_progress = t.now }) calls
      else if ltb watchdog_stall (t.now - l.last_progress)
      then stopped next l calls (stop t.rounds a.engine p.0 p.1)
      else next going calls

  -- start_capture, and what the loop makes of it.
  abbrev pub started :
      Turn → Device → Shm Steps → Locals fp → Started × StreamState fp × List Call → Turned fp
  started t device shm l (ok engine, st, calls) =
      next
        (record l {
          active = some (record { stream = st; engine = engine });
          segment = some shm;
          shm_pid = device.product_id;
          last_wf = shm.write_frames;
          last_progress = t.now;
          absent_count = 0;
        })
        calls
  started t device shm l (err e, st, calls) =
      next (record l { segment = some shm; shm_pid = device.product_id; absent_count = 0 }) calls

  -- What follows the loop: a capture that still runs is stopped.
  abbrev pub finish : List Round → Locals fp → Option (Active fp) → Option (Shm Steps) → Turned fp
  finish rounds l none segment = leave l []
  finish rounds l (some a) none = panic
  finish rounds l (some a) (some shm) = stopped leave l [] (stop rounds a.engine a.stream shm)

  abbrev pub prepend : List Call → Turned fp → Turned fp
  prepend cs (next l ds) = next l (cs ++ ds)
  prepend cs (leave l ds) = leave l (cs ++ ds)
  prepend cs fail = fail
  prepend cs panic = panic
  prepend cs wait = wait

  abbrev pub and_then : Turned fp → (Locals fp → Turned fp) → Turned fp
  and_then (next l cs) f = prepend cs (f l)
  and_then (leave l cs) f = leave l cs
  and_then fail f = fail
  and_then panic f = panic
  and_then wait f = wait

  module _ (sine exits : Bool) (latency_frames : ℕ) (as_bytes : String → List ℕ) where
    abbrev pub with_segment : Turn → Device → Locals fp → Option (Shm Steps) → Turned fp
    with_segment t device l none = fail
    with_segment t device l (some shm) =
        started t device shm l (start t.replies device (new_stream fp device sine))

    -- The turn with no capture running, by the device that find_connected gives.
    unfoldable pub idle_turn : Turn → Option Device → Locals fp → Turned fp
    idle_turn t none l =
        let count = (l.absent_count + 1) % u32_mod in
        if exits
        then (if leb absent_exit_grace count
            then leave (record l { absent_count = count }) []
            else next (record l { absent_count = count }) [])
        else next l []
    idle_turn t (some device) l =
        with_segment t device l (segment_for latency_frames as_bytes t device l.shm_pid l.segment)

    abbrev pub turn_by : Turn → Locals fp → Option (Active fp) → Option (Shm Steps) → Turned fp
    turn_by t l none segment = idle_turn t (find_connected t.bus) l
    turn_by t l (some a) none = panic
    turn_by t l (some a) (some shm) = capture_turn t a shm l

    -- A turn of the loop, or its end if a signal has come.
    unfoldable pub turn : Turn → Locals fp → Turned fp
    turn t l =
        if t.keeps_running
        then turn_by t l l.active l.segment
        else finish t.rounds l l.active l.segment

    -- Turns one after the other, until one of them is the last.
    unfoldable pub turns : List Turn → Locals fp → Turned fp
    turns [] l = next l []
    turns (t ∷ ts) l = and_then (turn t l) λ l'. turns ts l'
