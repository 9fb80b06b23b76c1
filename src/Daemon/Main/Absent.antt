-- ===== src/Daemon/Main/Absent.antt =====
-- daemon/src/main.rs: when run_daemon gives up, and the latency that it asks of the plugin.
use Prim.Native.String.{String}
use line6_coreaudio.Prelude.{
  ℕ, ◌+◌, ◌-◌, ◌≡◌, ◌≢◌, ◌≤◌, ◌<◌, refl, Bool, true, false, ◌&&◌, leb, arith, List, [], ◌∷◌, ◌++◌,
  Option, some, none, if◌then◌else◌, u32_mod, u64_mod, length, dec_lt, ◌%◌,
}
use line6_coreaudio.Shm.{Shm}
use line6_coreaudio.Plugin.{Cursor}
use line6_coreaudio.Plugin.Io.{depth, advance}
use line6_coreaudio.Plugin.Io.Window.{IsSized, IsWindow, advance-IsWindow}
use line6_coreaudio.Daemon.Devices.{Device, find_connected}
use line6_coreaudio.Daemon.Capture.{Double}
use line6_coreaudio.Daemon.Main.{
  Locals, Turn, Turned, next, leave, fail, segment_for, started, idle_turn, turn, turns,
  latency_frames_of, absent_exit_grace,
}

-- With the latency of any --latency-ms every buffer of up to 21,760 frames fits the ring, at write
-- counts that stay 2^32 below 2^64.
latency_frames_of-IsSized :
    (latency_ms w in_frames : ℕ)
    → in_frames ≤ 21760
    → w + u32_mod ≤ u64_mod
    → (240 ≤ latency_frames_of latency_ms)
      × (latency_frames_of latency_ms ≤ 24000)
      × IsSized w in_frames (latency_frames_of latency_ms)
unfolding latency_frames_of
latency_frames_of-IsSized latency_ms w in_frames small clock = ground arith

-- Whatever --latency-ms says, the latency of the segment lies between 5 and 500 ms; and with it, for a
-- buffer of up to 21,760 frames, a write count that stays 2^32 below 2^64 and a cursor below 2^64, a
-- new IO cycle of the plugin reads a window of the ring as soon as more frames are written than the
-- read depth.
pub latency_frames_of-IsWindow :
    (latency_ms w in_frames cycle : ℕ) (c : Cursor)
    → in_frames ≤ 21760
    → w + u32_mod ≤ u64_mod
    → c.read_frame < u64_mod
    → cycle ≢ c.last_cycle
    → depth in_frames (latency_frames_of latency_ms) < w
    → (240 ≤ latency_frames_of latency_ms)
      × (latency_frames_of latency_ms ≤ 24000)
      × IsWindow w in_frames
          (advance cycle w in_frames (latency_frames_of latency_ms) c).cycle_read_frame
latency_frames_of-IsWindow latency_ms w in_frames cycle c small clock bound fresh started =
    let (low, high, sized) = latency_frames_of-IsSized latency_ms w in_frames small clock in
    (low, high, advance-IsWindow sized cycle c bound fresh started)

-- Whether the daemon ends with a turn: it leaves the loop, or shm::create has failed.
abbrev pub is_end : {fp : Double} → Turned fp → Bool
is_end (leave l calls) = true
is_end fail = true
is_end _ = false

abbrev pub is_none {ℓ} : {A : Type ℓ} → Option A → Bool
is_none none = true
is_none (some a) = false

module _ {fp : Double} where
  module _ (exits : Bool) (latency_frames : ℕ) (as_bytes : String → List ℕ) where
    -- Whether the daemon gives up, by the device that find_connected gives.
    abbrev pub gives_up : Turn → Locals fp → Option Device → Bool
    gives_up t l none = exits && leb absent_exit_grace (l.absent_count + 1)
    gives_up t l (some d) = is_none (segment_for latency_frames as_bytes t d l.shm_pid l.segment)

-- Turns in which no signal has come and find_connected gives no device.
abbrev pub AreAbsent : List Turn → Type 0
AreAbsent [] = Unit {0}
AreAbsent (t ∷ ts) = (t.keeps_running ≡ true) × (find_connected t.bus ≡ none) × AreAbsent ts

module _ {fp : Double} (sine : Bool) (latency_frames : ℕ) (as_bytes : String → List ℕ) where
  one_absent :
      (t : Turn) (l : Locals fp)
      → t.keeps_running ≡ true
      → find_connected t.bus ≡ none
      → l.active ≡ none
      → l.absent_count < absent_exit_grace
      → turn sine true latency_frames as_bytes t l ≡ (
          if leb absent_exit_grace (l.absent_count + 1)
          then leave (record l { absent_count = l.absent_count + 1 }) []
          else next (record l { absent_count = l.absent_count + 1 }) [])
  unfolding turn idle_turn
  one_absent t l runs gone idle low =
      let plain : (l.absent_count + 1) % u32_mod ≡ l.absent_count + 1 = omega arith in
      rw (runs, idle, gone, plain) refl

  -- With --exit-when-absent, no signal and no capture running, the daemon ends after exactly as many
  -- turns in which find_connected gives no device as are missing to three, whatever would follow.
  pub absent_exit :
      (ts more : List Turn) (l : Locals fp)
      → AreAbsent ts
      → l.active ≡ none
      → l.absent_count < absent_exit_grace
      → length ts ≡ absent_exit_grace - l.absent_count
      → turns sine true latency_frames as_bytes (ts ++ more) l
        ≡ leave (record l { absent_count = absent_exit_grace }) []
  unfolding turns
  absent_exit [] more l gone idle low count = absurd (omega arith)
  absent_exit (t ∷ ts) more l (runs, away, gone) idle low count =
      elim (dec_lt (l.absent_count + 1) absent_exit_grace) [
        | yes wait_more ↦
            let on : leb absent_exit_grace (l.absent_count + 1) ≡ false = ground arith in
            rw (one_absent t l runs away idle low, on)
              (rw
                (absent_exit ts more (record l { absent_count = l.absent_count + 1 }) gone idle
                  wait_more (omega arith))
                refl)
        | no enough ↦
            let off : leb absent_exit_grace (l.absent_count + 1) ≡ true = ground arith in
            let full : l.absent_count + 1 ≡ absent_exit_grace = omega arith in
            rw (one_absent t l runs away idle low, off, full) refl
      ]
