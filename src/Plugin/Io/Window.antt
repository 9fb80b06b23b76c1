-- ===== src/Plugin/Io/Window.antt =====
-- The read cursor of DoIOOperation (plugin/Line6HAL.c): what window of the ring a cycle reads.
use line6_coreaudio.Prelude.{
  ℕ, ◌+◌, ◌-◌, ◌*◌, ◌≤◌, ◌<◌, ◌≡◌, ◌≢◌, false, arith, inl, inr, Bool-cases, u32_mod, u64_mod,
}
use line6_coreaudio.Shm.{ring_frames_count}
use line6_coreaudio.Plugin.{Cursor, safety_offset, default_margin}
use line6_coreaudio.Plugin.Io.{depth, out_of_window, advance}

-- A read of `in_frames` frames from `start` sees only frames that are written (before `w`) and
-- not yet overwritten, with room for `in_frames` more frames to arrive.
pub record IsWindow (w in_frames start : ℕ) : Type 0 where
  pub written : start + in_frames ≤ w
  pub kept : w + in_frames ≤ start + ring_frames_count

-- What the host and the daemon keep to: buffers and latencies that fit the ring together, and
-- counters that stay below 2^64 (12 million years at 48 kHz).
pub record IsSized (w in_frames latency_frames : ℕ) : Type 0 where
  pub buffer : 3 * in_frames + safety_offset ≤ ring_frames_count
  pub latency : latency_frames + in_frames ≤ ring_frames_count
  pub default_fits : default_margin + in_frames ≤ ring_frames_count
  pub clock : w + u32_mod ≤ u64_mod

module _ {w in_frames latency_frames : ℕ} (s : IsSized w in_frames latency_frames) where
  -- The test of the code is false exactly at a window.
  pub IsWindow-out_of_window :
      (start : ℕ)
      → start < u64_mod
      → out_of_window w in_frames start ≡ false
      → IsWindow w in_frames start
  unfolding out_of_window
  IsWindow-out_of_window start bound test = ground arith

  pub out_of_window-IsWindow :
      (start : ℕ) → IsWindow w in_frames start → out_of_window w in_frames start ≡ false
  unfolding out_of_window
  out_of_window-IsWindow start win = ground arith

  pub depth_bounds :
      (2 * in_frames + safety_offset ≤ depth in_frames latency_frames)
      × (depth in_frames latency_frames + in_frames ≤ ring_frames_count)
  unfolding depth
  depth_bounds = ground arith

  -- With buffer and latency within the ring and a cursor below 2^64, a new cycle after the
  -- start-up phase (more frames written than the depth) reads a window of the ring, whatever the
  -- cursor was before.
  pub advance-IsWindow :
      (cycle : ℕ) (c : Cursor)
      → c.read_frame < u64_mod
      → cycle ≢ c.last_cycle
      → depth in_frames latency_frames < w
      → IsWindow w in_frames (advance cycle w in_frames latency_frames c).cycle_read_frame
  unfolding advance
  advance-IsWindow cycle c bound fresh started =
      ground (arith, depth_bounds, IsWindow-out_of_window c.read_frame bound)

  -- With buffer and latency within the ring, while the cursor stands at a window a new cycle reads
  -- exactly where the last one ended.
  pub advance_contiguous :
      (cycle : ℕ) (c : Cursor)
      → cycle ≢ c.last_cycle
      → IsWindow w in_frames c.read_frame
      → advance cycle w in_frames latency_frames c ≡ record {
        read_frame = c.read_frame + in_frames;
        cycle_read_frame = c.read_frame;
        last_cycle = cycle;
      }
  unfolding advance
  advance_contiguous cycle c fresh win = ground (arith, out_of_window-IsWindow c.read_frame win)

  -- With buffer and latency within the ring, a new cycle puts a cursor below 2^64 that stands at
  -- no window back by the depth, or to the first frame while fewer frames than that are written.
  advance_resync :
      (cycle : ℕ) (c : Cursor)
      → c.read_frame < u64_mod
      → cycle ≢ c.last_cycle
      → ¬ IsWindow w in_frames c.read_frame
      → (advance cycle w in_frames latency_frames c).cycle_read_frame
        ≡ w - depth in_frames latency_frames
  unfolding advance
  advance_resync cycle c bound fresh lost =
      elim (Bool-cases (out_of_window w in_frames c.read_frame)) [
        | inl out ↦ ground arith
        | inr within ↦ absurd (lost (IsWindow-out_of_window c.read_frame bound within))
      ]
