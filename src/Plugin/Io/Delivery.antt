-- ===== src/Plugin/Io/Delivery.antt =====
-- What DoIOOperation (plugin/Line6HAL.c) delivers, while the daemon goes on writing.
use native.Mathlib.Nat.{add-zero}
use line6_coreaudio.Prelude.{ℕ, ◌+◌, ◌-◌, ◌≤◌, ◌<◌, ◌≡◌, ◌≢◌, ◌∙◌, ap, true, false, arith, u64_mod}
use line6_coreaudio.Shm.{Shm, slot, ring_frames_count, max_channels}
use line6_coreaudio.Stream.{Holds, segment}
use line6_coreaudio.Stream.Producer.{Produced, Produced-Holds}
use line6_coreaudio.Plugin.{Cursor, Globals, returned, dev_channels}
use line6_coreaudio.Plugin.Io.{read_input, depth, advance, copy_frames, do_io}
use line6_coreaudio.Plugin.Io.Window.{IsWindow, IsSized, advance-IsWindow}
use line6_coreaudio.Plugin.Io.Copy.{copy_frames-eq-segment}

-- The ring as the copy loop sees it at each sample: the daemon is somewhere in its loops, at
-- frame `n`, no earlier than the count that the plugin has loaded and before frame `limit`.
abbrev pub SeesUpTo :
    {A : Type 0} → Shm A → (ℕ → ℕ → A) → (ℕ → A) → ℕ → ℕ → (ℕ → ℕ → ℕ → A) → Type 0
SeesUpTo shm h old first limit ring =
    (i c : ℕ)
    → (n : ℕ) × (k : ℕ) × Produced shm.channels h old first (ring i c) n k
      × (shm.write_frames ≤ n)
      × (n < limit)

-- The segment is attached, the mutex is free, and the daemon has set the segment up for a device
-- with a supported channel count.
pub record IsReady {F A : Type 0} (shm : Shm A) (g : Globals F) : Type 0 where
  pub free : g.locked ≡ false
  pub attached : g.attached ≡ true
  pub some_channel : 0 < shm.channels
  pub few_channels : shm.channels ≤ max_channels

-- The cursor after a read of `in_frames` frames in an IO cycle.
abbrev pub next_cursor : {F A : Type 0} → Shm A → ℕ → ℕ → Globals F → Cursor
next_cursor shm cycle in_frames g =
    advance cycle shm.write_frames in_frames shm.latency_frames g.cursor

-- The first frame that such a read returns.
abbrev pub position : {F A : Type 0} → Shm A → ℕ → ℕ → Globals F → ℕ
position shm cycle in_frames g = (next_cursor shm cycle in_frames g).cycle_read_frame

module _ {A : Type 0} (shm : Shm A) (h : ℕ → ℕ → A) (old : ℕ → A) (first : ℕ)
    (held : Holds shm.channels h (first + 1 - ring_frames_count) first old) where
  shows :
      (limit : ℕ) (ring : ℕ → ℕ → ℕ → A)
      → SeesUpTo shm h old first limit ring
      → (f i c : ℕ) → f < shm.write_frames
      → limit ≤ f + ring_frames_count
      → c < shm.channels
      → ring i c (slot shm.channels f c) ≡ h f c
  shows limit ring sees f i c published near low =
      let (n, k, p, later, soon) = sees i c in
      Produced-Holds shm.channels h held p f c (omega arith) (omega arith) low

module _ {F A : Type 0} (silence : A) (shm : Shm A) (g : Globals F) (ready : IsReady shm g) where
  dev_channels-IsReady : dev_channels g shm ≡ shm.channels
  unfolding dev_channels
  dev_channels-IsReady = ground arith

  do_io-copies :
      (in_frames cycle : ℕ) (ring : ℕ → ℕ → ℕ → A)
      → do_io silence read_input true in_frames cycle shm ring g
        ≡ returned (
          copy_frames silence ring shm.channels shm.write_frames
              (position shm cycle in_frames g)
              0
              in_frames,
          record g { cursor = next_cursor shm cycle in_frames g },
        )
  unfolding do_io
  do_io-copies in_frames cycle ring = ground (arith, dev_channels-IsReady)

  -- A read at a published position returns the stream from there on, provided that the daemon
  -- does not reach the frame one ring after the position while the loop runs.
  pub do_io-eq-segment :
      (h : ℕ → ℕ → A) (old : ℕ → A) (first in_frames cycle : ℕ) (ring : ℕ → ℕ → ℕ → A)
      → Holds shm.channels h (first + 1 - ring_frames_count) first old
      → shm.write_frames < u64_mod
      → position shm cycle in_frames g + in_frames ≤ shm.write_frames
      → SeesUpTo shm h old first (position shm cycle in_frames g + ring_frames_count) ring
      → do_io silence read_input true in_frames cycle shm ring g
        ≡ returned (
          segment shm.channels h (position shm cycle in_frames g) in_frames,
          record g { cursor = next_cursor shm cycle in_frames g },
        )
  do_io-eq-segment h old first in_frames cycle ring held small published sees =
      do_io-copies in_frames cycle ring
      ∙ ap (λ out. returned (out, record g { cursor = next_cursor shm cycle in_frames g }))
          (copy_frames-eq-segment silence ring h shm.channels shm.write_frames start 0 in_frames
              (omega arith) small
              (λ j ch inside low.
                shows shm h old first held (start + ring_frames_count) ring sees (start + j) j ch
                  (omega arith) (omega arith) low)
            ∙ ap (λ f. segment shm.channels h f in_frames) (add-zero start))
    where
      start : ℕ
      start = position shm cycle in_frames g

  -- With a segment of 1 to 8 channels attached and the mutex free, buffer and latency within the
  -- ring (IsSized) and the cursor below 2^64, DoIOOperation(ReadInput) in a new IO cycle, with
  -- more frames written than the read depth, returns `in_frames` consecutive frames of the
  -- daemon's stream, none of them torn or overwritten, and moves the cursor, whatever the cursor
  -- was before, if the daemon writes fewer than `in_frames` further frames during the call; the
  -- frames read are a window of the ring.
  pub do_io_delivers :
      (h : ℕ → ℕ → A) (old : ℕ → A) (first in_frames cycle : ℕ) (ring : ℕ → ℕ → ℕ → A)
      → Holds shm.channels h (first + 1 - ring_frames_count) first old
      → IsSized shm.write_frames in_frames shm.latency_frames
      → g.cursor.read_frame < u64_mod
      → cycle ≢ g.cursor.last_cycle
      → depth in_frames shm.latency_frames < shm.write_frames
      → SeesUpTo shm h old first (shm.write_frames + in_frames) ring
      → (do_io silence read_input true in_frames cycle shm ring g
          ≡ returned (
            segment shm.channels h (position shm cycle in_frames g) in_frames,
            record g { cursor = next_cursor shm cycle in_frames g },
          ))
        × IsWindow shm.write_frames in_frames (position shm cycle in_frames g)
  do_io_delivers h old first in_frames cycle ring held sized bound fresh started sees = (
    do_io-eq-segment h old first in_frames cycle ring held (omega (arith, sized.clock)) win.written
        (λ i c. let (n, k, p, later, soon) = sees i c in (n, k, p, later, omega (arith, win.kept))),
    win,
  )
    where
      win : IsWindow shm.write_frames in_frames (position shm cycle in_frames g)
      win = advance-IsWindow sized cycle g.cursor bound fresh started
