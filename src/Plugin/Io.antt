-- ===== src/Plugin/Io.antt =====
-- plugin/Line6HAL.c, the IO section: StartIO, StopIO, the read cursor and the copy loop of
-- DoIOOperation. Counters are uint64_t and inFrames is uint32_t, so their sums wrap.
pub mod Window
pub mod Session
pub mod Copy
pub mod Delivery
pub mod Clients
use line6_coreaudio.Prelude.{
  ℕ, zero, suc, ◌+◌, ◌-◌, ◌*◌, ◌%◌, Bool, true, false, ◌||◌, not, List, [], ◌∷◌, ◌++◌, ltb, ◌==◌,
  if◌then◌else◌, u32_mod, u64_mod, replicate,
}
use line6_coreaudio.Shm.{Shm, ring_frames_count, slot}
use line6_coreaudio.Plugin.{
  Status, no_err, bad_object, object_device, safety_offset, default_margin, Cursor, Globals,
  Outcome, returned, ◌>>=◌, lock, unlock, dev_channels,
}
use line6_coreaudio.Plugin.Lifecycle.{Mapping, attach_shm}

-- gLastCycle's reset value, ~0ULL
abbrev pub no_cycle : ℕ
no_cycle = u64_mod - 1

-- inOperationID, as far as the plugin tells operations apart.
pub data Operation : Type 0 where
  read_input other_operation : Operation

abbrev pub is_read_input : Operation → Bool
is_read_input read_input = true
is_read_input other_operation = false

-- What outWillDo and outWillDoInPlace receive from Line6_WillDoIOOperation.
pub will_do_io : Operation → Bool × Bool
will_do_io op = (is_read_input op, true)

-- Line6_BeginIOOperation, Line6_EndIOOperation
abbrev pub begin_io : Status
begin_io = no_err

abbrev pub end_io : Status
end_io = no_err

module _ {F A : Type 0} where
  -- The state that StartIO sets up for the first client, `now` being mach_absolute_time().
  pub anchor : ℕ → Shm A → Globals F → Globals F
  anchor now shm g =
      let w0 = if g.attached then shm.write_frames else 0 in
      record g {
        anchor_host_time = now;
        number_time_stamps = 0;
        cursor = record { read_frame = w0; cycle_read_frame = w0; last_cycle = no_cycle };
      }

  -- Line6_StartIO; `mine` is `inDriver == gDriverRef`.
  unfoldable pub start_io :
      Bool → ℕ → Mapping → ℕ → Shm A → Globals F → Outcome (Status × Globals F)
  unfolding anchor
  start_io mine device m now shm g =
      if not mine || not (device == object_device) then returned (bad_object, g) else do
        g1 ← lock g
        g2 ←
            if g1.io_running == 0
            then (attach_shm m shm g1 >>= λ h. returned (anchor now shm h))
            else returned g1
        returned (no_err, unlock (record g2 { io_running = (g2.io_running + 1) % u64_mod }))

-- Line6_StopIO
module _ {F : Type 0} where
  unfoldable pub stop_io : Bool → ℕ → Globals F → Outcome (Status × Globals F)
  stop_io mine device g =
      if not mine || not (device == object_device) then returned (bad_object, g) else do
        g1 ← lock g
        let n = if ltb 0 g1.io_running then g1.io_running - 1 else g1.io_running
        returned (no_err, unlock (record g1 { io_running = n }))

-- The depth that a resync gives the cursor: the larger of two buffers with the safety offset and
-- the segment's latency, or the default where that is 0.
unfoldable pub depth : ℕ → ℕ → ℕ
depth in_frames latency_frames =
    let lat = (in_frames * 2 + safety_offset) % u64_mod in
    let margin = if latency_frames == 0 then default_margin else latency_frames in
    if ltb lat margin then margin else lat

-- The condition on which DoIOOperation gives up its position: an underrun, a cursor past the
-- write head, or an overrun. The ring size less inFrames is a uint32_t difference.
unfoldable pub out_of_window : ℕ → ℕ → ℕ → Bool
out_of_window w in_frames read_frame =
    ltb w ((read_frame + in_frames) % u64_mod)
    || (ltb w read_frame
        || ltb ((ring_frames_count + u32_mod - in_frames) % u32_mod)
            ((w + u64_mod - read_frame) % u64_mod))

-- The cursor's step: at most one in each IO cycle.
unfoldable pub advance : ℕ → ℕ → ℕ → ℕ → Cursor → Cursor
advance cycle w in_frames latency_frames c =
    if cycle == c.last_cycle
    then c
    else let lat = depth in_frames latency_frames in
      let start =
        if out_of_window w in_frames c.read_frame
        then (if ltb lat w then w - lat else 0)
        else c.read_frame in
      record {
        read_frame = (start + in_frames) % u64_mod;
        cycle_read_frame = start;
        last_cycle = cycle;
      }

module _ {A : Type 0} where
  -- The samples of one frame, from channel `ch` on; `left` counts the channels to copy. The
  -- memory is a function of the channel, since the daemon writes while the plugin reads.
  pub copy_frame : (ℕ → ℕ → A) → ℕ → ℕ → ℕ → ℕ → List A
  copy_frame ring channels src ch zero = []
  copy_frame ring channels src ch (suc left) =
      ring ch (slot channels src ch) ∷ copy_frame ring channels src (ch + 1) left

module _ {A : Type 0} (silence : A) where
  -- The copy loop from iteration `i` on; `left` counts the iterations to go. `ring i ch` is the
  -- ring as it stands when channel `ch` of iteration `i` is copied.
  pub copy_frames : (ℕ → ℕ → ℕ → A) → ℕ → ℕ → ℕ → ℕ → ℕ → List A
  unfolding copy_frame
  copy_frames ring channels w rf i zero = []
  copy_frames ring channels w rf i (suc left) =
      let src = (rf + i) % u64_mod in
      (if ltb src w
        then copy_frame (ring i) channels src 0 channels
        else replicate channels silence)
      ++ copy_frames ring channels w rf (i + 1) left

  -- memset of the whole buffer
  pub silent_frames : ℕ → ℕ → List A
  silent_frames channels in_frames = replicate (in_frames * channels) silence

  -- Line6_DoIOOperation. `has_buffer` is `ioMainBuffer != NULL`; the list is what the buffer holds
  -- from its start on after the call (empty where nothing is written). `shm` is the segment when
  -- the header and write_frames are read, `ring` its samples during the copy.
  unfoldable pub do_io :
      {F : Type 0}
      → Operation
      → Bool
      → ℕ
      → ℕ
      → Shm A
      → (ℕ → ℕ → ℕ → A)
      → Globals F
      → Outcome (List A × Globals F)
  unfolding advance copy_frames silent_frames
  do_io op has_buffer in_frames cycle shm ring g =
      if not (is_read_input op) || not has_buffer
      then returned ([], g)
      else if not g.attached
      then returned (silent_frames (dev_channels g shm) in_frames, g)
      else do
        g1 ← lock g
        let w = shm.write_frames
        let c = advance cycle w in_frames shm.latency_frames g1.cursor
        let g2 = unlock (record g1 { cursor = c })
        returned (copy_frames ring (dev_channels g shm) w c.cycle_read_frame 0 in_frames, g2)
