-- ===== src/Daemon/Capture.antt =====
-- daemon/src/usb.rs: StreamState and the two transfer callbacks. A slice that leaves the transfer's
-- buffer is undefined behaviour in the source; here it is `none`, as a panic is.
pub mod Packets
pub mod Transfer
pub mod Total
pub mod Sine
use line6_coreaudio.Prelude.{
  ℕ, zero, suc, ◌+◌, ◌-◌, ◌*◌, ◌/◌, ◌%◌, Bool, true, false, ◌&&◌, not, List, [], ◌∷◌, Option, none,
  some, u32_mod, u64_mod, length, take, drop, ltb, ◌==◌, if◌then◌else◌,
}
use line6_coreaudio.Shm.{Shm, slot}
use line6_coreaudio.Daemon.Devices.{Device, capture_frame_bytes}
use line6_coreaudio.Daemon.Samples.{Steps}
use line6_coreaudio.Daemon.Writer.{◌>>=◌, store_in, push_frames}

abbrev pub max_frames_per_in_pkt : ℕ
max_frames_per_in_pkt = 8

-- The arithmetic of Rust's f64 that push_sine uses: whole numbers and 0.25 as literals, PI, *, /, +,
-- -, >, sin, and `as f32`, in the steps of a sample.
pub record Double : Type 1 where
  pub Carrier : Type 0
  pub whole : ℕ → Carrier
  pub quarter : Carrier
  pub pi : Carrier
  pub times : Carrier → Carrier → Carrier
  pub over : Carrier → Carrier → Carrier
  pub plus : Carrier → Carrier → Carrier
  pub minus : Carrier → Carrier → Carrier
  pub greater : Carrier → Carrier → Bool
  pub sin : Carrier → Carrier
  pub as_f32 : Carrier → Steps

module _ (fp : Double) where
  -- StreamState; `in_flight` is an i32, given by its 32-bit pattern. The segment that `shm` points to
  -- is an argument.
  pub record StreamState : Type 0 where
    pub running : Bool
    pub in_flight : ℕ
    pub channels : ℕ
    pub frame_bytes : ℕ
    pub in_pkt_len : ℕ
    pub sine : Bool
    pub sine_phase : fp.Carrier
    pub iso_errors : ℕ
    pub unaligned_packets : ℕ

  unfoldable pub new_stream : Device → Bool → StreamState
  new_stream device sine = record {
    running = true;
    in_flight = 0;
    channels = device.capture_channels;
    frame_bytes = capture_frame_bytes device;
    in_pkt_len = capture_frame_bytes device * max_frames_per_in_pkt;
    sine = sine;
    sine_phase = fp.whole 0;
    iso_errors = 0;
    unaligned_packets = 0;
  }

  -- 2.0 * PI and STEP
  full_turn : fp.Carrier
  full_turn = fp.times (fp.whole 2) fp.pi

  sine_step : fp.Carrier
  unfolding full_turn
  sine_step = fp.over (fp.times full_turn (fp.whole 440)) (fp.whole 48000)

  -- (phase.sin() * 0.25) as f32
  pub tone : fp.Carrier → Steps
  tone phase = fp.as_f32 (fp.times (fp.sin phase) fp.quarter)

  pub next_phase : fp.Carrier → fp.Carrier
  unfolding full_turn sine_step
  next_phase phase =
      let moved = fp.plus phase sine_step in
      if fp.greater moved full_turn then fp.minus moved full_turn else moved

  sine_channels : Steps → ℕ → ℕ → ℕ → ℕ → (ℕ → Steps) → Option (ℕ → Steps)
  sine_channels v channels w ch zero ring = some ring
  sine_channels v channels w ch (suc left) ring = store_in ring (slot channels w ch) v >>= λ ring1.
      sine_channels v channels w (ch + 1) left ring1

  sine_loop : ℕ → ℕ → ℕ → (ℕ → Steps) → fp.Carrier → Option ((ℕ → Steps) × ℕ × fp.Carrier)
  sine_loop channels zero w ring phase = some (ring, w, phase)
  sine_loop channels (suc left) w ring phase =
      sine_channels (tone phase) channels w 0 channels ring >>= λ ring1.
      sine_loop channels left ((w + 1) % u64_mod) ring1 (next_phase phase)

  pub push_sine : ℕ → ℕ → Shm Steps → fp.Carrier → Option (Shm Steps × fp.Carrier)
  push_sine channels frames shm phase =
      sine_loop channels frames shm.write_frames shm.ring phase >>= λ p.
      some (record shm { ring = p.0; write_frames = p.1 }, p.2)

-- One isochronous packet descriptor after the transfer: whether its status is COMPLETED, and the
-- bytes received.
pub record Packet : Type 0 where
  pub completed : Bool
  pub actual_length : ℕ

-- from_raw_parts(base.offset(i * in_pkt_len), whole)
unfoldable pub slice : List ℕ → ℕ → ℕ → Option (List ℕ)
slice buffer at whole =
    if ltb (length buffer) (at + whole) then none else some (take whole (drop at buffer))

-- One round of the loop of on_in over the descriptors, for packet `i`.
module _ {fp : Double} where
  unfoldable pub tally : Packet → StreamState fp → StreamState fp
  tally d st = record st {
    iso_errors = if d.completed then st.iso_errors else (st.iso_errors + 1) % u64_mod;
  }

  unfoldable pub flag : Packet → StreamState fp → StreamState fp
  flag d st = record st {
    unaligned_packets =
        if d.actual_length % st.frame_bytes == 0
        then st.unaligned_packets
        else (st.unaligned_packets + 1) % u64_mod;
  }

  unfoldable pub take_packet :
      List ℕ → ℕ → Packet → StreamState fp → Shm Steps → Option (StreamState fp × Shm Steps)
  take_packet buffer i d st0 shm =
      let st = tally d st0 in
      let alen = d.actual_length in
      let st1 = flag d st in
      let whole = alen - alen % st.frame_bytes in
      if alen == 0
      then some (st, shm)
      else if st.frame_bytes == 0
      then none
      else if whole == 0
      then some (st1, shm)
      else slice buffer (i * st.in_pkt_len) whole >>= λ s24.
          (if st.sine
            then (push_sine fp st.channels (whole / st.frame_bytes) shm st.sine_phase >>= λ p.
                some (record st1 { sine_phase = p.1 }, p.0))
            else (push_frames st.channels s24 shm >>= λ shm'. some (st1, shm')))

  unfoldable pub take_packets :
      List ℕ → ℕ → List Packet → StreamState fp → Shm Steps → Option (StreamState fp × Shm Steps)
  take_packets buffer i [] st shm = some (st, shm)
  take_packets buffer i (d ∷ ds) st shm =
      take_packet buffer i d st shm >>= λ p. take_packets buffer (i + 1) ds p.0 p.1

  -- The end of both callbacks; `submits` is `libusb_submit_transfer(t) == 0`.
  unfoldable pub resubmit : Bool → StreamState fp → StreamState fp
  resubmit submits st = record st {
    in_flight =
        if not (st.running && submits)
        then (st.in_flight + u32_mod - 1) % u32_mod
        else st.in_flight;
  }

  unfoldable pub on_in :
      Bool → List ℕ → List Packet → StreamState fp → Shm Steps → Option (StreamState fp × Shm Steps)
  on_in submits buffer ds st shm =
      take_packets buffer 0 ds st shm >>= λ p. some (resubmit submits p.0, p.1)

  unfoldable pub on_out : Bool → StreamState fp → StreamState fp
  on_out submits st = resubmit submits st
