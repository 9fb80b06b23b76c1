-- ===== src/Daemon/Capture/Transfer.antt =====
-- What a transfer of captured packets leaves in the segment (daemon/src/usb.rs, on_in).
use native.Mathlib.Nat.{add-zero}
use line6_coreaudio.Prelude.{
  ℕ, ◌+◌, ◌-◌, ◌*◌, ◌/◌, ◌%◌, ◌≤◌, ◌<◌, ◌≡◌, refl, ◌∙◌, ap, Bool, false, arith, List, [], ◌∷◌, some,
  u64_mod, length, ◌==◌, if◌then◌else◌,
}
use line6_coreaudio.Shm.{Shm, max_channels, ring_frames_count}
use line6_coreaudio.Stream.{Holds}
use line6_coreaudio.Daemon.Samples.{Steps}
use line6_coreaudio.Daemon.Writer.{Carries, SameHeader, SameHeader-trans}
use line6_coreaudio.Daemon.Devices.{Device, devices, capture_frame_bytes}
use line6_coreaudio.Daemon.Devices.Laws.{In, head, tail}
use line6_coreaudio.Daemon.Capture.{
  Double, new_stream, StreamState, Packet, tally, flag, take_packets, on_in, resubmit,
}
use line6_coreaudio.Daemon.Capture.Packets.{IsCapture, payload, packet_lem}

-- The frames that a transfer's packets hold whole, the packets that failed, and those with a tail.
unfoldable pub frames_of : ℕ → List Packet → ℕ
frames_of frame_bytes [] = 0
frames_of frame_bytes (d ∷ ds) = d.actual_length / frame_bytes + frames_of frame_bytes ds

pub failed_of : List Packet → ℕ
failed_of [] = 0
failed_of (d ∷ ds) = (if d.completed then 0 else 1) + failed_of ds

pub tails_of : ℕ → List Packet → ℕ
tails_of frame_bytes [] = 0
tails_of frame_bytes (d ∷ ds) =
    (if d.actual_length % frame_bytes == 0 then 0 else 1) + tails_of frame_bytes ds

pub failed_of-le : (ds : List Packet) → failed_of ds ≤ length ds
unfolding failed_of
failed_of-le [] = omega arith
failed_of-le (d ∷ ds) = ground (arith, failed_of-le ds)

pub tails_of-le : (frame_bytes : ℕ) (ds : List Packet) → tails_of frame_bytes ds ≤ length ds
unfolding tails_of
tails_of-le frame_bytes [] = omega arith
tails_of-le frame_bytes (d ∷ ds) = ground (arith, tails_of-le frame_bytes ds)

-- The packets from `i` on stay within the buffer, and the stream `h` has their frames, one packet
-- after the other, from frame `w` on.
abbrev pub Delivers :
    (channels in_pkt_len : ℕ) → List ℕ → (ℕ → ℕ → Steps) → ℕ → ℕ → List Packet → Type 0
Delivers channels in_pkt_len buffer h i w [] = Unit
Delivers channels in_pkt_len buffer h i w (d ∷ ds) =
    (i * in_pkt_len + d.actual_length ≤ length buffer)
    × Carries channels (payload (channels * 3) in_pkt_len buffer i d) h w
    × Delivers channels in_pkt_len buffer h (i + 1) (w + d.actual_length / (channels * 3)) ds

-- The state after a transfer but for the count of transfers in flight.
abbrev pub tallied : {fp : Double} → List Packet → StreamState fp → StreamState fp
tallied ds st = record st {
  iso_errors = st.iso_errors + failed_of ds;
  unaligned_packets = st.unaligned_packets + tails_of (st.channels * 3) ds;
}

module _ {fp : Double} (buffer : List ℕ) (h : ℕ → ℕ → Steps) where
  tallied_next :
      (st : StreamState fp) (d : Packet) (ds : List Packet)
      → st.frame_bytes ≡ st.channels * 3
      → st.iso_errors + length (d ∷ ds) < u64_mod
      → st.unaligned_packets + length (d ∷ ds) < u64_mod
      → tallied ds (flag d (tally d st)) ≡ tallied (d ∷ ds) st
  unfolding flag tally failed_of tails_of
  tallied_next st d ds three errors tails =
      let e1 : (if d.completed then st.iso_errors else (st.iso_errors + 1) % u64_mod) + failed_of ds
          ≡ st.iso_errors + ((if d.completed then 0 else 1) + failed_of ds) =
        ground arith in
      let e2 : (if d.actual_length % (st.channels * 3) == 0
              then st.unaligned_packets
              else (st.unaligned_packets + 1) % u64_mod)
            + tails_of (st.channels * 3) ds
          ≡ st.unaligned_packets
            + ((if d.actual_length % (st.channels * 3) == 0 then 0 else 1)
                + tails_of (st.channels * 3) ds) =
        ground arith in
      rw (three, e1, e2)

  packets_lem :
      (st : StreamState fp)
      → IsCapture st
      → (i : ℕ) (ds : List Packet) (shm : Shm Steps) → st.iso_errors + length ds < u64_mod
      → st.unaligned_packets + length ds < u64_mod
      → shm.write_frames + frames_of (st.channels * 3) ds < u64_mod
      → Delivers st.channels st.in_pkt_len buffer h i shm.write_frames ds
      → Holds st.channels h (shm.write_frames + 1 - ring_frames_count) shm.write_frames shm.ring
      → (shm' : Shm Steps) × (take_packets buffer i ds st shm ≡ some (tallied ds st, shm'))
        × (shm'.write_frames ≡ shm.write_frames + frames_of (st.channels * 3) ds)
        × Holds st.channels h
            (shm'.write_frames + 1 - ring_frames_count)
            shm'.write_frames
            shm'.ring
        × SameHeader shm shm'
  unfolding take_packets frames_of failed_of tails_of flag tally
  packets_lem st set_up i [] shm errors tails small delivers held =
      (shm, rw (add-zero, add-zero) refl, rw add-zero, held, refl)
  packets_lem st set_up i (d ∷ ds) shm errors tails small (within, carries, later) held =
      let (shm1, ran1, more1, held1, same1) =
        packet_lem st set_up buffer shm h i d within (omega arith) carries held in
      let (shm2, ran2, more2, held2, same2) =
        packets_lem (flag d (tally d st))
          (record {
            some_channel = set_up.some_channel;
            few_channels = set_up.few_channels;
            three_bytes = set_up.three_bytes;
            real = set_up.real;
          })
          (i + 1) ds shm1 (ground arith) (ground arith) (omega (arith, more1)) (rw more1 later)
          held1 in
      (
        shm2,
        rw ran1 (
            ran2 ∙ ap (λ s. some (s, shm2)) (tallied_next st d ds set_up.three_bytes errors tails)),
        more2 ∙ omega (arith, more1),
        held2,
        SameHeader-trans shm shm1 shm2 same1 same2,
      )

module _ {fp : Double} (st : StreamState fp) (set_up : IsCapture st) (buffer : List ℕ)
    (h : ℕ → ℕ → Steps) (shm : Shm Steps) where
  -- A completed transfer of a capture (one to eight channels, three bytes a sample, no sine), its packets
  -- within the buffer and the counters below 2^64, neither panics nor reaches outside buffer or ring: from a ring that holds the last
  -- frames of the stream it makes one that holds them with the whole frames of all packets in
  -- order; the header stays and the frame count grows by their number; each failed packet and each packet with a tail
  -- is counted once; and the count in flight is as after the resubmission.
  pub on_in_lem :
      (submits : Bool) (ds : List Packet)
      → st.iso_errors + length ds < u64_mod
      → st.unaligned_packets + length ds < u64_mod
      → shm.write_frames + frames_of (st.channels * 3) ds < u64_mod
      → Delivers st.channels st.in_pkt_len buffer h 0 shm.write_frames ds
      → Holds st.channels h (shm.write_frames + 1 - ring_frames_count) shm.write_frames shm.ring
      → (shm' : Shm Steps) × (on_in submits buffer ds st shm
          ≡ some (resubmit submits (tallied ds st), shm'))
        × (shm'.write_frames ≡ shm.write_frames + frames_of (st.channels * 3) ds)
        × Holds st.channels h
            (shm'.write_frames + 1 - ring_frames_count)
            shm'.write_frames
            shm'.ring
        × SameHeader shm shm'
  unfolding on_in
  on_in_lem submits ds errors tails small delivers held =
      let (shm', ran, more, held', same) =
        packets_lem buffer h st set_up 0 ds shm errors tails small delivers held in
      (shm', rw ran, more, held', same)

-- A stream that StreamState::new sets up without sine for a device of the table has a channel and
-- three bytes a sample, at most as many channels as the segment has room for, and 192 bytes a
-- packet.
new_stream-IsCapture :
    {fp : Double} (d : Device)
    → In d devices
    → IsCapture (new_stream fp d false)
      × ((new_stream fp d false).channels ≤ max_channels)
      × ((new_stream fp d false).in_pkt_len ≡ 192)
unfolding new_stream capture_frame_bytes
new_stream-IsCapture d (head e) = rw e (
  record {
    some_channel = omega arith;
    few_channels = omega arith;
    three_bytes = refl;
    real = refl;
  },
  omega arith,
  refl,
)
new_stream-IsCapture d (tail (head e)) = rw e (
  record {
    some_channel = omega arith;
    few_channels = omega arith;
    three_bytes = refl;
    real = refl;
  },
  omega arith,
  refl,
)
new_stream-IsCapture d (tail (tail m)) = elim m [ ]
