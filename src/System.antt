-- ===== src/System.antt =====
-- The daemon and the plugin together: what a client of the plugin hears of the bytes that USB
-- transfers bring (daemon/src/usb.rs, on_in; plugin/Line6HAL.c, Line6_DoIOOperation).
use line6_coreaudio.Prelude.{
  ℕ, ◌+◌, ◌-◌, ◌*◌, ◌<◌, ◌≡◌, ◌≢◌, refl, ◌∙◌, ap, Bool, true, false, arith, List, [], ◌∷◌, Option,
  some, u64_mod, length,
}
use line6_coreaudio.Shm.{Shm, ring_frames_count}
use line6_coreaudio.Stream.{Holds, segment}
use line6_coreaudio.Stream.Producer.{begin}
use line6_coreaudio.Plugin.{Globals, returned}
use line6_coreaudio.Plugin.Io.{read_input, depth, do_io}
use line6_coreaudio.Plugin.Io.Window.{IsWindow, IsSized}
use line6_coreaudio.Plugin.Io.Delivery.{IsReady, next_cursor, position, do_io_delivers}
use line6_coreaudio.Daemon.Samples.{Steps}
use line6_coreaudio.Daemon.Writer.{◌>>=◌, SameHeader, SameHeader-trans}
use line6_coreaudio.Daemon.Capture.{Double, StreamState, Packet, resubmit, on_in}
use line6_coreaudio.Daemon.Capture.Packets.{IsCapture}
use line6_coreaudio.Daemon.Capture.Transfer.{
  frames_of, Delivers, tallied, failed_of-le, tails_of-le, on_in_lem,
}

-- A transfer that comes back: whether it can be submitted again, its buffer and its packets.
pub record Transfer : Type 0 where
  pub submits : Bool
  pub buffer : List ℕ
  pub packets : List Packet

-- The callbacks of some transfers, one after the other, as libusb runs them on one thread.
unfoldable pub capture :
    {fp : Double} → List Transfer → StreamState fp → Shm Steps → Option (StreamState fp × Shm Steps)
capture [] st shm = some (st, shm)
capture (t ∷ ts) st shm = on_in t.submits t.buffer t.packets st shm >>= λ p. capture ts p.0 p.1

-- How many whole frames the transfers bring, and how many packets they have.
unfoldable pub captured : ℕ → List Transfer → ℕ
captured frame_bytes [] = 0
captured frame_bytes (t ∷ ts) = frames_of frame_bytes t.packets + captured frame_bytes ts

unfoldable pub packets_in : List Transfer → ℕ
packets_in [] = 0
packets_in (t ∷ ts) = length t.packets + packets_in ts

-- The stream `h` has the frames of the transfers, one after the other, from frame `w` on.
abbrev pub DeliversAll : (channels in_pkt_len : ℕ) → (ℕ → ℕ → Steps) → ℕ → List Transfer → Type 0
DeliversAll channels in_pkt_len h w [] = Unit
DeliversAll channels in_pkt_len h w (t ∷ ts) =
    Delivers channels in_pkt_len t.buffer h 0 w t.packets
    × DeliversAll channels in_pkt_len h (w + frames_of (channels * 3) t.packets) ts

module _ {fp : Double} (h : ℕ → ℕ → Steps) where
  capture_lem :
      (st : StreamState fp)
      → IsCapture st
      → (ts : List Transfer) (shm : Shm Steps) → st.iso_errors + packets_in ts < u64_mod
      → st.unaligned_packets + packets_in ts < u64_mod
      → shm.write_frames + captured (st.channels * 3) ts < u64_mod
      → DeliversAll st.channels st.in_pkt_len h shm.write_frames ts
      → Holds st.channels h (shm.write_frames + 1 - ring_frames_count) shm.write_frames shm.ring
      → (st' : StreamState fp) × (shm' : Shm Steps) × (capture ts st shm ≡ some (st', shm'))
        × (shm'.write_frames ≡ shm.write_frames + captured (st.channels * 3) ts)
        × Holds st.channels h
            (shm'.write_frames + 1 - ring_frames_count)
            shm'.write_frames
            shm'.ring
        × SameHeader shm shm'
  unfolding capture captured packets_in resubmit
  capture_lem st set_up [] shm errors tails small delivers held =
      (st, shm, refl, omega arith, held, refl)
  capture_lem st set_up (t ∷ ts) shm errors tails small (now, later) held =
      let (shm1, ran1, more1, held1, same1) =
        on_in_lem st set_up t.buffer h shm t.submits t.packets (omega arith) (omega arith)
          (omega arith) now held in
      let (st2, shm2, ran2, more2, held2, same2) =
        capture_lem (resubmit t.submits (tallied t.packets st))
          (record {
            some_channel = set_up.some_channel;
            few_channels = set_up.few_channels;
            three_bytes = set_up.three_bytes;
            real = set_up.real;
          })
          ts shm1 (omega (arith, failed_of-le t.packets))
          (omega (arith, tails_of-le (st.channels * 3) t.packets)) (omega (arith, more1))
          (rw more1 later) held1 in
      (
        st2,
        shm2,
        rw ran1 ran2,
        more2 ∙ omega (arith, more1),
        held2,
        SameHeader-trans shm shm1 shm2 same1 same2,
      )

module _ {fp : Double} (h : ℕ → ℕ → Steps) (st : StreamState fp) (set_up : IsCapture st)
    (shm : Shm Steps) (same_device : shm.channels ≡ st.channels) {F : Type 0} (silence : Steps)
    (g : Globals F) (free : g.locked ≡ false) (there : g.attached ≡ true) where
  -- From the bytes on the wire to a client: after any transfers of a capture for the segment's
  -- device (counters below 2^64, packets within their buffers), DoIOOperation in a new IO cycle,
  -- with the mutex free, the segment attached, buffer and latency within the ring and more frames
  -- written than the read depth, returns `in_frames` consecutive frames of the stream that the
  -- transfers have carried, a window behind its last frame.
  pub capture_delivers :
      (ts : List Transfer) (in_frames cycle : ℕ)
      → st.iso_errors + packets_in ts < u64_mod
      → st.unaligned_packets + packets_in ts < u64_mod
      → DeliversAll st.channels st.in_pkt_len h shm.write_frames ts
      → Holds st.channels h (shm.write_frames + 1 - ring_frames_count) shm.write_frames shm.ring
      → 0 < in_frames
      → IsSized (shm.write_frames + captured (st.channels * 3) ts) in_frames shm.latency_frames
      → g.cursor.read_frame < u64_mod
      → cycle ≢ g.cursor.last_cycle
      → depth in_frames shm.latency_frames < shm.write_frames + captured (st.channels * 3) ts
      → (st' : StreamState fp) × (shm' : Shm Steps) × (f : ℕ) × (g' : Globals F) × (capture ts st
            shm
          ≡ some (st', shm'))
        × (do_io silence read_input true in_frames cycle shm' (λ i c. shm'.ring) g
            ≡ returned (segment st.channels h f in_frames, g'))
        × IsWindow (shm.write_frames + captured (st.channels * 3) ts) in_frames f
  capture_delivers ts in_frames cycle errors tails delivers held some_frame sized bound fresh
        started =
      let (st', shm', ran, more, held', same) =
        capture_lem h st set_up ts shm errors tails (omega (arith, sized.clock)) delivers held in
      let chans : shm'.channels ≡ st.channels =
        ap (λ (s : Shm Steps). s.channels) same ∙ same_device in
      let latency : shm'.latency_frames ≡ shm.latency_frames =
        ap (λ (s : Shm Steps). s.latency_frames) same in
      let ready : IsReady shm' g = record {
        free = free;
        attached = there;
        some_channel = rw chans set_up.some_channel;
        few_channels = rw chans set_up.few_channels;
      } in
      let (heard, win) =
        do_io_delivers silence shm' g ready h shm'.ring shm'.write_frames in_frames cycle
          (λ i c. shm'.ring) (rw chans held') (rw (more, latency) sized) bound fresh
          (rw (more, latency) started)
          (λ i c. (shm'.write_frames, 0, begin, omega arith, omega arith)) in
      (
        st',
        shm',
        position shm' cycle in_frames g,
        record g { cursor = next_cursor shm' cycle in_frames g },
        ran,
        heard
            ∙ ap
                (λ c. returned (
                  segment c h (position shm' cycle in_frames g) in_frames,
                  record g { cursor = next_cursor shm' cycle in_frames g },
                ))
                chans,
        rw (← more) win,
      )
