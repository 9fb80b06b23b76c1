-- ===== src/Daemon/Capture/Packets.antt =====
-- What one captured packet leaves in the segment (daemon/src/usb.rs, the loop body of on_in).
use native.Mathlib.Nat.{
  mod-add-div', mod-le, div-eq_of_eq-mul_left, div-eq_of_lt, mod-lt, mod-eq_of_lt,
}
use line6_coreaudio.Prelude.{
  ℕ, zero, suc, ◌+◌, ◌-◌, ◌*◌, ◌/◌, ◌%◌, ◌≤◌, ◌<◌, ◌≡◌, refl, ◌∙◌, ap, false, arith, dec_lt, List,
  [], ◌∷◌, some, u64_mod, length, take, drop,
}
use line6_coreaudio.Shm.{Shm, max_channels, ring_frames_count}
use line6_coreaudio.Stream.{Holds}
use line6_coreaudio.Daemon.Samples.{Steps}
use line6_coreaudio.Daemon.Writer.{◌>>=◌, push_frames, Carries, SameHeader, push_frames-Holds}
use line6_coreaudio.Daemon.Capture.{Double, StreamState, Packet, slice, tally, flag, take_packet}

length-drop : {A : Type 0} (n : ℕ) (xs : List A) → length (drop n xs) ≡ length xs - n
length-drop zero xs = omega arith
length-drop (suc n) [] = omega arith
length-drop (suc n) (x ∷ xs) = length-drop n xs ∙ omega arith

length-take_within : {A : Type 0} (n : ℕ) (xs : List A) → n ≤ length xs → length (take n xs) ≡ n
length-take_within zero xs h = refl
length-take_within (suc n) [] h = omega arith
length-take_within (suc n) (x ∷ xs) h = ap suc (length-take_within n xs (omega arith))

-- The whole frames of a packet, and their bytes.
abbrev pub whole_bytes : ℕ → Packet → ℕ
whole_bytes frame_bytes d = d.actual_length - d.actual_length % frame_bytes

abbrev pub payload : ℕ → ℕ → List ℕ → ℕ → Packet → List ℕ
payload frame_bytes in_pkt_len buffer i d =
    take (whole_bytes frame_bytes d) (drop (i * in_pkt_len) buffer)

whole_div : (a m : ℕ) → 0 < m → (a - a % m) / m ≡ a / m
whole_div a m some_m = div-eq_of_eq-mul_left some_m (omega (arith, mod-add-div' a m))

length-payload :
    (frame_bytes in_pkt_len i : ℕ) (buffer : List ℕ) (d : Packet)
    → i * in_pkt_len + d.actual_length ≤ length buffer
    → length (payload frame_bytes in_pkt_len buffer i d) ≡ whole_bytes frame_bytes d
length-payload frame_bytes in_pkt_len i buffer d within =
    length-take_within (whole_bytes frame_bytes d) (drop (i * in_pkt_len) buffer)
      (omega (arith, mod-le d.actual_length frame_bytes, length-drop (i * in_pkt_len) buffer))

-- A capture that StreamState::new has set up for a device with one to eight channels.
pub record IsCapture {fp : Double} (st : StreamState fp) : Type 0 where
  pub some_channel : 0 < st.channels
  pub few_channels : st.channels ≤ max_channels
  pub three_bytes : st.frame_bytes ≡ st.channels * 3
  pub real : st.sine ≡ false

module _ {fp : Double} (st : StreamState fp) (set_up : IsCapture st) (buffer : List ℕ)
    (shm : Shm Steps) (h : ℕ → ℕ → Steps) where
  abbrev pub frames_in : Packet → ℕ
  frames_in d = d.actual_length / (st.channels * 3)

  some_byte : 0 < st.frame_bytes
  some_byte = rw (set_up.three_bytes) (omega (arith, set_up.some_channel))

  take_packet-push :
      (i : ℕ) (d : Packet)
      → i * st.in_pkt_len + d.actual_length ≤ length buffer
      → st.frame_bytes ≤ d.actual_length
      → take_packet buffer i d st shm ≡ (
          push_frames st.channels (payload st.frame_bytes st.in_pkt_len buffer i d) shm >>= λ shm'.
          some (flag d (tally d st), shm'))
  unfolding take_packet slice tally flag
  take_packet-push i d within full =
      let rest : d.actual_length % st.frame_bytes < st.frame_bytes = mod-lt _ some_byte in
      ground (arith, set_up.real, rest, some_byte)

  take_packet-skip :
      (i : ℕ) (d : Packet)
      → d.actual_length < st.frame_bytes
      → take_packet buffer i d st shm ≡ some (flag d (tally d st), shm)
  unfolding take_packet slice tally flag
  take_packet-skip i d short =
      let rest : d.actual_length % st.frame_bytes ≡ d.actual_length = mod-eq_of_lt short in
      ground (arith, rest, some_byte)

  -- One packet: its whole frames reach the ring, and the tail is dropped.
  pub packet_lem :
      (i : ℕ) (d : Packet)
      → i * st.in_pkt_len + d.actual_length ≤ length buffer
      → shm.write_frames + frames_in d < u64_mod
      → Carries st.channels (payload (st.channels * 3) st.in_pkt_len buffer i d) h shm.write_frames
      → Holds st.channels h (shm.write_frames + 1 - ring_frames_count) shm.write_frames shm.ring
      → (shm' : Shm Steps) × (take_packet buffer i d st shm ≡ some (flag d (tally d st), shm'))
        × (shm'.write_frames ≡ shm.write_frames + frames_in d)
        × Holds st.channels h
            (shm'.write_frames + 1 - ring_frames_count)
            shm'.write_frames
            shm'.ring
        × SameHeader shm shm'
  packet_lem i d within small carries held = elim (dec_lt d.actual_length st.frame_bytes) [
    | yes short ↦
        let none_whole : frames_in d ≡ 0 = div-eq_of_lt (rw (← set_up.three_bytes) short) in
        (shm, take_packet-skip i d short, rw none_whole (omega arith), held, refl)
    | no full ↦
        let count : length (payload st.frame_bytes st.in_pkt_len buffer i d) / (st.channels * 3)
            ≡ frames_in d =
          ap (λ n. n / (st.channels * 3))
            (length-payload st.frame_bytes st.in_pkt_len i buffer d within
              ∙ ap (λ m. d.actual_length - d.actual_length % m) set_up.three_bytes)
          ∙ whole_div d.actual_length (st.channels * 3) (omega (arith, set_up.some_channel)) in
        let (shm', ran, more, held', same) =
          push_frames-Holds st.channels (payload st.frame_bytes st.in_pkt_len buffer i d) shm h
            set_up.some_channel set_up.few_channels (rw count small) (rw set_up.three_bytes carries)
            held in
        (
          shm',
          take_packet-push i d within (omega arith) ∙ rw ran,
          more ∙ ap (λ n. shm.write_frames + n) count,
          held',
          same,
        )
  ]
