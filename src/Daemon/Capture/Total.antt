-- ===== src/Daemon/Capture/Total.antt =====
-- daemon/src/usb.rs, on_in: the callback comes back whatever the device sends, also with the test
-- tone, failed packets and counters that wrap.
use native.Mathlib.Nat.{div-mul-le_self}
use line6_coreaudio.Prelude.{
  ℕ, zero, suc, ◌+◌, ◌-◌, ◌*◌, ◌/◌, ◌%◌, ◌≤◌, ◌<◌, ◌≡◌, ◌≢◌, refl, ◌∙◌, Bool, Bool-cases, inl, inr,
  arith, ℕ_discrete, List, [], ◌∷◌, some, u64_mod, length, take, drop, get_elem?-eq-get_or,
}
use line6_coreaudio.Shm.{Shm, slot, store, max_channels}
use line6_coreaudio.Daemon.Samples.{Steps}
use line6_coreaudio.Daemon.Writer.{
  sample_at, decoded, SameHeader, SameHeader-trans, push_channels, push_loop, push_frames,
  store_in-slot,
}
use line6_coreaudio.Daemon.Capture.{
  Double, StreamState, Packet, slice, tally, flag, tone, next_phase, sine_channels, sine_loop,
  push_sine, take_packet, take_packets, resubmit, on_in,
}

sample_at-some :
    (s24 : List ℕ) (o : ℕ) → o + 2 < length s24 → (v : Steps) × (sample_at s24 o ≡ some v)
unfolding sample_at
sample_at-some s24 o within = (
  decoded s24 o,
  rw (
    get_elem?-eq-get_or s24 o 0 (omega arith),
    get_elem?-eq-get_or s24 (o + 1) 0 (omega arith),
    get_elem?-eq-get_or s24 (o + 2) 0 within,
  ),
)

module _ (s24 : List ℕ) (channels : ℕ) (few : channels ≤ max_channels) where
  push_channels-some :
      (w base ch left : ℕ) (ring : ℕ → Steps)
      → base + (ch + left) * 3 ≤ length s24
      → ch + left ≡ channels
      → (ring' : ℕ → Steps) × (push_channels s24 channels w base ch left ring ≡ some ring')
  unfolding push_channels
  push_channels-some w base ch zero ring within whole = (ring, refl)
  push_channels-some w base ch (suc left) ring within whole =
      let (v, read) = sample_at-some s24 (base + ch * 3) (omega arith) in
      let (ring', ran) =
        push_channels-some w base (ch + 1) left (store ring (slot channels w ch) v) (omega arith)
          (omega arith) in
      (ring', rw (read, store_in-slot ring channels w ch v few (omega arith)) ran)

  push_loop-some :
      (f left w : ℕ) (ring : ℕ → Steps)
      → (f + left) * (channels * 3) ≤ length s24
      → (p : (ℕ → Steps) × ℕ) × (push_loop s24 channels f left w ring ≡ some p)
  unfolding push_loop
  push_loop-some f zero w ring within = (_, refl)
  push_loop-some f (suc left) w ring within =
      let (ring1, ran1) =
        push_channels-some w (f * (channels * 3)) 0 channels ring (grind arith) (omega arith) in
      let (p, ran2) = push_loop-some (f + 1) left ((w + 1) % u64_mod) ring1 (grind arith) in
      (p, rw ran1 ran2)

  push_frames-some :
      (shm : Shm Steps)
      → 0 < channels
      → (shm' : Shm Steps) × (push_frames channels s24 shm ≡ some shm') × SameHeader shm shm'
  unfolding push_frames
  push_frames-some shm some_channel =
      let frames : ℕ = length s24 / (channels * 3) in
      let (p, ran) = push_loop-some 0 frames shm.write_frames shm.ring (
        let e : 0 + frames ≡ frames = omega arith in
        rw e (div-mul-le_self (length s24) (channels * 3))) in
      elim (ℕ_discrete frames 0) [
        | yes none_whole ↦ (shm, ground arith, refl)
        | no some_whole ↦ (record shm { ring = p.0; write_frames = p.1 }, ground (arith, ran), refl)
      ]

-- A stream as StreamState::new sets it up: one to eight channels, three bytes a sample.
pub record IsSetUp {fp : Double} (st : StreamState fp) : Type 0 where
  pub some_channel : 0 < st.channels
  pub few_channels : st.channels ≤ max_channels
  pub three_bytes : st.frame_bytes ≡ st.channels * 3

-- Two states of a stream that differ in the counters of faults and the phase only.
pub record SameStream {fp : Double} (st st' : StreamState fp) : Type 0 where
  pub running : st'.running ≡ st.running
  pub in_flight : st'.in_flight ≡ st.in_flight
  pub channels : st'.channels ≡ st.channels
  pub frame_bytes : st'.frame_bytes ≡ st.frame_bytes
  pub in_pkt_len : st'.in_pkt_len ≡ st.in_pkt_len
  pub sine : st'.sine ≡ st.sine

-- The packets from `i` on lie within the buffer.
abbrev pub AreWithin : ℕ → List ℕ → ℕ → List Packet → Type 0
AreWithin in_pkt_len buffer i [] = Unit {0}
AreWithin in_pkt_len buffer i (d ∷ ds) =
    (i * in_pkt_len + d.actual_length ≤ length buffer) × AreWithin in_pkt_len buffer (i + 1) ds

slice-some :
    (buffer : List ℕ) (at whole : ℕ)
    → at + whole ≤ length buffer
    → slice buffer at whole ≡ some (take whole (drop at buffer))
unfolding slice
slice-some buffer at whole within = ground arith

module _ {fp : Double} where
  tally-SameStream : (d : Packet) (st : StreamState fp) → SameStream st (tally d st)
  unfolding tally
  tally-SameStream d st = record {
    running = refl;
    in_flight = refl;
    channels = refl;
    frame_bytes = refl;
    in_pkt_len = refl;
    sine = refl;
  }

  flag-SameStream :
      (d : Packet) (st : StreamState fp) (phase : fp.Carrier)
      → SameStream st (record (flag d (tally d st)) { sine_phase = phase })
  unfolding flag tally
  flag-SameStream d st phase = record {
    running = refl;
    in_flight = refl;
    channels = refl;
    frame_bytes = refl;
    in_pkt_len = refl;
    sine = refl;
  }

  SameStream-trans : (a b c : StreamState fp) → SameStream a b → SameStream b c → SameStream a c
  SameStream-trans a b c ab bc = record {
    running = bc.running ∙ ab.running;
    in_flight = bc.in_flight ∙ ab.in_flight;
    channels = bc.channels ∙ ab.channels;
    frame_bytes = bc.frame_bytes ∙ ab.frame_bytes;
    in_pkt_len = bc.in_pkt_len ∙ ab.in_pkt_len;
    sine = bc.sine ∙ ab.sine;
  }

  SameStream-IsSetUp : (a b : StreamState fp) → SameStream a b → IsSetUp a → IsSetUp b
  SameStream-IsSetUp a b same set_up = record {
    some_channel = omega (arith, same.channels, set_up.some_channel);
    few_channels = omega (arith, same.channels, set_up.few_channels);
    three_bytes = omega (arith, same.channels, same.frame_bytes, set_up.three_bytes);
  }

module _ (fp : Double) (channels : ℕ) (few : channels ≤ max_channels) where
  sine_channels-some :
      (v : Steps) (w ch left : ℕ) (ring : ℕ → Steps)
      → ch + left ≡ channels
      → (ring' : ℕ → Steps) × (sine_channels fp v channels w ch left ring ≡ some ring')
  unfolding sine_channels
  sine_channels-some v w ch zero ring whole = (ring, refl)
  sine_channels-some v w ch (suc left) ring whole =
      let (ring', ran) =
        sine_channels-some v w (ch + 1) left (store ring (slot channels w ch) v) (omega arith) in
      (ring', rw (store_in-slot ring channels w ch v few (omega arith)) ran)

  sine_loop-some :
      (left w : ℕ) (ring : ℕ → Steps) (phase : fp.Carrier)
      → (p : (ℕ → Steps) × ℕ × fp.Carrier) × (sine_loop fp channels left w ring phase ≡ some p)
  unfolding sine_loop
  sine_loop-some zero w ring phase = (_, refl)
  sine_loop-some (suc left) w ring phase =
      let (ring1, ran1) = sine_channels-some (tone fp phase) w 0 channels ring (omega arith) in
      let (p, ran2) = sine_loop-some left ((w + 1) % u64_mod) ring1 (next_phase fp phase) in
      (p, rw ran1 ran2)

  push_sine-some :
      (frames : ℕ) (shm : Shm Steps) (phase : fp.Carrier)
      → (shm' : Shm Steps) × (after : fp.Carrier) × (push_sine fp channels frames shm phase
          ≡ some (shm', after))
        × SameHeader shm shm'
  unfolding push_sine
  push_sine-some frames shm phase =
      let (p, ran) = sine_loop-some frames shm.write_frames shm.ring phase in
      (record shm { ring = p.0; write_frames = p.1 }, p.2, rw ran refl, refl)

module _ {fp : Double} (buffer : List ℕ) where
  take_packet-some :
      (i : ℕ) (d : Packet) (st : StreamState fp) (shm : Shm Steps)
      → IsSetUp st
      → i * st.in_pkt_len + d.actual_length ≤ length buffer
      → (st' : StreamState fp) × (shm' : Shm Steps) × (take_packet buffer i d st shm
          ≡ some (st', shm'))
        × SameStream st st'
        × SameHeader shm shm'
  unfolding take_packet flag tally
  take_packet-some i d st shm set_up within =
      let three : st.frame_bytes ≢ 0 =
        λ e. omega (arith, set_up.three_bytes, set_up.some_channel) in
      let whole : ℕ = d.actual_length - d.actual_length % st.frame_bytes in
      let bytes : List ℕ = take whole (drop (i * st.in_pkt_len) buffer) in
      let cut : slice buffer (i * st.in_pkt_len) whole ≡ some bytes =
        slice-some buffer (i * st.in_pkt_len) whole (omega arith) in
      let (shm1, pushed, same) =
        push_frames-some bytes st.channels set_up.few_channels shm set_up.some_channel in
      elim (ℕ_discrete d.actual_length 0) [
        | yes empty ↦ (tally d st, shm, ground arith, tally-SameStream d st, refl)
        | no some_byte ↦ elim (ℕ_discrete whole 0) [
          | yes none_whole ↦
              (flag d (tally d st), shm, ground arith, flag-SameStream d st st.sine_phase, refl)
          | no some_whole ↦ elim (Bool-cases st.sine) [
            | inl tone ↦
                let (shm2, after, sung, same2) =
                  push_sine-some fp st.channels set_up.few_channels (whole / st.frame_bytes) shm
                    st.sine_phase in
                (
                  record (flag d (tally d st)) { sine_phase = after },
                  shm2,
                  ground (arith, cut, sung),
                  flag-SameStream d st after,
                  same2,
                )
            | inr real ↦ (
              flag d (tally d st),
              shm1,
              ground (arith, cut, pushed),
              flag-SameStream d st st.sine_phase,
              same,
            )
          ]
        ]
      ]

  take_packets-some :
      (i : ℕ) (ds : List Packet) (st : StreamState fp) (shm : Shm Steps)
      → IsSetUp st
      → AreWithin st.in_pkt_len buffer i ds
      → (st' : StreamState fp) × (shm' : Shm Steps) × (take_packets buffer i ds st shm
          ≡ some (st', shm'))
        × SameStream st st'
        × SameHeader shm shm'
  unfolding take_packets
  take_packets-some i [] st shm set_up within = (
    st,
    shm,
    refl,
    record {
      running = refl;
      in_flight = refl;
      channels = refl;
      frame_bytes = refl;
      in_pkt_len = refl;
      sine = refl;
    },
    refl,
  )
  take_packets-some i (d ∷ ds) st shm set_up (now, later) =
      let (st1, shm1, ran1, same1, head1) = take_packet-some i d st shm set_up now in
      let (st2, shm2, ran2, same2, head2) =
        take_packets-some (i + 1) ds st1 shm1 (SameStream-IsSetUp st st1 same1 set_up)
          (rw (same1.in_pkt_len) later) in
      (
        st2,
        shm2,
        rw ran1 ran2,
        SameStream-trans st st1 st2 same1 same2,
        SameHeader-trans shm shm1 shm2 head1 head2,
      )

  -- Whatever the statuses, lengths and bytes of a transfer whose packets lie within its buffer, for
  -- a device with one to eight channels and three bytes a sample, with the test tone or without and
  -- from any counters, on_in comes back, without a panic, a read outside the buffer or a store outside
  -- the ring array; it keeps the header, and changes no more of the stream's state than the
  -- counters of faults, the phase of the tone and, as the resubmission says, the count in flight.
  pub on_in_returns :
      (submits : Bool) (ds : List Packet) (st : StreamState fp) (shm : Shm Steps)
      → IsSetUp st
      → AreWithin st.in_pkt_len buffer 0 ds
      → (st' : StreamState fp) × (shm' : Shm Steps) × (on_in submits buffer ds st shm
          ≡ some (resubmit submits st', shm'))
        × SameStream st st'
        × SameHeader shm shm'
  unfolding on_in
  on_in_returns submits ds st shm set_up within =
      let (st', shm', ran, same, head) = take_packets-some 0 ds st shm set_up within in
      (st', shm', rw ran refl, same, head)
