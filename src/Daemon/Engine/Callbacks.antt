-- ===== src/Daemon/Engine/Callbacks.antt =====
-- daemon/src/usb.rs: the callbacks that run inside handle_events, against libusb's protocol.
use line6_coreaudio.Prelude.{
  ℕ, ◌≡◌, ◌<◌, refl, ◌∙◌, Bool, Bool-cases, true, arith, List, [], ◌∷◌, ◌++◌, some, ltb, dec_lt,
  inl, inr,
}
use line6_coreaudio.Shm.{Shm}
use line6_coreaudio.Daemon.Samples.{Steps}
use line6_coreaudio.Daemon.Writer.{SameHeader, SameHeader-trans}
use line6_coreaudio.Daemon.Capture.{Double, StreamState, resubmit, on_out}
use line6_coreaudio.Daemon.Capture.Total.{IsSetUp, SameStream, AreWithin, on_in_returns}
use line6_coreaudio.Daemon.Engine.{
  Call, Engine, Completion, iso_buffers, call_back, calls_of, call_backs,
}
use line6_coreaudio.Daemon.Engine.Protocol.{Held, follow, follow-append, count_from, count_from-le}
use line6_coreaudio.Daemon.Engine.Streaming.{IsStreaming, transfer_count}
use line6_coreaudio.Daemon.Engine.Active.{
  after, after_all, AreLegit, after-count, after-outside, calls_of-follow,
}

module _ {fp : Double} where
  resubmit-in_flight :
      (c : Completion) (st st1 : StreamState fp) (f : ℕ → Bool)
      → SameStream st st1
      → st.in_flight ≡ count_from f 0 transfer_count
      → c.id < transfer_count
      → f c.id ≡ true
      → (resubmit c.submits st1).in_flight ≡ count_from (after st.running c f) 0 transfer_count
  unfolding resubmit
  resubmit-in_flight c st st1 f same flight low busy = ground (
    arith,
    same.running,
    same.in_flight,
    after-count st.running c f low busy,
    count_from-le f 0 transfer_count,
  )

  resubmit-IsSetUp :
      (b : Bool) (st st1 : StreamState fp)
      → SameStream st st1
      → IsSetUp st
      → IsSetUp (resubmit b st1)
  unfolding resubmit
  resubmit-IsSetUp b st st1 same set_up = record {
    some_channel = omega (arith, same.channels, set_up.some_channel);
    few_channels = omega (arith, same.channels, set_up.few_channels);
    three_bytes = omega (arith, same.channels, same.frame_bytes, set_up.three_bytes);
  }

  -- The stream after some callbacks, what libusb then holds, and the calls on the way.
  pub record Handled (eng : Engine) (st st' : StreamState fp) (shm shm' : Shm Steps) (h : Held)
      (calls : List Call) : Type 0 where
    pub held : Held
    pub allowed : follow calls h ≡ some held
    pub streaming : IsStreaming eng st' held
    pub set_up : IsSetUp st'
    pub running : st'.running ≡ st.running
    pub in_pkt_len : st'.in_pkt_len ≡ st.in_pkt_len
    pub channels : st'.channels ≡ st.channels
    pub header : SameHeader shm shm'

  module _ (eng : Engine) where
    -- One of the two callbacks: the stream's state up to the resubmission.
    callback-SameStream :
        (c : Completion) (st : StreamState fp) (shm : Shm Steps)
        → IsSetUp st
        → AreWithin st.in_pkt_len c.buffer 0 c.packets
        → (st1 : StreamState fp) × (shm' : Shm Steps) × (call_back c st shm
            ≡ some (resubmit c.submits st1, shm'))
          × SameStream st st1
          × SameHeader shm shm'
    unfolding call_back on_out
    callback-SameStream c st shm set_up within = elim (Bool-cases (ltb c.id iso_buffers)) [
      | inl capture ↦
          let (st1, shm', ran, same, head) =
            on_in_returns c.buffer c.submits c.packets st shm set_up within in
          (st1, shm', rw capture ran, same, head)
      | inr playback ↦ (
        st,
        shm,
        rw playback refl,
        record {
          running = refl;
          in_flight = refl;
          channels = refl;
          frame_bytes = refl;
          in_pkt_len = refl;
          sine = refl;
        },
        refl,
      )
    ]

    below_count :
        (st : StreamState fp) (h : Held)
        → IsStreaming eng st h
        → (t : ℕ) → h.active t ≡ true
        → t < transfer_count
    below_count st h s t busy = elim (dec_lt t transfer_count) [
      | yes low ↦ low
      | no high ↦ cc (busy, (s.no_other t (omega arith)).1)
    ]

    call_back-Handled :
        (c : Completion) (st : StreamState fp) (shm : Shm Steps) (h : Held)
        → IsStreaming eng st h
        → IsSetUp st
        → h.active c.id ≡ true
        → AreWithin st.in_pkt_len c.buffer 0 c.packets
        → (st' : StreamState fp) × (shm' : Shm Steps) × (call_back c st shm ≡ some (st', shm'))
          × (hd : Handled eng st st' shm shm' h (calls_of c st)) × (hd.held.active
              ≡ after st.running c h.active)
    unfolding resubmit
    call_back-Handled c st shm h s set_up busy within =
        let (st1, shm', ran, same, head) = callback-SameStream c st shm set_up within in
        let low : c.id < transfer_count = below_count st h s c.id busy in
        (
          resubmit c.submits st1,
          shm',
          ran,
          record {
            held = record h { active = after st.running c h.active };
            allowed = calls_of-follow st.running c h s.handle (s.allocated c.id low) busy;
            streaming = record {
              context = s.context;
              handle = s.handle;
              claimed = s.claimed;
              from = s.from;
              all = s.all;
              allocated = s.allocated;
              no_other = λ t high. (
                (s.no_other t high).0,
                after-outside st.running c h.active t (omega arith) ∙ (s.no_other t high).1,
              );
              flight = resubmit-in_flight c st st1 h.active same s.flight low busy;
            };
            set_up = resubmit-IsSetUp c.submits st st1 same set_up;
            running = same.running;
            in_pkt_len = same.in_pkt_len;
            channels = same.channels;
            header = head;
          },
          refl,
        )

    -- No callback.
    pub same-Handled :
        (st : StreamState fp) (shm : Shm Steps) (h : Held)
        → IsStreaming eng st h
        → IsSetUp st
        → Handled eng st st shm shm h []
    unfolding follow
    same-Handled st shm h s set_up = record {
      held = h;
      allowed = refl;
      streaming = s;
      set_up = set_up;
      running = refl;
      in_pkt_len = refl;
      channels = refl;
      header = refl;
    }

    -- The calls of callbacks, then those of others.
    pub Handled-trans :
        {st st1 st2 : StreamState fp} {shm shm1 shm2 : Shm Steps} {h : Held} {cs ds : List Call}
        (one : Handled eng st st1 shm shm1 h cs)
        → Handled eng st1 st2 shm1 shm2 one.held ds
        → Handled eng st st2 shm shm2 h (cs ++ ds)
    Handled-trans {shm = shm} {shm1 = shm1} {shm2 = shm2} {h = h} {cs = cs} {ds = ds} one rest =
        record {
          held = rest.held;
          allowed = follow-append cs ds h one.held one.allowed ∙ rest.allowed;
          streaming = rest.streaming;
          set_up = rest.set_up;
          running = rest.running ∙ one.running;
          in_pkt_len = rest.in_pkt_len ∙ one.in_pkt_len;
          channels = rest.channels ∙ one.channels;
          header = SameHeader-trans shm shm1 shm2 one.header rest.header;
        }

    pub call_backs-Handled :
        (cs : List Completion) (st : StreamState fp) (shm : Shm Steps) (h : Held)
        → IsStreaming eng st h
        → IsSetUp st
        → AreLegit st.running st.in_pkt_len h.active cs
        → (st' : StreamState fp) × (shm' : Shm Steps) × (calls : List Call) × (call_backs cs st shm
            ≡ some (st', shm', calls))
          × (hd : Handled eng st st' shm shm' h calls) × (hd.held.active
              ≡ after_all st.running cs h.active)
    unfolding call_backs same-Handled Handled-trans
    call_backs-Handled [] st shm h s set_up legit =
        (st, shm, [], refl, same-Handled st shm h s set_up, refl)
    call_backs-Handled (c ∷ cs) st shm h s set_up (busy, within, later) =
        let (st1, shm1, ran1, one, act) = call_back-Handled c st shm h s set_up busy within in
        let (st2, shm2, calls, ran2, rest, act2) =
          call_backs-Handled cs st1 shm1 one.held one.streaming one.set_up
            (rw (one.running, one.in_pkt_len, act) later) in
        (
          st2,
          shm2,
          calls_of c st ++ calls,
          rw (ran1, ran2) refl,
          Handled-trans one rest,
          act2 ∙ rw (one.running, act) refl,
        )
