-- ===== src/Daemon/Engine/Stop.antt =====
-- daemon/src/usb.rs, stop: the loop that waits for the cancelled transfers ends, and what libusb is
-- left with.
use line6_coreaudio.Prelude.{
  ℕ, ◌≡◌, ◌≤◌, ◌<◌, refl, sym, ◌∙◌, Bool, Bool-cases, true, false, arith, List, [], ◌∷◌, ◌++◌, some,
  none, dec_lt, inl, inr, ◌⊎◌,
}
use line6_coreaudio.Shm.{Shm}
use line6_coreaudio.Daemon.Samples.{Steps}
use line6_coreaudio.Daemon.Writer.{SameHeader}
use line6_coreaudio.Daemon.Capture.{Double, StreamState}
use line6_coreaudio.Daemon.Capture.Total.{IsSetUp}
use line6_coreaudio.Daemon.Engine.{
  still_waits, Call, Engine, Round, done, handle_events_timeout, cancel_all, free_all, let_go,
  drain, stop,
}
use line6_coreaudio.Daemon.Engine.Protocol.{
  Held, allow, follow, follow-append, follow-refused, IsIdle, count_from-pos, count_from-zero,
}
use line6_coreaudio.Daemon.Engine.Loops.{
  free_all-follow, free_all-refused, cancel_all-follow, let_go-follow,
}
use line6_coreaudio.Daemon.Engine.Streaming.{IsStreaming, transfer_count}
use line6_coreaudio.Daemon.Engine.Active.{AreLegit, after_all}
use line6_coreaudio.Daemon.Engine.Callbacks.{
  Handled, same-Handled, Handled-trans, call_backs-Handled,
}

-- Two seconds, in nanoseconds.
abbrev pub deadline : ℕ
deadline = 2000000000

-- The clock reaches the deadline in one of the rounds.
abbrev pub Expires : List Round → Type 0
Expires [] = ⊥
Expires (r ∷ rs) = (deadline ≤ r.elapsed) ⊎ Expires rs

-- While the transfers are cancelled, libusb calls back active ones only.
abbrev pub AreLegitRounds : ℕ → (ℕ → Bool) → List Round → Type 0
AreLegitRounds in_pkt_len f [] = Unit {0}
AreLegitRounds in_pkt_len f (r ∷ rs) =
    AreLegit false in_pkt_len f r.completions
    × AreLegitRounds in_pkt_len (after_all false r.completions f) rs

before_deadline :
    (r : Round) (rs : List Round) (in_flight : ℕ)
    → still_waits in_flight r.elapsed ≡ true
    → Expires (r ∷ rs)
    → Expires rs
before_deadline r rs in_flight on (inl late) = absurd (ground arith)
before_deadline r rs in_flight on (inr later) = later

-- The end of stop: the transfers are freed and the device is let go.
abbrev pub leaving : Engine → List Call
leaving eng = free_all eng.transfers ++ let_go eng.interface

module _ {fp : Double} (eng : Engine) where
  unfoldable pub polled-Handled :
      {st st' : StreamState fp} {shm shm' : Shm Steps} {h : Held} {calls : List Call}
      → Handled eng st st' shm shm' h calls
      → h.context ≡ true
      → Handled eng st st' shm shm' h (handle_events_timeout ∷ calls)
  unfolding follow allow
  polled-Handled hd context = record {
    held = hd.held;
    allowed = simp context hd.allowed;
    streaming = hd.streaming;
    set_up = hd.set_up;
    running = hd.running;
    in_pkt_len = hd.in_pkt_len;
    channels = hd.channels;
    header = hd.header;
  }

  drain-Handled :
      (rs : List Round) (st : StreamState fp) (shm : Shm Steps) (h : Held)
      → IsStreaming eng st h
      → IsSetUp st
      → st.running ≡ false
      → Expires rs
      → AreLegitRounds st.in_pkt_len h.active rs
      → (st' : StreamState fp) × (shm' : Shm Steps) × (calls : List Call) × (drain rs st shm
          ≡ done (st', shm', calls))
        × Handled eng st st' shm shm' h calls
  unfolding drain
  drain-Handled [] st shm h s set_up stopped expires legit = absurd expires
  drain-Handled (r ∷ rs) st shm h s set_up stopped expires (now, later) =
      elim (Bool-cases (still_waits st.in_flight r.elapsed)) [
        | inr over ↦ (st, shm, [], rw over refl, same-Handled eng st shm h s set_up)
        | inl on ↦
            let (st1, shm1, calls1, ran1, one, act) =
              call_backs-Handled eng r.completions st shm h s set_up (rw stopped now) in
            let (st2, shm2, calls2, ran2, rest) =
              drain-Handled rs st1 shm1 one.held one.streaming one.set_up (one.running ∙ stopped)
                (before_deadline r rs st.in_flight on expires)
                (rw (one.in_pkt_len, act, stopped) later) in
            (
              st2,
              shm2,
              handle_events_timeout ∷ (calls1 ++ calls2),
              rw (on, ran1, ran2) refl,
              polled-Handled (Handled-trans eng one rest) s.context,
            )
      ]

  pub quiet-leaving :
      (st : StreamState fp) (h : Held)
      → IsStreaming eng st h
      → st.in_flight ≡ 0
      → (h' : Held) × (follow (leaving eng) h ≡ some h') × IsIdle h'
  quiet-leaving st h s quiet =
      let silent : (t : ℕ) → 0 ≤ t → t < transfer_count → h.active t ≡ false =
        count_from-zero h.active 0 transfer_count (sym s.flight ∙ quiet) in
      let (a, freed, left) =
        free_all-follow eng.transfers 0 h s.from
          (λ t low high. s.allocated t (omega (arith, s.all)))
          (λ t low high. silent t low (omega (arith, s.all))) in
      let h1 : Held = record h { allocated = a } in
      (
        record h1 { context = false; handle = false; claimed = false },
        follow-append (free_all eng.transfers) (let_go eng.interface) h h1 freed
            ∙ let_go-follow eng.interface h1 s.context s.handle s.claimed,
        record {
          context = refl;
          handle = refl;
          claimed = refl;
          allocated = λ t. elim (dec_lt t transfer_count) [
            | yes low ↦ left.inside t (omega arith) (omega (arith, s.all))
            | no high ↦ left.above t (omega (arith, s.all)) ∙ (s.no_other t (omega arith)).0
          ];
          active = λ t. elim (dec_lt t transfer_count) [
            | yes low ↦ silent t (omega arith) low
            | no high ↦ (s.no_other t (omega arith)).1
          ];
        },
      )

  busy-leaving :
      (st : StreamState fp) (h : Held)
      → IsStreaming eng st h
      → 0 < st.in_flight
      → follow (leaving eng) h ≡ none
  busy-leaving st h s busy =
      let (t, low, on) = count_from-pos h.active 0 transfer_count (omega (arith, s.flight)) in
      follow-refused (free_all eng.transfers) (let_go eng.interface) h
        (free_all-refused eng.transfers 0 h s.from t (omega arith) (omega (arith, s.all)) on)

  -- What stop does first: the stream stops submitting, and the transfers are cancelled.
  pub halted-IsStreaming :
      (st : StreamState fp) (h : Held)
      → IsStreaming eng st h
      → IsStreaming eng (record st { running = false }) h
  halted-IsStreaming st h s = record {
    context = s.context;
    handle = s.handle;
    claimed = s.claimed;
    from = s.from;
    all = s.all;
    allocated = s.allocated;
    no_other = s.no_other;
    flight = s.flight;
  }

  pub until_leaving :
      (st : StreamState fp) (h : Held)
      → IsStreaming eng st h
      → (calls : List Call) (held : Held) → follow calls h ≡ some held
      → (ds : List Call) → follow (cancel_all eng.transfers ++ (calls ++ ds)) h ≡ follow ds held
  until_leaving st h s calls held allowed ds =
      follow-append (cancel_all eng.transfers) (calls ++ ds) h h (
        cancel_all-follow eng.transfers 0 h s.from
          (λ t low high. s.allocated t (omega (arith, s.all))))
      ∙ follow-append calls ds h held allowed

pub halted-IsSetUp :
    {fp : Double} (st : StreamState fp) → IsSetUp st → IsSetUp (record st { running = false })
halted-IsSetUp st set_up = record {
  some_channel = set_up.some_channel;
  few_channels = set_up.few_channels;
  three_bytes = set_up.three_bytes;
}

module _ {fp : Double} (eng : Engine) (rs : List Round) (st : StreamState fp) (shm : Shm Steps)
    (h : Held) (s : IsStreaming eng st h) (set_up : IsSetUp st) (expires : Expires rs)
    (legit : AreLegitRounds st.in_pkt_len h.active rs) where
  pub stop_ends :
      (st' : StreamState fp) × (shm' : Shm Steps) × (calls : List Call) × (stop rs eng st shm
        ≡ done (st', shm', calls))
      × (st'.in_flight ≡ 0 → (h' : Held) × (follow calls h ≡ some h') × IsIdle h')
      × (0 < st'.in_flight → follow calls h ≡ none)
      × SameHeader shm shm'
  unfolding stop
  stop_ends =
      let (st', shm', calls, ran, hd) =
        drain-Handled eng rs (record st { running = false }) shm h (halted-IsStreaming eng st h s)
          (halted-IsSetUp st set_up) refl expires legit in
      (
        st',
        shm',
        cancel_all eng.transfers ++ (calls ++ leaving eng),
        rw ran refl,
        λ quiet.
            let (h', left, idle) = quiet-leaving eng st' hd.held hd.streaming quiet in
            (h', until_leaving eng st h s calls hd.held hd.allowed (leaving eng) ∙ left, idle),
        λ busy.
            until_leaving eng st h s calls hd.held hd.allowed (leaving eng)
            ∙ busy-leaving eng st' hd.held hd.streaming busy,
        hd.header,
      )
