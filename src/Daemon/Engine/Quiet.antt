-- ===== src/Daemon/Engine/Quiet.antt =====
-- daemon/src/usb.rs, stop, where libusb gives the cancelled transfers back in time.
use line6_coreaudio.Prelude.{
  ℕ, ◌≡◌, ◌<◌, refl, ◌∙◌, true, false, arith, List, [], ◌∷◌, ◌++◌, some, inl, inr, ◌⊎◌, ◌≢◌,
  ℕ_discrete, Bool,
}
use line6_coreaudio.Shm.{Shm}
use line6_coreaudio.Daemon.Samples.{Steps}
use line6_coreaudio.Daemon.Writer.{SameHeader}
use line6_coreaudio.Daemon.Capture.{Double, StreamState}
use line6_coreaudio.Daemon.Capture.Total.{IsSetUp}
use line6_coreaudio.Daemon.Engine.{
  Call, Engine, Round, done, still_waits, drain, stop, cancel_all, handle_events_timeout,
}
use line6_coreaudio.Daemon.Engine.Protocol.{Held, follow, IsIdle, count_from, count_from-le}
use line6_coreaudio.Daemon.Engine.Streaming.{IsStreaming, transfer_count}
use line6_coreaudio.Daemon.Engine.Active.{after_all}
use line6_coreaudio.Daemon.Engine.Callbacks.{
  Handled, same-Handled, Handled-trans, call_backs-Handled,
}
use line6_coreaudio.Daemon.Engine.Stop.{
  deadline, AreLegitRounds, polled-Handled, leaving, quiet-leaving, halted-IsStreaming,
  halted-IsSetUp, until_leaving,
}

-- libusb gives back all active transfers before the deadline.
abbrev pub Quiesces : (ℕ → Bool) → List Round → Type 0
Quiesces f [] = ⊥
Quiesces f (r ∷ rs) =
    (count_from f 0 transfer_count ≡ 0)
    ⊎ ((r.elapsed < deadline) × Quiesces (after_all false r.completions f) rs)

still_waits_none : (elapsed in_flight : ℕ) → in_flight ≡ 0 → still_waits in_flight elapsed ≡ false
still_waits_none elapsed in_flight empty = ground arith

some_round :
    (r : Round) (rs : List Round) (f : ℕ → Bool)
    → count_from f 0 transfer_count ≢ 0
    → Quiesces f (r ∷ rs)
    → (r.elapsed < deadline) × Quiesces (after_all false r.completions f) rs
some_round r rs f busy (inl empty) = absurd (busy empty)
some_round r rs f busy (inr more) = more

module _ {fp : Double} (eng : Engine) where
  drain-quiet :
      (rs : List Round) (st : StreamState fp) (shm : Shm Steps) (h : Held)
      → IsStreaming eng st h
      → IsSetUp st
      → st.running ≡ false
      → Quiesces h.active rs
      → AreLegitRounds st.in_pkt_len h.active rs
      → (st' : StreamState fp) × (shm' : Shm Steps) × (calls : List Call) × (drain rs st shm
          ≡ done (st', shm', calls))
        × Handled eng st st' shm shm' h calls
        × (st'.in_flight ≡ 0)
  unfolding drain
  drain-quiet [] st shm h s set_up stopped quiet legit = absurd quiet
  drain-quiet (r ∷ rs) st shm h s set_up stopped quiet (now, later) =
      elim (ℕ_discrete st.in_flight 0) [
        | yes empty ↦ (
          st,
          shm,
          [],
          rw (still_waits_none r.elapsed st.in_flight empty) refl,
          same-Handled eng st shm h s set_up,
          empty,
        )
        | no busy ↦
            let (early, quiet') = some_round r rs h.active (λ e. busy (s.flight ∙ e)) quiet in
            let on : still_waits st.in_flight r.elapsed ≡ true =
              ground (arith, s.flight, count_from-le h.active 0 transfer_count) in
            let (st1, shm1, calls1, ran1, one, act) =
              call_backs-Handled eng r.completions st shm h s set_up (rw stopped now) in
            let (st2, shm2, calls2, ran2, rest, empty) =
              drain-quiet rs st1 shm1 one.held one.streaming one.set_up (one.running ∙ stopped)
                (rw (act, stopped) quiet') (rw (one.in_pkt_len, act, stopped) later) in
            (
              st2,
              shm2,
              handle_events_timeout ∷ (calls1 ++ calls2),
              rw (on, ran1, ran2) refl,
              polled-Handled eng (Handled-trans eng one rest) s.context,
              empty,
            )
      ]

  -- Where libusb gives all cancelled transfers back before the deadline, stop comes back and has made
  -- only calls that libusb allows and given everything back.
  pub stop_quiet :
      (rs : List Round) (st : StreamState fp) (shm : Shm Steps) (h : Held)
      → IsStreaming eng st h
      → IsSetUp st
      → Quiesces h.active rs
      → AreLegitRounds st.in_pkt_len h.active rs
      → (st' : StreamState fp) × (shm' : Shm Steps) × (calls : List Call) × (stop rs eng st shm
          ≡ done (st', shm', calls))
        × ((h' : Held) × (follow calls h ≡ some h') × IsIdle h')
        × SameHeader shm shm'
  unfolding stop
  stop_quiet rs st shm h s set_up quiet legit =
      let (st', shm', calls, ran, hd, empty) =
        drain-quiet rs (record st { running = false }) shm h (halted-IsStreaming eng st h s)
          (halted-IsSetUp st set_up) refl quiet legit in
      let (h', left, idle) = quiet-leaving eng st' hd.held hd.streaming empty in
      (
        st',
        shm',
        cancel_all eng.transfers ++ (calls ++ leaving eng),
        rw ran refl,
        (h', until_leaving eng st h s calls hd.held hd.allowed (leaving eng) ∙ left, idle),
        hd.header,
      )
