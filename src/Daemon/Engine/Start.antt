-- ===== src/Daemon/Engine/Start.antt =====
-- daemon/src/usb.rs, start: what it holds of libusb when it comes back.
use native.Mathlib.Nat.{zero-add}
use line6_coreaudio.Prelude.{
  ℕ, ◌≡◌, ◌≤◌, ◌<◌, refl, sym, ap, ◌∙◌, Bool, true, false, arith, List, ◌++◌, some, dec_lt,
}
use line6_coreaudio.Daemon.Devices.{Device, vid_line6}
use line6_coreaudio.Daemon.Capture.{Double, StreamState}
use line6_coreaudio.Daemon.Engine.{
  Call, Replies, transfers_of, alloc_all, free_all, let_go, submit_all, start,
}
use line6_coreaudio.Daemon.Engine.Protocol.{
  Held, follow, follow-append, IsIdle, count_from, count_from-eq, count_from-zero,
}
use line6_coreaudio.Daemon.Engine.Loops.{
  IsOn, always, alloc_all-follow, submit_all-follow, submit_all-counts, free_all-follow,
  let_go-follow,
}
use line6_coreaudio.Daemon.Engine.Streaming.{
  transfer_count, nothing, IsStreaming, Settled, transfers_of-from, ready, unless-Settles,
  zero-Settles, nothing-IsIdle, ready-follow, failed-follow,
}

module _ {fp : Double} (submits : ℕ → Bool) (d : Device) (st : StreamState fp)
    (fresh : st.in_flight ≡ 0) where
  -- The calls of start once the device is ready, and what they leave.
  abbrev sent : StreamState fp × List Call
  sent = submit_all submits (transfers_of d) st

  sent_counts : sent.0.in_flight ≡ count_from submits 0 transfer_count
  sent_counts =
      let (from, all) = transfers_of-from d in
      ap (λ (s : StreamState fp). s.in_flight)
        (submit_all-counts submits (transfers_of d) 0 st from (omega arith))
      ∙ rw (fresh, all) (zero-add _)

  record Sent : Type 0 where
    h : Held
    ran : follow (alloc_all (transfers_of d) ++ sent.1) ready ≡ some h
    context : h.context ≡ true
    handle : h.handle ≡ true
    claimed : h.claimed ≡ true
    there : IsOn h.allocated 0 transfer_count (always true) (always false)
    busy : IsOn h.active 0 transfer_count submits (always false)

  all_sent : Sent
  all_sent =
      let (from, all) = transfers_of-from d in
      let (a, ran1, there) = alloc_all-follow (transfers_of d) 0 ready from (λ t low. refl) in
      let h1 : Held = record ready { allocated = a } in
      let (b, ran2, busy) =
        submit_all-follow submits (transfers_of d) 0 st h1 from refl there.inside
          (λ t low high. refl) in
      record {
        h = record h1 { active = b };
        ran = follow-append (alloc_all (transfers_of d)) sent.1 ready h1 ran1 ∙ ran2;
        context = refl;
        handle = refl;
        claimed = refl;
        there = rw (← all) there;
        busy = rw (← all) busy;
      }

  -- No transfer could be submitted: all are freed and the device is let go.
  none_sent :
      sent.0.in_flight ≡ 0
      → (h : Held) × (follow
            ((alloc_all (transfers_of d) ++ sent.1)
              ++ (free_all (transfers_of d) ++ let_go d.audio_interface))
            ready
          ≡ some h)
        × IsIdle h
  none_sent empty =
      let (from, all) = transfers_of-from d in
      let s : Sent = all_sent in
      let silent : (t : ℕ) → 0 ≤ t → t < transfer_count → s.h.active t ≡ false = λ t low high.
        s.busy.inside t low high
        ∙ count_from-zero submits 0 transfer_count (sym sent_counts ∙ empty) t low high in
      let (a, freed, left) =
        free_all-follow (transfers_of d) 0 s.h from (rw all s.there.inside) (rw all silent) in
      let h1 : Held = record s.h { allocated = a } in
      let calls : List Call = alloc_all (transfers_of d) ++ sent.1 in
      (
        record h1 { context = false; handle = false; claimed = false },
        follow-append calls (free_all (transfers_of d) ++ let_go d.audio_interface) ready s.h s.ran
            ∙ follow-append (free_all (transfers_of d)) (let_go d.audio_interface) s.h h1 freed
            ∙ let_go-follow d.audio_interface h1 s.context s.handle s.claimed,
        record {
          context = refl;
          handle = refl;
          claimed = refl;
          allocated = λ t. elim (dec_lt t transfer_count) [
            | yes low ↦ left.inside t (omega arith) (omega (arith, all))
            | no high ↦ left.above t (omega (arith, all)) ∙ s.there.above t (omega arith)
          ];
          active = λ t. elim (dec_lt t transfer_count) [
            | yes low ↦ silent t (omega arith) low
            | no high ↦ s.busy.above t (omega arith)
          ];
        },
      )

  -- Some transfer is active.
  some_sent :
      (s : Sent)
      → IsStreaming
          (record { interface = d.audio_interface; transfers = transfers_of d })
          sent.0
          s.h
  some_sent s =
      let (from, all) = transfers_of-from d in
      record {
        context = s.context;
        handle = s.handle;
        claimed = s.claimed;
        from = from;
        all = all;
        allocated = λ t low. s.there.inside t (omega arith) (omega arith);
        no_other = λ t high. (s.there.above t (omega arith), s.busy.above t (omega arith));
        flight =
            sent_counts
            ∙ sym (
                count_from-eq s.h.active submits 0 transfer_count
                  (λ t low high. s.busy.inside t low high));
      }

module _ {fp : Double} (r : Replies) (d : Device) (st : StreamState fp)
    (fresh : st.in_flight ≡ 0) where
  -- Whatever libusb answers, start from a state with nothing in flight makes its calls in an order
  -- that libusb allows. If it fails, at whatever step, it has given back all that it took; if it
  -- succeeds, it holds the context, the device, the interface and sixteen transfers, at least one of
  -- them is active, and the stream counts exactly the active ones.
  pub start_settles :
      (h : Held) × (follow (start r d st).2 nothing ≡ some h)
      × Settled (start r d st).0 (start r d st).1 h
  unfolding start
  start_settles =
      let (f0, f1, f2, f3) = failed-follow vid_line6 d.product_id d.audio_interface d.alt_setting in
      unless-Settles r.inits _ _ (λ e. (nothing, f0, nothing-IsIdle))
        (λ inits.
          unless-Settles r.opens _ _ (λ e. (nothing, rw e f1, nothing-IsIdle))
            (λ opens.
              unless-Settles r.claims _ _ (λ e. (nothing, rw opens f2, nothing-IsIdle))
                (λ claims.
                  unless-Settles r.sets_alt _ _ (λ e. (nothing, rw (opens, e) f3, nothing-IsIdle))
                    (λ sets_alt.
                      zero-Settles (submit_all r.submits (transfers_of d) st).0.in_flight _ _
                        (λ empty.
                          let (h, ran, idle) = none_sent r.submits d st fresh empty in
                          (
                            h,
                            rw (opens, sets_alt)
                                (ready-follow vid_line6 d.product_id d.audio_interface d.alt_setting
                                    _
                                  ∙ ran),
                            idle,
                          ))
                        (λ busy.
                          let s : Sent r.submits d st fresh = all_sent r.submits d st fresh in
                          (
                            s.h,
                            rw (opens, sets_alt)
                                (ready-follow vid_line6 d.product_id d.audio_interface d.alt_setting
                                    _
                                  ∙ s.ran),
                            (some_sent r.submits d st fresh s, busy),
                          ))))))
