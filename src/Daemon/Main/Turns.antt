-- ===== src/Daemon/Main/Turns.antt =====
-- daemon/src/main.rs, run_daemon: a turn of the loop, by its branches.
use Prim.Native.String.{String}
use mathlib.Core.Path.{subst}
use line6_coreaudio.Prelude.{
  ℕ, ◌*◌, ◌+◌, ◌≡◌, refl, sym, ap, ◌∙◌, Bool, true, false, leb, ◌%◌, not, arith, List, [], ◌∷◌,
  Option, Option-cases, Bool-cases, some, none, inl, inr, ◌==◌, if◌then◌else◌, u32_mod, ltb, ◌-◌,
}
use line6_coreaudio.Shm.{Shm}
use line6_coreaudio.Daemon.Samples.{Steps}
use line6_coreaudio.Daemon.Devices.{Ids, Device, devices, find_connected, capture_frame_bytes}
use line6_coreaudio.Daemon.Devices.Laws.{In, ScanFound, find_connected-ScanFound}
use line6_coreaudio.Daemon.Header.{table_channels}
use line6_coreaudio.Daemon.Capture.{Double, StreamState, new_stream}
use line6_coreaudio.Daemon.Capture.Total.{IsSetUp}
use line6_coreaudio.Daemon.Engine.{Call, Round, handle_events_timeout, Started, ok, err, start}
use line6_coreaudio.Daemon.Engine.Protocol.{Held, follow, IsIdle}
use line6_coreaudio.Daemon.Engine.Streaming.{Settled}
use line6_coreaudio.Daemon.Engine.Start.{start_settles}
use line6_coreaudio.Daemon.Engine.Active.{after_all}
use line6_coreaudio.Daemon.Engine.Callbacks.{Handled, call_backs-Handled}
use line6_coreaudio.Daemon.Engine.Stop.{polled-Handled}
use line6_coreaudio.Daemon.Main.Laws.{
  IsIdle-eq, SameButFlight, start-SameButFlight, IsDescribed, DescribedBy, segment_for-IsDescribed,
  IsDescribed-channels, IsDescribed-SameHeader, IsHeld, IsFairWith, LateWith, IsFair, IsLate,
  IsWell, Ends, stopped-Ends,
}
use line6_coreaudio.Daemon.Main.{
  absent_exit_grace, finish, Active, Locals, Turn, Turned, next, leave, capture_turn, segment_for,
  started, idle_turn, turn, turn_by, watchdog_stall,
}

-- A device that find_connected gives is in the table.
connected-listed :
    (bus : Option (List (Option Ids))) (d : Device) → find_connected bus ≡ some d → In d devices
unfolding find_connected
connected-listed none d found = cc
connected-listed (some bus) d found =
    let scanned : ScanFound bus (some d) =
      subst (ScanFound bus) found (find_connected-ScanFound bus) in
    scanned.0

fresh : (fp : Double) (d : Device) (sine : Bool) → (new_stream fp d sine).in_flight ≡ 0
unfolding new_stream
fresh fp d sine = refl

followed : (h : Held) → follow [] h ≡ some h
unfolding follow
followed h = refl

module _ {fp : Double} (latency_frames : ℕ) (as_bytes : String → List ℕ) where
  if-Ends :
      (late : Type 0) (b : Bool) (x y : Turned fp) (h : Held)
      → Ends latency_frames as_bytes late x h
      → Ends latency_frames as_bytes late y h
      → Ends latency_frames as_bytes late (if b then x else y) h
  if-Ends late true x y h ex ey = ex
  if-Ends late false x y h ex ey = ey

  -- The capture goes on.
  going-IsWell :
      (l : Locals fp) (a : Active fp) (st1 : StreamState fp) (shm shm1 : Shm Steps) (h : Held)
      (calls : List Call)
      → a.stream.running ≡ true
      → a.stream.channels ≡ shm.channels
      → IsDescribed latency_frames as_bytes shm l.shm_pid
      → (hd : Handled a.engine a.stream st1 shm shm1 h calls) → (wf progress : ℕ)
      → IsWell latency_frames as_bytes
          (record l {
            active = some (record { stream = st1; engine = a.engine });
            segment = some shm1;
            last_wf = wf;
            last_progress = progress;
          })
          hd.held
  going-IsWell l a st1 shm shm1 h calls running channels described hd wf progress = record {
    held = (
      hd.streaming,
      hd.set_up,
      hd.running ∙ running,
      hd.channels ∙ channels ∙ sym (ap (λ (x : Shm Steps). x.channels) hd.header),
    );
    described =
        IsDescribed-SameHeader latency_frames as_bytes shm shm1 l.shm_pid hd.header described;
  }

  -- The turn while a capture runs.
  capture_turn-Ends :
      (t : Turn) (a : Active fp) (shm : Shm Steps) (l : Locals fp) (h : Held)
      → IsHeld (some a) (some shm) h
      → IsDescribed latency_frames as_bytes shm l.shm_pid
      → IsFairWith t.completions t.rounds (some a) h
      → Ends latency_frames as_bytes
          (LateWith t.completions t.rounds (some a) h)
          (capture_turn t a shm l)
          h
  unfolding capture_turn polled-Handled
  capture_turn-Ends t a shm l h (s, set_up, running, channels) described (legit, legit', expires) =
      let (st1, shm1, calls, ran, hd, act) =
        call_backs-Handled a.engine t.completions a.stream shm h s set_up (rw running legit) in
      let polled : Handled a.engine a.stream st1 shm shm1 h (handle_events_timeout ∷ calls) =
        polled-Handled a.engine hd s.context in
      let now_active : hd.held.active ≡ after_all true t.completions h.active =
        act ∙ ap (λ b. after_all b t.completions h.active) running in
      let well : (wf progress : ℕ)
          → IsWell latency_frames as_bytes
              (record l {
                active = some (record { stream = st1; engine = a.engine });
                segment = some shm1;
                last_wf = wf;
                last_progress = progress;
              })
              polled.held =
        going-IsWell l a st1 shm shm1 h (handle_events_timeout ∷ calls) running channels described
          polled in
      let (shm2, calls2, ended, head, outcome) =
        stopped-Ends latency_frames as_bytes next t.rounds l (handle_events_timeout ∷ calls)
          a.engine st1 shm1 h polled.held polled.allowed polled.streaming polled.set_up
          (rw (hd.in_pkt_len, now_active) legit') expires in
      let still : IsDescribed latency_frames as_bytes shm2 l.shm_pid =
        IsDescribed-SameHeader latency_frames as_bytes shm1 shm2 l.shm_pid head
          (IsDescribed-SameHeader latency_frames as_bytes shm shm1 l.shm_pid hd.header described) in
      rw ran (
        if-Ends _ (not (shm1.write_frames == l.last_wf)) _ _ h
          (inl (polled.held, polled.allowed, well shm1.write_frames t.now))
          (if-Ends _ (ltb watchdog_stall (t.now - l.last_progress)) _ _ h
            (rw ended (elim outcome [
              | inl (h2, left, idle) ↦ inl (h2, left, record { held = idle; described = still })
              | inr (late, refused) ↦ inr (rw (← now_active) late, refused, refl, still)
            ]))
            (inl (polled.held, polled.allowed, well l.last_wf l.last_progress))))

  IsSetUp-new :
      (d : Device) (sine : Bool) (st : StreamState fp)
      → In d devices
      → SameButFlight (new_stream fp d sine) st
      → IsSetUp st × (st.running ≡ true) × (st.channels ≡ 8)
  unfolding new_stream capture_frame_bytes
  IsSetUp-new d sine st listed same =
      let wide : d.capture_channels ≡ 8 = table_channels d listed in
      (
        record {
          some_channel = omega (arith, ap (λ (x : StreamState fp). x.channels) same, wide);
          few_channels = omega (arith, ap (λ (x : StreamState fp). x.channels) same, wide);
          three_bytes =
              ap (λ (x : StreamState fp). x.frame_bytes) same
              ∙ ap (λ (n : ℕ). n * 3) (sym (ap (λ (x : StreamState fp). x.channels) same));
        },
        ap (λ (x : StreamState fp). x.running) same,
        ap (λ (x : StreamState fp). x.channels) same ∙ wide,
      )

  -- What start leaves, with the segment of its device.
  started-Ends :
      (t : Turn) (d : Device) (sine : Bool) (shm : Shm Steps) (l : Locals fp) (h : Held)
      (result : Started) (st : StreamState fp) (calls : List Call)
      → In d devices
      → IsDescribed latency_frames as_bytes shm d.product_id
      → l.active ≡ none
      → SameButFlight (new_stream fp d sine) st
      → ((h' : Held) × (follow calls h ≡ some h') × Settled result st h')
      → (late : Type 0)
      → Ends latency_frames as_bytes late (started t d shm l (result, st, calls)) h
  started-Ends t d sine shm l h (ok eng) st calls listed described idle same
        (h', ran, (s, some_busy)) late =
      let (set_up, running, channels) = IsSetUp-new d sine st listed same in
      inl (
        h',
        ran,
        record {
          held = (
            s,
            set_up,
            running,
            channels
                ∙ sym (IsDescribed-channels latency_frames as_bytes shm d.product_id described),
          );
          described = described;
        },
      )
  started-Ends t d sine shm l h (err e) st calls listed described idle same (h', ran, quiet) late =
      inl (h', ran, record { held = rw idle quiet; described = described })

  idle_turn-Ends :
      (sine exits : Bool) (t : Turn) (found : Option Device) (l : Locals fp) (h : Held)
      → l.active ≡ none
      → IsIdle h
      → DescribedBy latency_frames as_bytes l.shm_pid l.segment
      → ((d : Device) → found ≡ some d → In d devices)
      → (late : Type 0)
      → Ends latency_frames as_bytes late (idle_turn sine exits latency_frames as_bytes t found l) h
  unfolding idle_turn
  idle_turn-Ends sine exits t none l h idle quiet described listed late =
      if-Ends late exits _ _ h
        (if-Ends late (leb absent_exit_grace ((l.absent_count + 1) % u32_mod)) _ _ h
          (inl (h, followed h, idle, quiet))
          (inl (h, followed h, record { held = rw idle quiet; described = described })))
        (inl (h, followed h, record { held = rw idle quiet; described = described }))
  idle_turn-Ends sine exits t (some d) l h idle quiet described listed late =
      elim (Option-cases (segment_for latency_frames as_bytes t d l.shm_pid l.segment)) [
        | inl failed ↦ rw failed quiet
        | inr (shm, made) ↦ rw made (
            started-Ends t d sine shm l h (start t.replies d (new_stream fp d sine)).0
              (start t.replies d (new_stream fp d sine)).1
              (start t.replies d (new_stream fp d sine)).2 (listed d refl)
              (segment_for-IsDescribed latency_frames as_bytes t d l.shm_pid l.segment shm
                (listed d refl) described made)
              idle (start-SameButFlight t.replies d (new_stream fp d sine))
              (rw (IsIdle-eq h quiet)
                (start_settles t.replies d (new_stream fp d sine) (fresh fp d sine)))
              late)
      ]

  finish-Ends :
      (rounds : List Round) (l : Locals fp) (active : Option (Active fp))
      (segment : Option (Shm Steps)) (h : Held)
      → l.active ≡ active
      → IsHeld active segment h
      → IsFairWith [] rounds active h
      → Ends latency_frames as_bytes
          (LateWith [] rounds active h)
          (finish rounds l active segment)
          h
  finish-Ends rounds l none segment h same held fair = inl (h, followed h, same, held)
  finish-Ends rounds l (some a) none h same held fair = absurd held
  finish-Ends rounds l (some a) (some shm) h same (s, set_up, running, channels)
        (legit, legit', expires) =
      let (shm2, calls2, ended, head, outcome) =
        stopped-Ends latency_frames as_bytes leave rounds l [] a.engine a.stream shm h h
          (followed h) s set_up legit' expires in
      rw ended (elim outcome [
        | inl (h2, left, idle) ↦ inl (h2, left, refl, idle)
        | inr (late, refused) ↦ inr (late, refused, refl)
      ])

  turn_by-Ends :
      (sine exits : Bool) (t : Turn) (l : Locals fp) (active : Option (Active fp))
      (segment : Option (Shm Steps)) (h : Held)
      → l.active ≡ active
      → l.segment ≡ segment
      → IsHeld active segment h
      → DescribedBy latency_frames as_bytes l.shm_pid segment
      → IsFairWith t.completions t.rounds active h
      → Ends latency_frames as_bytes
          (LateWith t.completions t.rounds active h)
          (turn_by sine exits latency_frames as_bytes t l active segment)
          h
  turn_by-Ends sine exits t l none segment h same there held described fair =
      idle_turn-Ends sine exits t (find_connected t.bus) l h same held (rw there described)
        (connected-listed t.bus) _
  turn_by-Ends sine exits t l (some a) none h same there held described fair = absurd held
  turn_by-Ends sine exits t l (some a) (some shm) h same there held described fair =
      capture_turn-Ends t a shm l h held described fair

  pub turn-Ends :
      (sine exits : Bool) (t : Turn) (l : Locals fp) (h : Held)
      → IsWell latency_frames as_bytes l h
      → IsFair t l.active h
      → Ends latency_frames as_bytes
          (IsLate t l.active h)
          (turn sine exits latency_frames as_bytes t l)
          h
  unfolding turn
  turn-Ends sine exits t l h well fair = elim (Bool-cases t.keeps_running) [
    | inl on ↦ simp on (
        turn_by-Ends sine exits t l l.active l.segment h refl refl well.held well.described
          (simp on at fair))
    | inr off ↦
        rw off (finish-Ends t.rounds l l.active l.segment h refl well.held (simp off at fair))
  ]
