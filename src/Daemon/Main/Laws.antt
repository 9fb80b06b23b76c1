-- ===== src/Daemon/Main/Laws.antt =====
-- daemon/src/main.rs, run_daemon: what every turn of the loop keeps.
use Prim.Native.String.{String}
use mathlib.Core.Path.{fun_ext}
use line6_coreaudio.Prelude.{
  ℕ, ◌≡◌, refl, ap, ◌∙◌, Bool, true, arith, List, [], ◌∷◌, ◌++◌, Option, some, none, ℕ_discrete,
  ◌⊎◌, inl, inr, if◌then◌else◌,
}
use line6_coreaudio.Shm.{Shm}
use line6_coreaudio.Plugin.Lifecycle.{Mapping, mapped, open_failed, map_failed}
use line6_coreaudio.Daemon.Samples.{Steps}
use line6_coreaudio.Daemon.Writer.{SameHeader, SameHeader-trans}
use line6_coreaudio.Daemon.Devices.{Device, devices}
use line6_coreaudio.Daemon.Devices.Laws.{In}
use line6_coreaudio.Daemon.Header.{create, table_channels}
use line6_coreaudio.Daemon.Capture.{Double, StreamState}
use line6_coreaudio.Daemon.Capture.Total.{IsSetUp}
use line6_coreaudio.Daemon.Engine.{
  Engine, Call, Iso, Replies, start, submit_all, transfers_of, Round, Completion, done, stop,
}
use line6_coreaudio.Daemon.Engine.Protocol.{Held, follow, follow-append, IsIdle}
use line6_coreaudio.Daemon.Engine.Streaming.{nothing, IsStreaming}
use line6_coreaudio.Daemon.Engine.Active.{AreLegit, after_all}
use line6_coreaudio.Daemon.Engine.Stop.{AreLegitRounds, Expires, stop_ends}
use line6_coreaudio.Daemon.Engine.Quiet.{Quiesces, stop_quiet}
use line6_coreaudio.Daemon.Main.{
  stopped, Active, Locals, Turn, Turned, next, leave, fail, panic, wait, segment_for,
}

pub IsIdle-eq : (h : Held) → IsIdle h → h ≡ nothing
IsIdle-eq h idle =
    cc (idle.context, idle.handle, idle.claimed, fun_ext idle.allocated, fun_ext idle.active)

module _ {fp : Double} where
  -- start changes no more of the stream's state than its count in flight.
  abbrev pub SameButFlight : StreamState fp → StreamState fp → Type 0
  SameButFlight st st' = st' ≡ record st { in_flight = st'.in_flight }

  submit_all-SameButFlight :
      (submits : ℕ → Bool) (ts : List Iso) (st : StreamState fp)
      → SameButFlight st (submit_all submits ts st).0
  unfolding submit_all
  submit_all-SameButFlight submits [] st = refl
  submit_all-SameButFlight submits (t ∷ ts) st = submit_all-SameButFlight submits ts _

  pub start-SameButFlight :
      (r : Replies) (d : Device) (st : StreamState fp) → SameButFlight st (start r d st).1
  unfolding start
  start-SameButFlight r d st =
      ground (arith, submit_all-SameButFlight r.submits (transfers_of d) st)

module _ (latency_frames : ℕ) (as_bytes : String → List ℕ) where
  -- create has made the segment for the device with a product id, and its header is as it was.
  pub record IsDescribed (shm : Shm Steps) (pid : ℕ) : Type 0 where
    pub device : Device
    pub listed : In device devices
    pub same : device.product_id ≡ pid
    pub mapping : Mapping
    pub ring : ℕ → Steps
    pub base : Shm Steps
    pub made : create as_bytes mapping device latency_frames ring ≡ some base
    pub header : SameHeader base shm

  abbrev pub DescribedBy : ℕ → Option (Shm Steps) → Type 0
  DescribedBy pid none = Unit {0}
  DescribedBy pid (some shm) = IsDescribed shm pid

  pub created :
      (t : Turn) (d : Device) (shm : Shm Steps)
      → In d devices
      → create as_bytes t.mapping d latency_frames t.old_ring ≡ some shm
      → IsDescribed shm d.product_id
  created t d shm listed made = record {
    device = d;
    listed = listed;
    same = refl;
    mapping = t.mapping;
    ring = t.old_ring;
    base = shm;
    made = made;
    header = refl;
  }

  -- A segment that the loop has for a device describes it, and has its channels.
  pub segment_for-IsDescribed :
      (t : Turn) (d : Device) (pid : ℕ) (segment : Option (Shm Steps)) (shm : Shm Steps)
      → In d devices
      → DescribedBy pid segment
      → segment_for latency_frames as_bytes t d pid segment ≡ some shm
      → IsDescribed shm d.product_id
  segment_for-IsDescribed t d pid none shm listed old found = created t d shm listed found
  segment_for-IsDescribed t d pid (some old_shm) shm listed old found =
      elim (ℕ_discrete pid d.product_id) [
        | yes same ↦ let kept : old_shm ≡ shm = ground (arith, found) in rw (← same, ← kept) old
        | no other ↦ created t d shm listed (ground (arith, found))
      ]

  create-channels :
      (mapping : Mapping) (d : Device) (ring : ℕ → Steps) (base : Shm Steps)
      → create as_bytes mapping d latency_frames ring ≡ some base
      → base.channels ≡ d.capture_channels
  unfolding create
  create-channels open_failed d ring base made = cc
  create-channels map_failed d ring base made = cc
  create-channels mapped d ring base made = cc

  pub IsDescribed-channels : (shm : Shm Steps) (pid : ℕ) → IsDescribed shm pid → shm.channels ≡ 8
  IsDescribed-channels shm pid s =
      ap (λ (x : Shm Steps). x.channels) s.header
      ∙ create-channels s.mapping s.device s.ring s.base s.made
      ∙ table_channels s.device s.listed

  pub IsDescribed-SameHeader :
      (shm shm' : Shm Steps) (pid : ℕ)
      → SameHeader shm shm'
      → IsDescribed shm pid
      → IsDescribed shm' pid
  IsDescribed-SameHeader shm shm' pid same s = record {
    device = s.device;
    listed = s.listed;
    same = s.same;
    mapping = s.mapping;
    ring = s.ring;
    base = s.base;
    made = s.made;
    header = SameHeader-trans s.base shm shm' s.header same;
  }

-- The callbacks of a turn: none after a signal.
abbrev pub polled : Turn → List Completion
polled t = if t.keeps_running then t.completions else []

module _ {fp : Double} where
  -- With no capture nothing of libusb is held; a capture that runs has its engine, for a stream with
  -- as many channels as the segment says.
  abbrev pub IsHeld : Option (Active fp) → Option (Shm Steps) → Held → Type 0
  IsHeld none segment h = IsIdle h
  IsHeld (some a) none h = ⊥
  IsHeld (some a) (some shm) h =
      IsStreaming a.engine a.stream h
      × IsSetUp a.stream
      × (a.stream.running ≡ true)
      × (a.stream.channels ≡ shm.channels)

  -- What a turn relies on, `cs` being the callbacks in handle_events and `rounds` those of a stop:
  -- libusb calls back active transfers only, with packets inside their buffers, and time goes on.
  -- Whether a callback can submit its transfer again is left open.
  abbrev pub IsFairWith : List Completion → List Round → Option (Active fp) → Held → Type 0
  IsFairWith cs rounds none h = Unit {0}
  IsFairWith cs rounds (some a) h =
      AreLegit true a.stream.in_pkt_len h.active cs
      × AreLegitRounds a.stream.in_pkt_len (after_all true cs h.active) rounds
      × Expires rounds

  -- A stop in the turn would give up with transfers in flight.
  abbrev pub LateWith : List Completion → List Round → Option (Active fp) → Held → Type 0
  LateWith cs rounds none h = ⊥
  LateWith cs rounds (some a) h = ¬ Quiesces (after_all true cs h.active) rounds

  abbrev pub IsFair : Turn → Option (Active fp) → Held → Type 0
  IsFair t active h = IsFairWith (polled t) t.rounds active h

  abbrev pub IsLate : Turn → Option (Active fp) → Held → Type 0
  IsLate t active h = LateWith (polled t) t.rounds active h

module _ {fp : Double} (latency_frames : ℕ) (as_bytes : String → List ℕ) where
  -- The state of the loop between two turns.
  pub record IsWell (l : Locals fp) (h : Held) : Type 0 where
    pub held : IsHeld l.active l.segment h
    pub described : DescribedBy latency_frames as_bytes l.shm_pid l.segment

  -- How a turn may end: between turns all is well; after the loop, and when the segment cannot be
  -- made, nothing of libusb is held; and no call was out of order. If the turn is late, it may instead
  -- have freed a transfer in flight; then no capture is left.
  abbrev pub Ends : Type 0 → Turned fp → Held → Type 0
  Ends late (next l calls) h =
      ((h' : Held) × (follow calls h ≡ some h') × IsWell l h')
      ⊎ (late
          × (follow calls h ≡ none)
          × (l.active ≡ none)
          × DescribedBy latency_frames as_bytes l.shm_pid l.segment)
  Ends late (leave l calls) h =
      ((h' : Held) × (follow calls h ≡ some h') × (l.active ≡ none) × IsIdle h')
      ⊎ (late × (follow calls h ≡ none) × (l.active ≡ none))
  Ends late fail h = IsIdle h
  Ends late panic h = ⊥
  Ends late wait h = ⊥

  -- A stop cannot be refused by the protocol where all transfers have come back in time.
  refused-late :
      (eng : Engine) (rounds : List Round) (st st' : StreamState fp) (shm shm' : Shm Steps)
      (calls : List Call) (h : Held)
      → IsStreaming eng st h
      → IsSetUp st
      → AreLegitRounds st.in_pkt_len h.active rounds
      → stop rounds eng st shm ≡ done (st', shm', calls)
      → follow calls h ≡ none
      → ¬ Quiesces h.active rounds
  refused-late eng rounds st st' shm shm' calls h s set_up legit ran refused quiet =
      let (st2, shm2, calls2, ran2, (h2, left, idle), head) =
        stop_quiet eng rounds st shm h s set_up quiet legit in
      cc (ran, ran2, left, refused)

  -- The end of a turn that stops a capture.
  pub stopped-Ends :
      (how : Locals fp → List Call → Turned fp) (rounds : List Round) (l : Locals fp)
      (before : List Call) (eng : Engine) (st : StreamState fp) (shm : Shm Steps) (h h1 : Held)
      → follow before h ≡ some h1
      → IsStreaming eng st h1
      → IsSetUp st
      → AreLegitRounds st.in_pkt_len h1.active rounds
      → Expires rounds
      → (shm' : Shm Steps) × (calls : List Call) × (stopped how l before (stop rounds eng st shm)
          ≡ how (record l { active = none; segment = some shm' }) calls)
        × SameHeader shm shm'
        × (((h' : Held) × (follow calls h ≡ some h') × IsIdle h')
            ⊎ ((¬ Quiesces h1.active rounds) × (follow calls h ≡ none)))
  stopped-Ends how rounds l before eng st shm h h1 allowed s set_up legit expires =
      let (st', shm', calls, ran, quiet, busy, head) =
        stop_ends eng rounds st shm h1 s set_up expires legit in
      let whole : follow (before ++ calls) h ≡ follow calls h1 =
        follow-append before calls h h1 allowed in
      (
        shm',
        before ++ calls,
        rw ran refl,
        head,
        elim (ℕ_discrete st'.in_flight 0) [
          | yes empty ↦ let (h', left, idle) = quiet empty in inl (h', whole ∙ left, idle)
          | no some_left ↦
              let refused = busy (omega arith) in
              inr (
                refused-late eng rounds st st' shm shm' calls h1 s set_up legit ran refused,
                whole ∙ refused,
              )
        ],
      )
