-- ===== src/Daemon/Engine/Streaming.antt =====
-- daemon/src/usb.rs: the state between start and stop, and the libusb calls of start against the protocol.
use line6_coreaudio.Prelude.{
  ℕ, ◌≡◌, ◌≤◌, ◌<◌, refl, Bool, true, false, arith, List, [], ◌∷◌, some, ℕ_discrete, length,
  if◌then◌else◌, not, ◌==◌,
}
use line6_coreaudio.Daemon.Devices.{Device}
use line6_coreaudio.Daemon.Capture.{Double, StreamState}
use line6_coreaudio.Daemon.Engine.{
  close_device, exit_library, Call, Engine, Started, ok, err, make_iso, make_isos, transfers_of,
  let_go, init_library, open_device, claim_interface, set_alt_setting,
}
use line6_coreaudio.Daemon.Engine.Protocol.{Held, allow, follow, IsIdle, count_from}
use line6_coreaudio.Daemon.Engine.Loops.{AreFrom}

-- The transfers of an engine: sixteen, eight for each direction.
abbrev pub transfer_count : ℕ
transfer_count = 16

-- Before start.
abbrev pub nothing : Held
nothing = record {
  context = false;
  handle = false;
  claimed = false;
  allocated = λ t. false;
  active = λ t. false;
}

-- A stream whose engine holds the device, its interface and the transfers, and whose count in
-- flight is the number of active transfers.
pub record IsStreaming {fp : Double} (eng : Engine) (st : StreamState fp) (h : Held) : Type 0 where
  pub context : h.context ≡ true
  pub handle : h.handle ≡ true
  pub claimed : h.claimed ≡ true
  pub from : AreFrom 0 eng.transfers
  pub all : length eng.transfers ≡ transfer_count
  pub allocated : (t : ℕ) → t < transfer_count → h.allocated t ≡ true
  pub no_other : (t : ℕ) → transfer_count ≤ t → (h.allocated t ≡ false) × (h.active t ≡ false)
  pub flight : st.in_flight ≡ count_from h.active 0 transfer_count

-- What start leaves: on success a stream with a transfer in flight, on failure nothing.
abbrev pub Settled : {fp : Double} → Started → StreamState fp → Held → Type 0
Settled (ok eng) st h = IsStreaming eng st h × (0 < st.in_flight)
Settled (err e) st h = IsIdle h

pub transfers_of-from :
    (d : Device) → AreFrom 0 (transfers_of d) × (length (transfers_of d) ≡ transfer_count)
unfolding transfers_of make_isos make_iso
transfers_of-from d = (omega arith, refl)

-- The device is open, its interface claimed, and no transfer allocated.
abbrev pub ready : Held
ready = record nothing { context = true; handle = true; claimed = true }

-- A result of start whose calls are allowed and leave what they should.
abbrev pub Settles : {fp : Double} → Started × StreamState fp × List Call → Type 0
Settles (result, st, calls) = (h : Held) × (follow calls nothing ≡ some h) × Settled result st h

module _ {fp : Double} where
  pub unless-Settles :
      (b : Bool) (x y : Started × StreamState fp × List Call)
      → (b ≡ false → Settles x)
      → (b ≡ true → Settles y)
      → Settles (if not b then x else y)
  unless-Settles true x y hx hy = hy refl
  unless-Settles false x y hx hy = hx refl

  pub zero-Settles :
      (n : ℕ) (x y : Started × StreamState fp × List Call)
      → (n ≡ 0 → Settles x)
      → (0 < n → Settles y)
      → Settles (if n == 0 then x else y)
  zero-Settles n x y hx hy = elim (ℕ_discrete n 0) [
    | yes e ↦ rw e (hx e)
    | no some_n ↦ let e : n == 0 ≡ false = ground arith in rw e (hy (omega arith))
  ]

pub nothing-IsIdle : IsIdle nothing
nothing-IsIdle = record {
  context = refl;
  handle = refl;
  claimed = refl;
  allocated = λ t. refl;
  active = λ t. refl;
}

-- The four calls that get the device ready.
pub ready-follow :
    (vid pid iface alt : ℕ) (cs : List Call)
    → follow
        (init_library true
          ∷ open_device vid pid true
          ∷ claim_interface iface true
          ∷ set_alt_setting iface alt true
          ∷ cs)
        nothing
      ≡ follow cs ready
unfolding follow allow
ready-follow vid pid iface alt cs = refl

-- The calls of a start that fails on the way.
pub failed-follow :
    (vid pid iface alt : ℕ)
    → (follow (init_library false ∷ []) nothing ≡ some nothing)
      × (follow (init_library true ∷ open_device vid pid false ∷ exit_library ∷ []) nothing
          ≡ some nothing)
      × (follow
            (init_library true
              ∷ open_device vid pid true
              ∷ claim_interface iface false
              ∷ close_device
              ∷ exit_library
              ∷ [])
            nothing
          ≡ some nothing)
      × (follow
            (init_library true
              ∷ open_device vid pid true
              ∷ claim_interface iface true
              ∷ set_alt_setting iface alt false
              ∷ let_go iface)
            nothing
          ≡ some nothing)
unfolding follow allow
failed-follow vid pid iface alt = (refl, refl, refl, refl)
