-- ===== src/Daemon/Engine/Active.antt =====
-- daemon/src/usb.rs: the calls of a callback against libusb's protocol, and which transfers are active after it.
use line6_coreaudio.Prelude.{
  ℕ, ◌+◌, ◌≡◌, ◌≢◌, ◌<◌, refl, Bool, true, false, ◌&&◌, arith, List, [], ◌∷◌, some, if◌then◌else◌,
}
use line6_coreaudio.Daemon.Capture.Total.{AreWithin}
use line6_coreaudio.Daemon.Engine.{Completion, called_back, submit_transfer}
use line6_coreaudio.Daemon.Engine.Protocol.{Held, put, allow, follow, count_from, count_from-put}
use line6_coreaudio.Daemon.Engine.Streaming.{transfer_count}

-- Which transfers are active after a callback.
abbrev pub after : Bool → Completion → (ℕ → Bool) → (ℕ → Bool)
after true c f = put (put f c.id false) c.id c.submits
after false c f = put f c.id false

abbrev pub after_all : Bool → List Completion → (ℕ → Bool) → (ℕ → Bool)
after_all running [] f = f
after_all running (c ∷ cs) f = after_all running cs (after running c f)

-- libusb calls back active transfers only, with packets inside their buffers.
abbrev pub AreLegit : Bool → ℕ → (ℕ → Bool) → List Completion → Type 0
AreLegit running in_pkt_len f [] = Unit {0}
AreLegit running in_pkt_len f (c ∷ cs) =
    (f c.id ≡ true)
    × AreWithin in_pkt_len c.buffer 0 c.packets
    × AreLegit running in_pkt_len (after running c f) cs

pub put_self : (f : ℕ → Bool) (i : ℕ) (b : Bool) → put f i b i ≡ b
put_self f i b = ground arith

-- The count falls by one unless the transfer is submitted again.
pub after-count :
    (running : Bool) (c : Completion) (f : ℕ → Bool)
    → c.id < transfer_count
    → f c.id ≡ true
    → count_from (after running c f) 0 transfer_count + 1
      ≡ count_from f 0 transfer_count + (if running && c.submits then 1 else 0)
after-count false c f low busy =
    ground (arith, count_from-put f false c.id 0 transfer_count (omega arith) (omega arith))
after-count true c f low busy = ground (
  arith,
  put_self f c.id false,
  count_from-put f false c.id 0 transfer_count (omega arith) (omega arith),
  count_from-put (put f c.id false) c.submits c.id 0 transfer_count (omega arith) (omega arith),
)

pub after-outside :
    (running : Bool) (c : Completion) (f : ℕ → Bool) (t : ℕ) → t ≢ c.id → after running c f t ≡ f t
after-outside false c f t other = ground arith
after-outside true c f t other = ground arith

pub calls_of-follow :
    (running : Bool) (c : Completion) (h : Held)
    → h.handle ≡ true
    → h.allocated c.id ≡ true
    → h.active c.id ≡ true
    → follow (called_back c.id ∷ (if running then submit_transfer c.id c.submits ∷ [] else [])) h
      ≡ some (record h { active = after running c h.active })
unfolding follow allow
calls_of-follow false c h opened there busy = rw busy refl
calls_of-follow true c h opened there busy =
    rw (busy, opened, there, put_self h.active c.id false) refl
