-- ===== src/Daemon/Engine/Protocol.antt =====
-- The order in which libusb's documentation allows its calls: a specification that daemon/src/usb.rs
-- is held against. A transfer is active from its submission to its callback, and only then.
use line6_coreaudio.Prelude.{
  ℕ, suc, zero, ◌+◌, ◌≡◌, refl, ap, Bool, true, false, not, ◌&&◌, arith, List, [], ◌∷◌, ◌++◌,
  Option, none, some, ◌==◌, ℕ_discrete, Bool-cases, Option-cases, inl, inr, if◌then◌else◌, ◌≤◌, ◌<◌,
}
use line6_coreaudio.Daemon.Writer.{◌>>=◌}
use line6_coreaudio.Daemon.Engine.{
  Call, init_library, exit_library, open_device, close_device, claim_interface, release_interface,
  set_alt_setting, alloc_transfer, submit_transfer, cancel_transfer, free_transfer,
  handle_events_timeout, called_back,
}

-- What a program holds of libusb.
pub record Held : Type 0 where
  pub context : Bool
  pub handle : Bool
  pub claimed : Bool
  pub allocated : ℕ → Bool
  pub active : ℕ → Bool

abbrev pub put : (ℕ → Bool) → ℕ → Bool → (ℕ → Bool)
put f i b = λ t. if t == i then b else f t

abbrev when : Bool → Held → Option Held
when true h = some h
when false h = none

-- What is held after a call, or none if the call is not allowed: the library is left after the
-- device is closed, the device is closed after its interface is released, and no active transfer
-- is submitted or freed.
unfoldable pub allow : Call → Held → Option Held
allow (init_library b) h = when (not h.context) (record h { context = b })
allow exit_library h = when (h.context && not h.handle) (record h { context = false })
allow (open_device vid pid b) h = when (h.context && not h.handle) (record h { handle = b })
allow close_device h = when (h.handle && not h.claimed) (record h { handle = false })
allow (claim_interface i b) h = when (h.handle && not h.claimed) (record h { claimed = b })
allow (release_interface i) h = when h.claimed (record h { claimed = false })
allow (set_alt_setting i a b) h = when h.claimed h
allow (alloc_transfer t) h =
    when (not (h.allocated t)) (record h { allocated = put h.allocated t true })
allow (submit_transfer t b) h =
    when (h.handle && (h.allocated t && not (h.active t))) (record h { active = put h.active t b })
allow (cancel_transfer t) h = when (h.allocated t) h
allow (free_transfer t) h =
    when (h.allocated t && not (h.active t)) (record h { allocated = put h.allocated t false })
allow handle_events_timeout h = when h.context h
allow (called_back t) h = when (h.active t) (record h { active = put h.active t false })

-- What is held after some calls, or none if one of them is not allowed.
unfoldable pub follow : List Call → Held → Option Held
follow [] h = some h
follow (c ∷ cs) h = allow c h >>= λ h'. follow cs h'

-- Nothing is held.
pub record IsIdle (h : Held) : Type 0 where
  pub context : h.context ≡ false
  pub handle : h.handle ≡ false
  pub claimed : h.claimed ≡ false
  pub allocated : (t : ℕ) → h.allocated t ≡ false
  pub active : (t : ℕ) → h.active t ≡ false

pub follow-append :
    (cs ds : List Call) (h h' : Held) → follow cs h ≡ some h' → follow (cs ++ ds) h ≡ follow ds h'
unfolding follow
follow-append [] ds h h' e = ground arith
follow-append (c ∷ cs) ds h h' e = elim (Option-cases (allow c h)) [
  | inl refused ↦ ground arith
  | inr (h1, allowed) ↦ ground (arith, follow-append cs ds h1 h')
]

pub follow-refused :
    (cs ds : List Call) (h : Held) → follow cs h ≡ none → follow (cs ++ ds) h ≡ none
unfolding follow
follow-refused [] ds h e = cc
follow-refused (c ∷ cs) ds h e = elim (Option-cases (allow c h)) [
  | inl refused ↦ ground arith
  | inr (h1, allowed) ↦ ground (arith, follow-refused cs ds h1)
]

-- The number of transfers from `i` on, `left` of them, for which a test holds.
unfoldable pub count_from : (ℕ → Bool) → ℕ → ℕ → ℕ
count_from f i zero = 0
count_from f i (suc left) = (if f i then 1 else 0) + count_from f (i + 1) left

module _ (f g : ℕ → Bool) where
  pub count_from-eq :
      (i left : ℕ)
      → ((t : ℕ) → i ≤ t → t < i + left → f t ≡ g t)
      → count_from f i left ≡ count_from g i left
  unfolding count_from
  count_from-eq i zero same = refl
  count_from-eq i (suc left) same = rw (same i (omega arith) (omega arith)) (
      ap (λ n. (if g i then 1 else 0) + n)
        (count_from-eq (i + 1) left (λ t low high. same t (omega arith) (omega arith))))

pub count_from-put :
    (f : ℕ → Bool) (b : Bool) (t i left : ℕ)
    → i ≤ t
    → t < i + left
    → count_from (put f t b) i left + (if f t then 1 else 0)
      ≡ count_from f i left + (if b then 1 else 0)
unfolding count_from
count_from-put f b t i zero low high = absurd (omega arith)
count_from-put f b t i (suc left) low high = elim (ℕ_discrete i t) [
  | yes here ↦
      ground (arith, count_from-eq (put f t b) f (i + 1) left (λ t' low' high'. ground arith))
  | no later ↦ ground (arith, count_from-put f b t (i + 1) left)
]

pub count_from-le : (f : ℕ → Bool) (i left : ℕ) → count_from f i left ≤ left
unfolding count_from
count_from-le f i zero = omega arith
count_from-le f i (suc left) = ground (arith, count_from-le f (i + 1) left)

-- A count of 0 means that the test holds nowhere.
pub count_from-zero :
    (f : ℕ → Bool) (i left : ℕ)
    → count_from f i left ≡ 0
    → (t : ℕ) → i ≤ t
    → t < i + left
    → f t ≡ false
unfolding count_from
count_from-zero f i zero none_there t low high = absurd (omega arith)
count_from-zero f i (suc left) none_there t low high = elim (ℕ_discrete i t) [
  | yes here ↦ rw (← here) (ground arith)
  | no later ↦ count_from-zero f (i + 1) left (ground arith) t (omega arith) (omega arith)
]

-- A count above 0 has a witness.
pub count_from-pos :
    (f : ℕ → Bool) (i left : ℕ) → 0 < count_from f i left → (t : ℕ) × (t < i + left) × (f t ≡ true)
unfolding count_from
count_from-pos f i zero some_there = absurd (omega arith)
count_from-pos f i (suc left) some_there = elim (Bool-cases (f i)) [
  | inl on ↦ (i, omega arith, on)
  | inr off ↦
      let (t, low, on) = count_from-pos f (i + 1) left (ground arith) in (t, omega arith, on)
]
