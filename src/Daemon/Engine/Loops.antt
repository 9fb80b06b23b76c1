-- ===== src/Daemon/Engine/Loops.antt =====
-- daemon/src/usb.rs: the loops over the transfers in start and stop, against libusb's protocol.
use native.Mathlib.Nat.{add-zero, add_assoc}
use line6_coreaudio.Prelude.{
  ℕ, suc, ◌+◌, ◌%◌, ◌≡◌, ◌≤◌, ◌<◌, refl, ap, ◌∙◌, Bool, true, false, arith, List, [], ◌∷◌, none,
  some, ℕ_discrete, if◌then◌else◌, length, u32_mod,
}
use line6_coreaudio.Daemon.Capture.{Double, StreamState}
use line6_coreaudio.Daemon.Engine.{
  free_transfer, submit_transfer, Iso, alloc_all, cancel_all, free_all, let_go, submit_all,
}
use line6_coreaudio.Daemon.Engine.Protocol.{Held, put, allow, follow, count_from}

-- Transfers numbered from `i` on.
abbrev pub AreFrom : ℕ → List Iso → Type 0
AreFrom i [] = Unit {0}
AreFrom i (t ∷ ts) = (t.id ≡ i) × AreFrom (i + 1) ts

-- A test has a value on the numbers of some transfers, and another test's values elsewhere.
pub record IsOn (a : ℕ → Bool) (i n : ℕ) (on off : ℕ → Bool) : Type 0 where
  pub inside : (t : ℕ) → i ≤ t → t < i + n → a t ≡ on t
  pub below : (t : ℕ) → t < i → a t ≡ off t
  pub above : (t : ℕ) → i + n ≤ t → a t ≡ off t

abbrev pub always : Bool → ℕ → Bool
always b t = b

-- A test set at `i`, then on the numbers after it.
IsOn-step :
    (a on off : ℕ → Bool) (i n : ℕ)
    → IsOn a (i + 1) n on (put off i (on i))
    → IsOn a i (suc n) on off
IsOn-step a on off i n later = record {
  inside = λ t low high. elim (ℕ_discrete t i) [
    | yes here ↦ later.below t (omega arith) ∙ rw here (ground arith)
    | no after ↦ later.inside t (omega arith) (omega arith)
  ];
  below = λ t low. later.below t (omega arith) ∙ ground arith;
  above = λ t high. later.above t (omega arith) ∙ ground arith;
}

IsOn-none : (a on : ℕ → Bool) (i : ℕ) → IsOn a i 0 on a
IsOn-none a on i = record {
  inside = λ t low high. absurd (omega arith);
  below = λ t low. refl;
  above = λ t high. refl;
}

pub alloc_all-follow :
    (ts : List Iso) (i : ℕ) (h : Held)
    → AreFrom i ts
    → ((t : ℕ) → i ≤ t → h.allocated t ≡ false)
    → (a : ℕ → Bool) × (follow (alloc_all ts) h ≡ some (record h { allocated = a }))
      × IsOn a i (length ts) (always true) h.allocated
unfolding follow allow
alloc_all-follow [] i h from unused = (h.allocated, refl, IsOn-none h.allocated (always true) i)
alloc_all-follow (t ∷ ts) i h (e, from) unused =
    let h1 : Held = record h { allocated = put h.allocated i true } in
    let (a, ran, on) = alloc_all-follow ts (i + 1) h1 from (λ u low. ground (arith, unused u)) in
    (a, rw (e, unused i (omega arith)) ran, IsOn-step a (always true) h.allocated i (length ts) on)

free_one :
    (id i : ℕ) (h : Held)
    → id ≡ i
    → h.allocated i ≡ true
    → h.active i ≡ false
    → allow (free_transfer id) h ≡ some (record h { allocated = put h.allocated i false })
unfolding allow
free_one id i h e there quiet = rw (e, there, quiet) refl

submit_one :
    (id i : ℕ) (b : ℕ → Bool) (h : Held)
    → id ≡ i
    → h.handle ≡ true
    → h.allocated i ≡ true
    → h.active i ≡ false
    → allow (submit_transfer id (b id)) h ≡ some (record h { active = put h.active i (b i) })
unfolding allow
submit_one id i b h e opened there quiet = rw (e, opened, there, quiet) refl

pub free_all-follow :
    (ts : List Iso) (i : ℕ) (h : Held)
    → AreFrom i ts
    → ((t : ℕ) → i ≤ t → t < i + length ts → h.allocated t ≡ true)
    → ((t : ℕ) → i ≤ t → t < i + length ts → h.active t ≡ false)
    → (a : ℕ → Bool) × (follow (free_all ts) h ≡ some (record h { allocated = a }))
      × IsOn a i (length ts) (always false) h.allocated
unfolding follow
free_all-follow [] i h from there quiet =
    (h.allocated, refl, IsOn-none h.allocated (always false) i)
free_all-follow (t ∷ ts) i h (e, from) there quiet =
    let h1 : Held = record h { allocated = put h.allocated i false } in
    let (a, ran, on) =
      free_all-follow ts (i + 1) h1 from (λ u low high. ground (arith, there u))
        (λ u low high. quiet u (omega arith) (omega arith)) in
    (
      a,
      rw
          (free_one t.id i h e (there i (omega arith) (omega arith))
            (quiet i (omega arith) (omega arith)))
          ran,
      IsOn-step a (always false) h.allocated i (length ts) on,
    )

-- A transfer that is still active is not freed by the rules.
pub free_all-refused :
    (ts : List Iso) (i : ℕ) (h : Held)
    → AreFrom i ts
    → (t : ℕ) → i ≤ t
    → t < i + length ts
    → h.active t ≡ true
    → follow (free_all ts) h ≡ none
unfolding follow allow
free_all-refused [] i h from t low high busy = absurd (omega arith)
free_all-refused (x ∷ ts) i h (e, from) t low high busy = elim (ℕ_discrete t i) [
  | yes here ↦ ground arith
  | no after ↦ ground (
    arith,
    free_all-refused ts (i + 1) (record h { allocated = put h.allocated x.id false }) from t
        (omega arith) (omega arith) busy,
  )
]

pub cancel_all-follow :
    (ts : List Iso) (i : ℕ) (h : Held)
    → AreFrom i ts
    → ((t : ℕ) → i ≤ t → t < i + length ts → h.allocated t ≡ true)
    → follow (cancel_all ts) h ≡ some h
unfolding follow allow
cancel_all-follow [] i h from there = refl
cancel_all-follow (t ∷ ts) i h (e, from) there =
    rw (e, there i (omega arith) (omega arith))
      (cancel_all-follow ts (i + 1) h from (λ u low high. there u (omega arith) (omega arith)))

pub let_go-follow :
    (interface : ℕ) (h : Held)
    → h.context ≡ true
    → h.handle ≡ true
    → h.claimed ≡ true
    → follow (let_go interface) h
      ≡ some (record h { context = false; handle = false; claimed = false })
unfolding follow allow
let_go-follow interface h c d e = rw (c, d, e) refl

module _ {fp : Double} (submits : ℕ → Bool) where
  pub submit_all-follow :
      (ts : List Iso) (i : ℕ) (st : StreamState fp) (h : Held)
      → AreFrom i ts
      → h.handle ≡ true
      → ((t : ℕ) → i ≤ t → t < i + length ts → h.allocated t ≡ true)
      → ((t : ℕ) → i ≤ t → t < i + length ts → h.active t ≡ false)
      → (a : ℕ → Bool) × (follow (submit_all submits ts st).1 h ≡ some (record h { active = a }))
        × IsOn a i (length ts) submits h.active
  unfolding follow submit_all
  submit_all-follow [] i st h from opened there quiet =
      (h.active, refl, IsOn-none h.active submits i)
  submit_all-follow (t ∷ ts) i st h (e, from) opened there quiet =
      let counted : StreamState fp = record st {
        in_flight = if submits t.id then (st.in_flight + 1) % u32_mod else st.in_flight;
      } in
      let h1 : Held = record h { active = put h.active i (submits i) } in
      let (a, ran, on) =
        submit_all-follow ts (i + 1) counted h1 from opened
          (λ u low high. there u (omega arith) (omega arith))
          (λ u low high. ground (arith, quiet u)) in
      (
        a,
        rw
            (submit_one t.id i submits h e opened (there i (omega arith) (omega arith))
              (quiet i (omega arith) (omega arith)))
            ran,
        IsOn-step a submits h.active i (length ts) on,
      )

  -- The loop counts the transfers that are submitted.
  pub submit_all-counts :
      (ts : List Iso) (i : ℕ) (st : StreamState fp)
      → AreFrom i ts
      → st.in_flight + length ts < u32_mod
      → (submit_all submits ts st).0
        ≡ record st { in_flight = st.in_flight + count_from submits i (length ts) }
  unfolding submit_all count_from
  submit_all-counts [] i st from small = rw add-zero refl
  submit_all-counts (t ∷ ts) i st (e, from) small =
      let one : ℕ = if submits i then 1 else 0 in
      let more : (if submits i then (st.in_flight + 1) % u32_mod else st.in_flight)
          ≡ st.in_flight + one =
        ground arith in
      rw (e, more)
        (submit_all-counts ts (i + 1) (record st { in_flight = st.in_flight + one }) from
            (ground arith)
          ∙ ap (λ n. record st { in_flight = n })
              (add_assoc st.in_flight one (count_from submits (i + 1) (length ts))))
