-- ===== src/CoreFoundation.antt =====
-- CoreFoundation strings as plugin/Line6HAL.c uses them: an interface of reference-counted
-- objects, since the framework is no code of the repository.
use line6_coreaudio.Prelude.{ℕ, ◌+◌, ◌-◌, ◌<◌, ◌≡◌, ◌≢◌, List, Option, some}

pub record CoreFoundation : Type 1 where
  pub Heap : Type 0
  -- CFStringCreateWithCString on the bytes of a C string; no object if they are no UTF-8.
  pub create : List ℕ → Heap → Option ℕ × Heap
  pub retain : ℕ → Heap → Heap
  pub release : ℕ → Heap → Heap
  -- What an observer sees of an object: its reference count and its bytes.
  pub refs : Heap → ℕ → ℕ
  pub text : Heap → ℕ → List ℕ

-- The documented ownership rules.
pub record IsCounted (cf : CoreFoundation) : Type 0 where
  pub created :
      (bytes : List ℕ) (h h' : cf.Heap) (r : ℕ)
      → cf.create bytes h ≡ (some r, h')
      → (cf.refs h r ≡ 0) × (cf.refs h' r ≡ 1) × (cf.text h' r ≡ bytes)
  pub created_other :
      (bytes : List ℕ) (h h' : cf.Heap) (r o : ℕ)
      → cf.create bytes h ≡ (some r, h')
      → o ≢ r
      → (cf.refs h' o ≡ cf.refs h o) × (cf.text h' o ≡ cf.text h o)
  pub retained : (r : ℕ) (h : cf.Heap) → cf.refs (cf.retain r h) r ≡ cf.refs h r + 1
  pub retained_other : (r o : ℕ) (h : cf.Heap) → o ≢ r → cf.refs (cf.retain r h) o ≡ cf.refs h o
  pub retained_text : (r o : ℕ) (h : cf.Heap) → cf.text (cf.retain r h) o ≡ cf.text h o
  pub released : (r : ℕ) (h : cf.Heap) → cf.refs (cf.release r h) r ≡ cf.refs h r - 1
  pub released_other : (r o : ℕ) (h : cf.Heap) → o ≢ r → cf.refs (cf.release r h) o ≡ cf.refs h o
  pub released_text :
      (r o : ℕ) (h : cf.Heap)
      → 0 < cf.refs (cf.release r h) o
      → cf.text (cf.release r h) o ≡ cf.text h o
