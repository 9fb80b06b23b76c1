-- ===== src/Tests/Frameworks.antt =====
-- Instances of the interfaces to code outside the repository, which show that their laws can hold.
use Prim.Native.Nat.{max}
use line6_coreaudio.Prelude.{
  ℕ, ◌+◌, ◌-◌, ◌*◌, ◌/◌, ◌≤◌, ◌≡◌, ◌≢◌, refl, arith, List, [], ◌∷◌, some, ◌==◌, if◌then◌else◌,
}
use line6_coreaudio.Float64.{Float64, IsOrdered}
use line6_coreaudio.CoreFoundation.{CoreFoundation, IsCounted}
use line6_coreaudio.CoreAudio.{CoreAudio}

-- Whole numbers as a floating-point type.
abbrev pub whole_float : Float64
whole_float = record {
  Carrier = ℕ;
  of_u64 = λ n. n;
  to_u64 = λ n. n;
  times = λ a b. a * b;
  over = λ a b. a / b;
}

pub mul_mono : (x y t : ℕ) → x ≤ y → x * t ≤ y * t
mul_mono x y t le = grind arith

abbrev pub whole_float-IsOrdered : IsOrdered whole_float
whole_float-IsOrdered = record {
  Le = λ a b. a ≤ b;
  IsNonneg = λ a. 0 ≤ a;
  of_u64_mono = λ a b le. le;
  times_mono = λ x y t pos le. mul_mono x y t le;
  to_u64_mono = λ x y le. le;
  zero_times = λ t pos. omega arith;
}

-- A heap as a log of what each object has been set to.
pub record Entry : Type 0 where
  pub id : ℕ
  pub count : ℕ
  pub bytes : List ℕ

unfoldable pub count_in : List Entry → ℕ → ℕ
count_in [] o = 0
count_in (e ∷ es) o = if e.id == o then e.count else count_in es o

unfoldable pub bytes_in : List Entry → ℕ → List ℕ
bytes_in [] o = []
bytes_in (e ∷ es) o = if e.id == o then e.bytes else bytes_in es o

unfoldable pub fresh_in : List Entry → ℕ
fresh_in [] = 0
fresh_in (e ∷ es) = max (e.id + 1) (fresh_in es)

abbrev set_count : ℕ → ℕ → List Entry → List Entry
set_count r n es = record { id = r; count = n; bytes = bytes_in es r } ∷ es

abbrev pub log_heap : CoreFoundation
log_heap = record {
  Heap = List Entry;
  create =
      λ bytes es. (some (fresh_in es), record { id = fresh_in es; count = 1; bytes = bytes } ∷ es);
  retain = λ r es. set_count r (count_in es r + 1) es;
  release = λ r es. set_count r (count_in es r - 1) es;
  refs = count_in;
  text = bytes_in;
}

count_in-fresh : (es : List Entry) (o : ℕ) → fresh_in es ≤ o → count_in es o ≡ 0
unfolding count_in fresh_in
count_in-fresh [] o beyond = refl
count_in-fresh (e ∷ es) o beyond = ground (arith, count_in-fresh es o (omega arith))

pub set_count_lem :
    (r n o : ℕ) (es : List Entry)
    → (count_in (set_count r n es) r ≡ n)
      × (o ≢ r → count_in (set_count r n es) o ≡ count_in es o)
      × (bytes_in (set_count r n es) o ≡ bytes_in es o)
unfolding count_in bytes_in
set_count_lem r n o es = (ground arith, ground arith, ground arith)

log_create :
    (bytes : List ℕ) (h h' : List Entry) (r : ℕ)
    → log_heap.create bytes h ≡ (some r, h')
    → (fresh_in h ≡ r) × ((record { id = fresh_in h; count = 1; bytes = bytes } ∷ h) ≡ h')
log_create bytes h h' r made = (cc made, cc made)

pub log_created :
    (bytes : List ℕ) (h h' : List Entry) (r : ℕ)
    → log_heap.create bytes h ≡ (some r, h')
    → (count_in h r ≡ 0) × (count_in h' r ≡ 1) × (bytes_in h' r ≡ bytes)
unfolding count_in bytes_in
log_created bytes h h' r made =
    let (at, new) = log_create bytes h h' r made in
    rw (← new, ← at) (count_in-fresh h (fresh_in h) (omega arith), ground arith, ground arith)

pub log_created_other :
    (bytes : List ℕ) (h h' : List Entry) (r o : ℕ)
    → log_heap.create bytes h ≡ (some r, h')
    → o ≢ r
    → (count_in h' o ≡ count_in h o) × (bytes_in h' o ≡ bytes_in h o)
unfolding count_in bytes_in
log_created_other bytes h h' r o made apart =
    let (at, new) = log_create bytes h h' r made in
    rw (← new) (ground (arith, at), ground (arith, at))

abbrev pub log_heap-IsCounted : IsCounted log_heap
log_heap-IsCounted = record {
  created = log_created;
  created_other = log_created_other;
  retained = λ r h. (set_count_lem r (count_in h r + 1) r h).0;
  retained_other = λ r o h apart. (set_count_lem r (count_in h r + 1) o h).1 apart;
  retained_text = λ r o h. (set_count_lem r (count_in h r + 1) o h).2;
  released = λ r h. (set_count_lem r (count_in h r - 1) r h).0;
  released_other = λ r o h apart. (set_count_lem r (count_in h r - 1) o h).1 apart;
  released_text = λ r o h alive. (set_count_lem r (count_in h r - 1) o h).2;
}

-- The sizes and constants of a 64-bit system.
abbrev pub core_audio_64 : CoreAudio
core_audio_64 = record {
  class_id = 4;
  object_id = 4;
  string_ref = 8;
  uint32 = 4;
  float64 = 8;
  value_range = 16;
  basic_description = 40;
  ranged_description = 56;
  buffer = 16;
  buffers_offset = 8;
  object_unknown = 0;
  transport_usb = 0x75736220;
  terminal_unknown = 0;
  linear_pcm = 0x6C70636D;
  float_packed = 9;
}
