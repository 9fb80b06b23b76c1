-- ===== src/Plugin/Names.antt =====
-- plugin/Line6HAL.c: DeviceNameCopy and its cache.
pub mod Laws
use line6_coreaudio.Prelude.{
  ℕ, zero, suc, Bool, true, false, not, ◌&&◌, List, [], ◌∷◌, Option, none, some, ◌==◌,
  if◌then◌else◌,
}
use line6_coreaudio.Shm.{Shm, name_len}
use line6_coreaudio.CoreFoundation.{CoreFoundation}
use line6_coreaudio.Plugin.{Globals, Outcome, returned, crashed, ◌>>=◌, lock, unlock}

-- The first `n` bytes of an array up to its first NUL: the C string of a buffer whose byte `n` is
-- set to 0.
abbrev pub c_string : ℕ → List ℕ → List ℕ
c_string zero bs = []
c_string (suc n) [] = []
c_string (suc n) (b ∷ bs) = if b == 0 then [] else b ∷ c_string n bs

-- The bytes of "Line 6".
abbrev pub default_name : List ℕ
default_name = 76 ∷ 105 ∷ 110 ∷ 101 ∷ 32 ∷ 54 ∷ []

-- strcmp(a, b) == 0
abbrev pub same_text : List ℕ → List ℕ → Bool
same_text [] [] = true
same_text [] (b ∷ bs) = false
same_text (a ∷ as_) [] = false
same_text (a ∷ as_) (b ∷ bs) = a == b && same_text as_ bs

-- gCachedName and gCachedNameStr, and the framework's objects. A buffer is kept as its C string.
pub record Names (Heap : Type 0) : Type 0 where
  pub cached : Option ℕ
  pub cached_str : List ℕ
  pub heap : Heap

unfoldable pub or_default : List ℕ → List ℕ
or_default [] = default_name
or_default (b ∷ bs) = b ∷ bs

-- The C string that DeviceNameCopy builds: the segment's name, cut to 31 bytes, or "Line 6".
unfoldable pub current_name : {F A : Type 0} → Globals F → Shm A → List ℕ
unfolding or_default
current_name g shm = or_default (if g.attached then c_string 31 shm.name else [])

module _ (cf : CoreFoundation) where
  -- CFRelease of the old string, if there is one.
  abbrev pub drop_cached : Option ℕ → cf.Heap → cf.Heap
  drop_cached none h = h
  drop_cached (some r) h = cf.release r h

  -- Whether the cache holds an object for the text.
  abbrev pub is_cached : Option ℕ → Bool → Bool
  is_cached none same = false
  is_cached (some r) same = same

  pub refresh : List ℕ → Names cf.Heap → Names cf.Heap
  refresh buf n =
      if is_cached n.cached (same_text buf n.cached_str)
      then n
      else let made = cf.create buf (drop_cached n.cached n.heap) in
        record { cached = made.0; cached_str = buf; heap = made.1 }

  hand_out_of : Option ℕ → Names cf.Heap → Outcome (ℕ × Names cf.Heap)
  hand_out_of none n = crashed
  hand_out_of (some r) n = returned (r, record n { heap = cf.retain r n.heap })

  -- CFRetain of the cached object; there is none to retain after a failed creation.
  pub hand_out : Names cf.Heap → Outcome (ℕ × Names cf.Heap)
  unfolding hand_out_of
  hand_out n = hand_out_of n.cached n

  -- DeviceNameCopy
  pub device_name_copy :
      {F A : Type 0} → Shm A → Names cf.Heap → Globals F → Outcome (ℕ × Names cf.Heap × Globals F)
  device_name_copy shm n g = do
    g1 ← lock g
    p ← hand_out (refresh (current_name g1 shm) n)
    returned (p.0, p.1, unlock g1)
