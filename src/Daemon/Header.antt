-- ===== src/Daemon/Header.antt =====
-- daemon/src/shm.rs, create and write_name: the header that the daemon gives the segment, against
-- what plugin/Line6HAL.c reads of it.
use Prim.Native.Nat.{min}
use Prim.Native.String.{String}
use line6_coreaudio.Prelude.{
  ℕ, zero, suc, ◌-◌, ◌≤◌, ◌<◌, ◌≡◌, ◌≢◌, refl, ◌∙◌, ap, Bool, true, false, ◌||◌, List, [], ◌∷◌,
  ◌++◌, Option, none, some, arith, length, take, replicate,
}
use line6_coreaudio.Shm.{Shm, shm_magic, shm_version, sample_rate_hz, name_len, ring_frames_count}
use line6_coreaudio.Plugin.{Globals, returned, dev_channels}
use line6_coreaudio.Plugin.Lifecycle.{
  Mapping, open_failed, map_failed, mapped, has_good_header, attach_shm,
}
use line6_coreaudio.Plugin.Lifecycle.Laws.{attach_shm_lem}
use line6_coreaudio.Plugin.Names.{c_string, or_default, current_name}
use line6_coreaudio.Daemon.Devices.{Device, devices}
use line6_coreaudio.Daemon.Devices.Laws.{In, head, tail}

-- write_name: the array after it is cleared and the first bytes are copied.
unfoldable pub write_name : List ℕ → List ℕ
write_name bytes =
    let n = min (length bytes) (name_len - 1) in take n bytes ++ replicate (name_len - n) 0

-- create; `as_bytes` is str::as_bytes, and the ring keeps the samples that the segment has.
unfoldable pub create :
    {A : Type 0} → (String → List ℕ) → Mapping → Device → ℕ → (ℕ → A) → Option (Shm A)
create as_bytes open_failed device latency_frames ring = none
create as_bytes map_failed device latency_frames ring = none
create as_bytes mapped device latency_frames ring = some (record {
  magic = shm_magic;
  version = shm_version;
  sample_rate = sample_rate_hz;
  channels = device.capture_channels;
  ring_frames = ring_frames_count;
  latency_frames = latency_frames;
  name = write_name (as_bytes device.name);
  write_frames = 0;
  ring = ring;
})

-- No byte of a text is NUL.
abbrev pub NoNul : List ℕ → Type 0
NoNul [] = Unit
NoNul (b ∷ bs) = (b ≢ 0) × NoNul bs

c_string-replicate : (n k : ℕ) → c_string n (replicate k 0) ≡ []
c_string-replicate zero k = refl
c_string-replicate (suc n) zero = refl
c_string-replicate (suc n) (suc k) = refl

c_string-padded :
    (n k : ℕ) (bs : List ℕ) → length bs ≤ n → NoNul bs → c_string n (bs ++ replicate k 0) ≡ bs
c_string-padded n k [] fits clean = c_string-replicate n k
c_string-padded zero k (b ∷ bs) fits clean = absurd (omega arith)
c_string-padded (suc n) k (b ∷ bs) fits (some_byte, clean) =
    ground (arith, c_string-padded n k bs (omega arith) clean)

take-length : (bs : List ℕ) → take (length bs) bs ≡ bs
take-length [] = refl
take-length (b ∷ bs) = ap (λ t. b ∷ t) (take-length bs)

-- Names of up to 31 bytes survive the array.
c_string-write_name : (bs : List ℕ) → length bs ≤ 31 → NoNul bs → c_string 31 (write_name bs) ≡ bs
unfolding write_name
c_string-write_name bs fits clean =
    let whole : min (length bs) (name_len - 1) ≡ length bs = omega arith in
    rw (whole, take-length bs) (c_string-padded 31 (name_len - length bs) bs fits clean)

pub table_channels : (d : Device) → In d devices → d.capture_channels ≡ 8
table_channels d (head e) = rw e
table_channels d (tail (head e)) = rw e
table_channels d (tail (tail m)) = elim m [ ]

or_true : (b : Bool) → (b || true) ≡ true
or_true true = refl
or_true false = refl

or_default_some : (bs : List ℕ) → 0 < length bs → or_default bs ≡ bs
unfolding or_default
or_default_some [] some_byte = absurd (omega arith)
or_default_some (b ∷ bs) some_byte = refl

module _ {F A : Type 0} (as_bytes : String → List ℕ) (d : Device) (latency : ℕ) (ring : ℕ → A)
    (g : Globals F) where
  -- The segment that the daemon creates for a device of its table, whose name is a C string of 1
  -- to 31 bytes, is accepted by AttachShm with the mutex free, and the plugin then shows the
  -- device's channel count and name.
  pub create-attach :
      g.locked ≡ false
      → In d devices
      → 0 < length (as_bytes d.name)
      → length (as_bytes d.name) ≤ 31
      → NoNul (as_bytes d.name)
      → (shm : Shm A) × (create as_bytes mapped d latency ring ≡ some shm)
        × (attach_shm mapped shm g ≡ returned (record g { attached = true }))
        × (dev_channels (record g { attached = true }) shm ≡ d.capture_channels)
        × (current_name (record g { attached = true }) shm ≡ as_bytes d.name)
  unfolding create current_name dev_channels has_good_header
  create-attach free listed some_byte fits clean =
      let e : d.capture_channels ≡ 8 = table_channels d listed in
      (
        _,
        refl,
        attach_shm_lem mapped _ g free
            ∙ ap (λ b. returned (record g { attached = b })) (or_true g.attached),
        rw e,
        rw (c_string-write_name (as_bytes d.name) fits clean)
            (or_default_some (as_bytes d.name) some_byte),
      )
