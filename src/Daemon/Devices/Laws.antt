-- ===== src/Daemon/Devices/Laws.antt =====
-- What the bus scan of daemon/src/devices.rs finds.
use line6_coreaudio.Prelude.{
  ℕ, ◌≡◌, ◌≢◌, refl, false, List, [], ◌∷◌, Option, none, some, arith, ◌==◌, ==_iff, ℕ_discrete,
}
use line6_coreaudio.Daemon.Devices.{
  Device, Ids, vid_line6, devices, find_product, or_else, scan, find_connected,
}

-- An element of a list.
pub data In {ℓ} {A : Type ℓ} (a : A) : List A → Type ℓ where
  head : {x : A} {xs : List A} → a ≡ x → In a (x ∷ xs)
  tail : {x : A} {xs : List A} → In a xs → In a (x ∷ xs)

not-nil {ℓ} : {A : Type ℓ} {a : A} → In a [] → ⊥
not-nil h = elim h [ ]

-- Both properties of the search for a row, as one statement on its outcome.
abbrev RowFound : ℕ → List Device → Option Device → Type 0
RowFound product ds none = (d : Device) → In d ds → d.product_id ≢ product
RowFound product ds (some d) = In d ds × (d.product_id ≡ product)

row_later :
    (product : ℕ) (x : Device) (ds : List Device) (o : Option Device)
    → x.product_id ≢ product
    → RowFound product ds o
    → RowFound product (x ∷ ds) o
row_later product x ds none other found = λ d m. elim m [ head e ↦ rw e other | tail n ↦ found d n ]
row_later product x ds (some d) other found = (tail found.0, found.1)

==_ne : (a b : ℕ) → a ≢ b → (a == b) ≡ false
==_ne a b apart = ground arith

find_product-RowFound :
    (product : ℕ) (ds : List Device) → RowFound product ds (find_product product ds)
unfolding find_product
find_product-RowFound product [] = λ d m. absurd (not-nil m)
find_product-RowFound product (x ∷ ds) = elim (ℕ_discrete x.product_id product) [
  | yes same ↦ rw ((==_iff x.product_id product).1 same) (head refl, same)
  | no other ↦
      rw (==_ne x.product_id product other)
        (row_later product x ds (find_product product ds) other (find_product-RowFound product ds))
]

-- The outcome of a scan of the bus: a row of the table whose device is there, or no device of the
-- table is there.
abbrev pub ScanFound : List (Option Ids) → Option Device → Type 0
ScanFound bus none =
    (ids : Ids) (d : Device)
    → In (some ids) bus
    → ids.vendor ≡ vid_line6
    → In d devices
    → d.product_id ≢ ids.product
ScanFound bus (some d) =
    In d devices
    × (ids : Ids) × In (some ids) bus
    × (ids.vendor ≡ vid_line6)
    × (d.product_id ≡ ids.product)

scan_later :
    (x : Option Ids) (bus : List (Option Ids)) (o : Option Device)
    → ((ids : Ids) (d : Device)
        → some ids ≡ x
        → ids.vendor ≡ vid_line6
        → In d devices
        → d.product_id ≢ ids.product)
    → ScanFound bus o
    → ScanFound (x ∷ bus) o
scan_later x bus none unknown found = λ ids d m ours row. elim m [
  | head e ↦ unknown ids d e ours row
  | tail n ↦ found ids d n ours row
]
scan_later x bus (some d) unknown found =
    let (row, ids, m, ours, same) = found in (row, ids, tail m, ours, same)

scan_ours :
    (ids : Ids) (bus : List (Option Ids)) (o rest : Option Device)
    → ids.vendor ≡ vid_line6
    → RowFound ids.product devices o
    → ScanFound bus rest
    → ScanFound (some ids ∷ bus) (or_else o rest)
scan_ours ids bus none rest ours found later =
    scan_later (some ids) bus rest
      (λ other d e vendor row. let same : other ≡ ids = cc e in rw same (found d row)) later
scan_ours ids bus (some d) rest ours found later = (found.0, ids, head refl, ours, found.1)

scan-ScanFound : (bus : List (Option Ids)) → ScanFound bus (scan bus)
unfolding scan
scan-ScanFound [] = λ ids d m. absurd (not-nil m)
scan-ScanFound (none ∷ bus) = scan_later none bus (scan bus) (λ ids d e. cc) (scan-ScanFound bus)
scan-ScanFound (some ids ∷ bus) = elim (ℕ_discrete ids.vendor vid_line6) [
  | yes ours ↦ rw ((==_iff ids.vendor vid_line6).1 ours) (
      scan_ours ids bus (find_product ids.product devices) (scan bus) ours
        (find_product-RowFound ids.product devices) (scan-ScanFound bus))
  | no foreign ↦ rw (==_ne ids.vendor vid_line6 foreign) (
      scan_later (some ids) bus (scan bus)
        (λ other d e vendor row.
          absurd (foreign (let same : other ≡ ids = cc e in rw (← same) vendor)))
        (scan-ScanFound bus))
]

-- If libusb starts, find_connected gives a row of the table with the product id of a Line 6 device
-- on the bus, or nothing, and then no Line 6 device on the bus has the product id of a row.
pub find_connected-ScanFound : (bus : List (Option Ids)) → ScanFound bus (find_connected (some bus))
unfolding find_connected
find_connected-ScanFound bus = scan-ScanFound bus
