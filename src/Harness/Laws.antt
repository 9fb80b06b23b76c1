-- ===== src/Harness/Laws.antt =====
-- plugin/haltest.c, sweep: what it finds in plugin/Line6HAL.c.
use line6_coreaudio.Prelude.{
  ℕ, ◌≤◌, ◌≡◌, inl, inr, refl, true, false, arith, Bool-cases, List, [], ◌∷◌, some, ltb,
  if◌then◌else◌,
}
use line6_coreaudio.Shm.{Shm}
use line6_coreaudio.CoreAudio.{CoreAudio}
use line6_coreaudio.CoreFoundation.{CoreFoundation, IsCounted}
use line6_coreaudio.Plugin.{Globals, Outcome, returned}
use line6_coreaudio.Plugin.Names.{Names, current_name}
use line6_coreaudio.Plugin.Names.Laws.{IsOwned, CanCreate, same_text_refl}
use line6_coreaudio.Plugin.Property.{Address, ok}
use line6_coreaudio.Plugin.Property.Size.{get_property_data_size, has_property}
use line6_coreaudio.Plugin.Property.Value.{Value}
use line6_coreaudio.Plugin.Property.Agree.{IsLaidOut}
use line6_coreaudio.Plugin.Property.Laws.{has_size, has_property_sound}
use line6_coreaudio.Harness.{
  Swept, each, stable_size, compared, data_problems, buffer_size, null_qualifier, probe_data, probe,
  sweep,
}
use line6_coreaudio.Harness.Repeat.{twice}
use line6_coreaudio.Plugin.Property.Shape.{query-Shape}
use line6_coreaudio.Harness.Sizes.{IsShort, size-FitsBuffer, within_buffer}

module _ (ca : CoreAudio) (laid : IsLaidOut ca) (short : IsShort ca) (encode : Value ca → List ℕ)
    (cf : CoreFoundation) (law : IsCounted cf) {F A : Type 0} (shm : Shm A) (g : Globals F)
    (free : g.locked ≡ false) (can : CanCreate cf law (current_name g shm)) where
  -- From any cache that owns its string the calls find no problem and leave such a cache.
  abbrev Clean : (Names cf.Heap → Globals F → Outcome (Swept (Names cf.Heap) F)) → Type 0
  Clean body =
      (n : Names cf.Heap)
      → IsOwned cf law n
      → (n' : Names cf.Heap) × (body n g ≡ returned (0, n', g)) × IsOwned cf law n'

  each-Clean :
      {X : Type 0} (body : X → Names cf.Heap → Globals F → Outcome (Swept (Names cf.Heap) F))
      → ((x : X) → Clean (body x))
      → (xs : List X) → Clean (each body xs)
  unfolding each
  each-Clean body clean [] n owned = (n, refl, owned)
  each-Clean body clean (x ∷ xs) n owned =
      let (n1, ran1, owned1) = clean x n owned in
      let (n2, ran2, owned2) = each-Clean body clean xs n1 owned1 in (n2, rw (ran1, ran2), owned2)

  equal_data :
      (k element : ℕ) (v : Value ca)
      → element ≡ 0
      → data_problems ca encode k element (ok (k, v)) (ok (k, v)) ≡ 0
  unfolding data_problems
  equal_data k element v main = ground (arith, same_text_refl (compared ca encode k v))

  same_size : (k : ℕ) → stable_size (ok k) (ok k) ≡ some k
  unfolding stable_size
  same_size k = ground arith

  admitted_size :
      (obj : ℕ) (a : Address)
      → has_property ca g obj a ≡ true
      → (k : ℕ) × (get_property_data_size ca g obj a ≡ ok k) × (k ≤ buffer_size)
  unfolding has_property
  admitted_size obj a has =
      let (k, reported) = has_size (get_property_data_size ca g obj a) has in
      (k, reported, within_buffer ca short _ k reported (size-FitsBuffer ca short g obj a))

  -- The two data queries of a property that has been admitted with a size.
  probe_data-Clean :
      (obj : ℕ) (a : Address) (k : ℕ)
      → has_property ca g obj a ≡ true
      → get_property_data_size ca g obj a ≡ ok k
      → k ≤ buffer_size
      → Clean (probe_data ca encode cf shm obj a (some k))
  unfolding probe_data
  probe_data-Clean obj a k has reported fits n owned =
      let (main, settable, (size, v, n', again, came, exact)) =
        has_property_sound ca cf shm null_qualifier k n g law laid obj a free owned can has
          (rw reported (omega arith)) in
      let (r, m1, m2, q1, q2, owned1, owned2) =
        twice ca cf law shm g free can _ (query-Shape ca cf shm g obj a null_qualifier k) n owned in
      let sized : size ≡ k = cc (again, reported) in
      let reply : r ≡ ok (k, v) = cc (q1, came, sized) in
      let room : (if ltb buffer_size k then buffer_size else k) ≡ k = ground arith in
      (m2, rw (room, q1, q2, reply, equal_data k a.element v main), owned2)

  probe-Clean : (obj : ℕ) (a : Address) → Clean (probe ca encode cf shm obj a)
  unfolding probe
  probe-Clean obj a n owned = elim (Bool-cases (has_property ca g obj a)) [
    | inl has ↦
        let (k, reported, fits) = admitted_size obj a has in
        let (m, ran, owned') = probe_data-Clean obj a k has reported fits n owned in
        (m, rw (has, reported, same_size) ran, owned')
    | inr none_there ↦ (n, rw none_there, owned)
  ]

  -- With the mutex free, sizes as in the framework's headers, a name that a string can be made of and
  -- a cache that owns its string, the sweep over all its objects, scopes, elements and selectors
  -- finds no problem, and the globals stay.
  pub sweep-Clean :
      (n : Names cf.Heap)
      → IsOwned cf law n
      → (n' : Names cf.Heap) × (sweep ca encode cf shm n g ≡ returned (0, n', g))
        × IsOwned cf law n'
  unfolding sweep
  sweep-Clean =
      each-Clean _
        (λ obj.
          each-Clean _
            (λ scope. each-Clean _ (λ element. each-Clean _ (λ sel. probe-Clean obj _) _) _) _)
        _
