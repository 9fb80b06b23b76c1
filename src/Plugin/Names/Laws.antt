-- ===== src/Plugin/Names/Laws.antt =====
-- DeviceNameCopy of plugin/Line6HAL.c: the text of the string that it hands out, its identity, and
-- who owns a reference.
use line6_coreaudio.Prelude.{
  ℕ, ◌+◌, ◌<◌, ◌≤◌, ◌≡◌, ◌≢◌, refl, sym, ◌∙◌, ap, true, false, arith, List, [], ◌∷◌, Option, some,
  Bool-cases, Option-cases, inl, inr,
}
use line6_coreaudio.Shm.{Shm}
use line6_coreaudio.CoreFoundation.{CoreFoundation, IsCounted}
use line6_coreaudio.Plugin.{Globals, returned}
use line6_coreaudio.Plugin.Names.{
  Names, same_text, current_name, is_cached, drop_cached, refresh, hand_out, hand_out_of,
  device_name_copy,
}

pub same_text_refl : (a : List ℕ) → same_text a a ≡ true
same_text_refl [] = refl
same_text_refl (x ∷ a) = ground (arith, same_text_refl a)

-- strcmp tells exactly the equal texts.
same_text-eq : (a b : List ℕ) → same_text a b ≡ true → a ≡ b
same_text-eq [] [] e = refl
same_text-eq [] (y ∷ b) e = cc
same_text-eq (x ∷ a) [] e = cc
same_text-eq (x ∷ a) (y ∷ b) e = ground (arith, same_text-eq a b)

module _ (cf : CoreFoundation) (law : IsCounted cf) where
  open cf use {create, retain, release, refs, text}

  -- The cache owns a reference to its object, whose text is the cached string.
  unfoldable pub IsOwned : Names cf.Heap → Type 0
  IsOwned n = (r : ℕ) → n.cached ≡ some r → (0 < refs n.heap r) × (text n.heap r ≡ n.cached_str)

  -- The framework can make a string of the bytes.
  abbrev pub CanCreate : List ℕ → Type 0
  CanCreate bytes = (h : cf.Heap) → (r : ℕ) × (h' : cf.Heap) × (create bytes h ≡ (some r, h'))

  module _ (buf : List ℕ) (n : Names cf.Heap) where
    refresh_hit : (r : ℕ) → n.cached ≡ some r → n.cached_str ≡ buf → refresh cf buf n ≡ n
    unfolding refresh
    refresh_hit r have same = rw (have, same, same_text_refl buf)

    -- The old text differs, or there is none: a new string is made.
    refresh_miss :
        is_cached cf n.cached (same_text buf n.cached_str) ≡ false
        → refresh cf buf n ≡ record {
          cached = (create buf (drop_cached cf n.cached n.heap)).0;
          cached_str = buf;
          heap = (create buf (drop_cached cf n.cached n.heap)).1;
        }
    unfolding refresh
    refresh_miss miss = rw miss

    -- The cache after the first half of DeviceNameCopy.
    record Refreshed : Type 0 where
      r : ℕ
      cached : (refresh cf buf n).cached ≡ some r
      cached_str : (refresh cf buf n).cached_str ≡ buf
      alive : 0 < refs (refresh cf buf n).heap r
      shown : text (refresh cf buf n).heap r ≡ buf

    refreshed_new :
        CanCreate buf → is_cached cf n.cached (same_text buf n.cached_str) ≡ false → Refreshed
    refreshed_new can miss =
        let (r, h', made) = can (drop_cached cf n.cached n.heap) in
        let (zero_before, one, shown) =
          law.created buf (drop_cached cf n.cached n.heap) h' r made in
        record {
          r = r;
          cached = rw (refresh_miss miss, made);
          cached_str = rw (refresh_miss miss);
          alive = rw (refresh_miss miss, made) (omega arith);
          shown = rw (refresh_miss miss, made) shown;
        }

    refreshed : CanCreate buf → IsOwned n → Refreshed
    unfolding IsOwned
    refreshed can owned = elim (Option-cases n.cached) [
      | inl nothing ↦ refreshed_new can (rw nothing)
      | inr (r, have) ↦ elim (Bool-cases (same_text buf n.cached_str)) [
        | inl same ↦
            let e : n.cached_str ≡ buf = sym (same_text-eq buf n.cached_str same) in
            let hit : refresh cf buf n ≡ n = refresh_hit r have e in
            record {
              r = r;
              cached = rw hit have;
              cached_str = rw hit e;
              alive = rw hit (owned r have).0;
              shown = rw hit ((owned r have).1 ∙ e);
            }
        | inr changed ↦ refreshed_new can (rw (have, changed))
      ]
    ]

  hand_out-eq :
      (n : Names cf.Heap) (r : ℕ)
      → n.cached ≡ some r
      → hand_out cf n ≡ returned (r, record n { heap = retain r n.heap })
  unfolding hand_out
  hand_out-eq n r have = ap (λ o. hand_out_of cf o n) have

  module _ {F A : Type 0} (shm : Shm A) (n : Names cf.Heap) (g : Globals F) where
    current_name_locked : current_name (record g { locked = true }) shm ≡ current_name g shm
    unfolding current_name
    current_name_locked = refl

    device_name_copy-eq :
        (r : ℕ)
        → g.locked ≡ false
        → (refresh cf (current_name g shm) n).cached ≡ some r
        → device_name_copy cf shm n g
          ≡ returned (
            r,
            record (refresh cf (current_name g shm) n) {
              heap = retain r (refresh cf (current_name g shm) n).heap;
            },
            g,
          )
    unfolding device_name_copy
    device_name_copy-eq r free have =
        ground (arith, current_name_locked, hand_out-eq (refresh cf (current_name g shm) n) r have)

    -- With the mutex free and a cache that owns its string, where the framework can make a string
    -- of the name, DeviceNameCopy comes back with a string whose text is the present model name;
    -- it has a reference for the caller beside the cache's, and the cache owns it with its text.
    pub device_name_copy_lem :
        g.locked ≡ false
        → IsOwned n
        → CanCreate (current_name g shm)
        → (r : ℕ) × (n' : Names cf.Heap) × (device_name_copy cf shm n g ≡ returned (r, n', g))
          × (text n'.heap r ≡ current_name g shm)
          × (2 ≤ refs n'.heap r)
          × (n'.cached ≡ some r)
          × (n'.cached_str ≡ current_name g shm)
          × IsOwned n'
    unfolding IsOwned
    device_name_copy_lem free owned can =
        let got : Refreshed (current_name g shm) n = refreshed (current_name g shm) n can owned in
        let n1 : Names cf.Heap = refresh cf (current_name g shm) n in
        (
          got.r,
          record n1 { heap = retain got.r n1.heap },
          device_name_copy-eq got.r free got.cached,
          law.retained_text got.r got.r n1.heap ∙ got.shown,
          omega (arith, law.retained got.r n1.heap, got.alive),
          got.cached,
          got.cached_str,
          λ r e.
              let same : got.r ≡ r = cc (got.cached, e) in
              rw (← same) (
                omega (arith, law.retained got.r n1.heap, got.alive),
                law.retained_text got.r got.r n1.heap ∙ got.shown ∙ sym got.cached_str,
              ),
        )

    -- With the mutex free, while the cached text is the present model name, a query returns the
    -- cached string, and the only change is one more reference for the caller.
    pub device_name_copy_again :
        (r : ℕ)
        → g.locked ≡ false
        → n.cached ≡ some r
        → n.cached_str ≡ current_name g shm
        → device_name_copy cf shm n g ≡ returned (r, record n { heap = retain r n.heap }, g)
    device_name_copy_again r free have same =
        let hit : refresh cf (current_name g shm) n ≡ n =
          refresh_hit (current_name g shm) n r have same in
        device_name_copy-eq r free (rw hit have) ∙ rw hit

    -- With the mutex free and a string for the new name that can be made: when the model name
    -- differs from the cached text, a query returns a new string with the new name and two
    -- references, and a string that a client still holds keeps its text; the cache gives up its
    -- reference to it.
    pub device_name_copy_swapped :
        (r : ℕ)
        → g.locked ≡ false
        → n.cached ≡ some r
        → 1 < refs n.heap r
        → same_text (current_name g shm) n.cached_str ≡ false
        → CanCreate (current_name g shm)
        → (r' : ℕ) × (n' : Names cf.Heap) × (device_name_copy cf shm n g ≡ returned (r', n', g))
          × (r ≢ r')
          × (refs n'.heap r + 1 ≡ refs n.heap r)
          × (text n'.heap r ≡ text n.heap r)
          × (refs n'.heap r' ≡ 2)
          × (text n'.heap r' ≡ current_name g shm)
    device_name_copy_swapped r free have held changed can =
        let buf : List ℕ = current_name g shm in
        let h : cf.Heap = drop_cached cf n.cached n.heap in
        let dropped : h ≡ release r n.heap = ap (λ o. drop_cached cf o n.heap) have in
        let (r', h', made) = can h in
        let miss : refresh cf buf n
            ≡ record { cached = (create buf h).0; cached_str = buf; heap = (create buf h).1 } =
          refresh_miss buf n (rw have changed) in
        let new : refresh cf buf n ≡ record { cached = some r'; cached_str = buf; heap = h' } =
          miss
          ∙ ap (λ (p : Option ℕ × cf.Heap). record { cached = p.0; cached_str = buf; heap = p.1 })
              made in
        let (zero_before, one, shown) = law.created buf h h' r' made in
        let less : refs h r + 1 ≡ refs n.heap r =
          rw dropped (omega (arith, law.released r n.heap)) in
        let apart : r ≢ r' = λ e. omega (arith, ap (refs h) e) in
        let (kept, text_kept) = law.created_other buf h h' r' r made apart in
        (
          r',
          record { cached = some r'; cached_str = buf; heap = retain r' h' },
          device_name_copy-eq r' free (ap (λ (x : Names cf.Heap). x.cached) new)
              ∙ ap (λ (x : Names cf.Heap). returned (r', record x { heap = retain r' x.heap }, g))
                  new,
          apart,
          omega (arith, law.retained_other r' r h' apart),
          law.retained_text r' r h'
              ∙ text_kept
              ∙ rw dropped (law.released_text r r n.heap (omega (arith, law.released r n.heap))),
          omega (arith, law.retained r' h'),
          law.retained_text r' r' h' ∙ shown,
        )
