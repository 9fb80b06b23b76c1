-- ===== src/Plugin/Interface/Answers.antt =====
-- plugin/Line6HAL.c, gInterface: which request of a host comes back.
use line6_coreaudio.Prelude.{ℕ, ◌≡◌, refl, Bool, false, not, ◌&&◌, ◌==◌, inl, inr}
use line6_coreaudio.Float64.{Float64}
use line6_coreaudio.CoreAudio.{CoreAudio}
use line6_coreaudio.CoreFoundation.{CoreFoundation, IsCounted}
use line6_coreaudio.Prelude.{◌<◌, u64_mod, Bool-cases, ◌∙◌}
use line6_coreaudio.Plugin.{Globals, Outcome, returned, ◌>>=◌, object_device}
use line6_coreaudio.Plugin.Names.{Names, c_string, default_name, or_default, current_name}
use line6_coreaudio.Plugin.Names.Laws.{IsOwned, CanCreate, device_name_copy_lem}
use line6_coreaudio.Plugin.Property.Query.{Qualifier}
use line6_coreaudio.Shm.{Shm}
use line6_coreaudio.Plugin.Property.{Address, ok}
use line6_coreaudio.Plugin.Property.Value.{string, created}
use line6_coreaudio.Plugin.Property.Shape.{query-Shape}
use line6_coreaudio.Plugin.Interface.{
  Request, Response, result, count, status, answer_data, answer_time, answer_samples, serve,
  queries_interface, adds_ref, releases, initializes, creates_device, destroys_device, adds_client,
  removes_client, performs_change, aborts_change, has, asks_settable, asks_size, asks_data,
  sets_data, starts, stops, asks_time, asks_will_do, begins, does, ends,
}
use line6_coreaudio.Plugin.Interface.Safety.{
  Comes, IsSound, Kept, same-Kept, add_ref-Comes, release-Comes, query_interface-Comes,
  stop_io-Comes, do_io-Comes, start_io-Comes, initialize-Comes, get_zero_time_stamp-Comes,
}

-- The request that never comes back: a StartIO that has to attach the segment.
abbrev pub waits_forever : {F A : Type 0} → Request A → Globals F → Bool
waits_forever (starts mine device m now shm) g =
    mine && device == object_device && g.io_running == 0 && not g.attached
waits_forever _ g = false

module _ (ca : CoreAudio) (cf : CoreFoundation) (law : IsCounted cf) (f : Float64) {A : Type 0}
    (silence : A) where
  -- What a request's arguments may be: a write count is a uint64_t, and the framework can make a
  -- string of the device's name and of the default one.
  abbrev pub IsSane : Request A → Type 0
  IsSane (starts mine device m now shm) = shm.write_frames < u64_mod
  IsSane (asks_data obj a q in_size shm) =
      CanCreate cf law default_name × CanCreate cf law (or_default (c_string 31 shm.name))
  IsSane _ = Unit {0}

  -- A request that comes back, with the variables and the name cache kept.
  pub record Answers (r : Request A) (n : Names cf.Heap) (g : Globals f.Carrier) : Type 0 where
    pub response : Response ca f.Carrier A
    pub names : Names cf.Heap
    pub after : Globals f.Carrier
    pub back : serve ca cf f silence r n g ≡ returned (response, names, after)
    pub owned : IsOwned cf law names
    pub kept : Kept g after

  module _ (n : Names cf.Heap) (g : Globals f.Carrier) (s : IsSound g) (o : IsOwned cf law n) where
    -- A request that only reads, and one whose handler comes back with a result.
    reads :
        (r : Request A) (x : Response ca f.Carrier A)
        → serve ca cf f silence r n g ≡ returned (x, n, g)
        → Answers r n g
    reads r x back = record {
      response = x;
      names = n;
      after = g;
      back = back;
      owned = o;
      kept = same-Kept g s;
    }

    writes :
        {R : Type 0} (r : Request A) (call : Outcome (R × Globals f.Carrier))
        (reply : R → Response ca f.Carrier A)
        → Comes call g
        → serve ca cf f silence r n g ≡ (call >>= λ p. returned (reply p.0, n, p.1))
        → Answers r n g
    writes r call reply (x, g', came, kept) dispatch = record {
      response = reply x;
      names = n;
      after = g';
      back = dispatch ∙ rw came refl;
      owned = o;
      kept = kept;
    }

    name_made :
        (shm : Shm A)
        → CanCreate cf law default_name
        → CanCreate cf law (or_default (c_string 31 shm.name))
        → CanCreate cf law (current_name g shm)
    unfolding current_name or_default
    name_made shm plain own = elim (Bool-cases g.attached) [
      | inl there ↦ rw there own
      | inr absent ↦ rw absent plain
    ]

    data-Answers :
        (obj : ℕ) (a : Address) (q : Qualifier) (in_size : ℕ) (shm : Shm A)
        → IsSane (asks_data obj a q in_size shm)
        → Answers (asks_data obj a q in_size shm) n g
    unfolding serve
    data-Answers obj a q in_size shm (plain, own) = elim (query-Shape ca cf shm g obj a q in_size) [
      | inl (r, back) ↦ reads _ (answer_data r) (rw (back n) refl)
      | inr naming ↦
          let (x, n', named, shown, counted, cached, str, owned) =
            device_name_copy_lem cf law shm n g s.free o (name_made shm plain own) in
          record {
            response = answer_data (ok (ca.string_ref, string (created x)));
            names = n';
            after = g;
            back = rw (naming n, named) refl;
            owned = owned;
            kept = same-Kept g s;
          }
    ]

    pub fine-Answers : (r : Request A) → IsSane r → waits_forever r g ≡ false → Answers r n g
    unfolding serve
    fine-Answers (queries_interface mine iid out_null) sane fine =
        let (r, out, g', back, kept) = query_interface-Comes g s mine iid out_null in
        record {
          response = result r out;
          names = n;
          after = g';
          back = rw back refl;
          owned = o;
          kept = kept;
        }
    fine-Answers (adds_ref mine) sane fine = writes _ _ count (add_ref-Comes g s mine) refl
    fine-Answers (releases mine) sane fine = writes _ _ count (release-Comes g s mine) refl
    fine-Answers (initializes mine host numer denom m shm thread) sane fine =
        let (r, runs, g', back, kept) = initialize-Comes f g s mine host numer denom m shm thread in
        record {
          response = status r;
          names = n;
          after = g';
          back = rw back refl;
          owned = o;
          kept = kept;
        }
    fine-Answers (asks_data obj a q in_size shm) sane fine = data-Answers obj a q in_size shm sane
    fine-Answers (starts mine device m now shm) sane fine =
        writes _ _ status (start_io-Comes g s mine device m now shm sane fine) refl
    fine-Answers (stops mine device) sane fine =
        writes _ _ status (stop_io-Comes g s mine device) refl
    fine-Answers (asks_time mine device now) sane fine =
        let (r, t, g', back, kept) = get_zero_time_stamp-Comes f g s mine device now in
        record {
          response = answer_time r t;
          names = n;
          after = g';
          back = rw back refl;
          owned = o;
          kept = kept;
        }
    fine-Answers (does op buffer in_frames cycle shm ring) sane fine =
        writes _ _ answer_samples (do_io-Comes g s silence op buffer in_frames cycle shm ring) refl
    fine-Answers creates_device sane fine = reads _ _ refl
    fine-Answers destroys_device sane fine = reads _ _ refl
    fine-Answers adds_client sane fine = reads _ _ refl
    fine-Answers removes_client sane fine = reads _ _ refl
    fine-Answers performs_change sane fine = reads _ _ refl
    fine-Answers aborts_change sane fine = reads _ _ refl
    fine-Answers (has obj a) sane fine = reads _ _ refl
    fine-Answers (asks_settable obj a) sane fine = reads _ _ refl
    fine-Answers (asks_size obj a) sane fine = reads _ _ refl
    fine-Answers sets_data sane fine = reads _ _ refl
    fine-Answers (asks_will_do op) sane fine = reads _ _ refl
    fine-Answers begins sane fine = reads _ _ refl
    fine-Answers ends sane fine = reads _ _ refl
