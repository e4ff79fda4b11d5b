-- ===== src/Store/EventStream/Digests.antt =====
-- The files behind the events that `read_verified` returns, and their digests.
use mathlib.Core.List.{Memᴰ}
use mathlib.Core.List.Permᴰ
use temper_ml.Base.{
  Bool-cases, unbind, ok_inj, ok, All, sort_by, Text, sort_by-Perm, All-Perm, ◌≡◌, refl, sym, ap,
  ◌∙◌, subst, inl, inr, some, Memᴰ, List, [], ◌∷◌, ◌++◌,
}
use temper_ml.Domain.Projections.{content_identity}
use temper_ml.Store.Json.{obj, Fields}
use temper_ml.Store.Loads.{loads_canonical_json}
use temper_ml.Store.EventStream.{
  Directory, event_projection, match_event_name, has_json_suffix, StoredEvent,
}
use temper_ml.Store.EventStream.Reading.{
  validate_envelope, empty_chain, linked, verify_event, verify_events, is_skipped, event_files,
  name_lt, Chain,
}
use temper_ml.Store.EventStream.Steps.{verify_event-Verified, Verified}

-- What the file of an event holds: an envelope with the fields of the event, whose projection has
-- the identity of the event. The name of the file spells the number and the digest.
pub record Stored (sha256 : Text → Text) (d : Directory) (e : StoredEvent) : Type 0 where
  pub raw : Text
  pub fields : Fields
  pub held : Memᴰ (e.path, raw) d
  pub named : match_event_name e.path ≡ some (e.sequence, e.identity.value)
  pub loaded : loads_canonical_json raw ≡ ok (obj fields)
  pub valid :
      validate_envelope fields
      ≡ ok (record {
        sequence = e.sequence;
        predecessor_hash = e.predecessor_hash;
        idempotency_key = e.idempotency_key;
        event_type = e.event_type;
        payload = e.payload;
      })
  pub identified : content_identity sha256 event_projection fields ≡ ok e.identity

module _ {A : Type 0} (P : A → Type 0) where
  All-snoc : (xs : List A) (x : A) → All P xs → P x → All P (xs ++ x ∷ [])
  All-snoc [] x a p = (p, tt)
  All-snoc (y ∷ xs) x a p = (a.0, All-snoc xs x a.1 p)

  All-of_Mem : (xs : List A) → ((x : A) → Memᴰ x xs → P x) → All P xs
  All-of_Mem [] h = tt
  All-of_Mem (x ∷ xs) h = (h x (Memᴰ.head refl), All-of_Mem xs (λ y m. h y (Memᴰ.tail m)))

-- the files that are read are entries of the directory
event_files-All :
    (P : Text × Text → Type 0) (d fs : Directory) → event_files d ≡ ok fs → All P d → All P fs
unfolding event_files
event_files-All P [] fs h a = subst (All P) (ok_inj [] fs h) tt
event_files-All P (f ∷ d) fs h a = elim (Bool-cases (is_skipped f.0)) [
  | inl e ↦ event_files-All P d fs (rw e at h) a.1
  | inr e ↦ elim (Bool-cases (has_json_suffix f.0)) [
    | inl k ↦
        let (gs, hg) = unbind (λ gs. ok (f ∷ gs)) fs (event_files d) (rw (e, k) at h) in
        subst (All P) (ok_inj (f ∷ gs) fs hg.1) (a.0, event_files-All P d gs hg.0 a.1)
    | inr k ↦ cc (rw (e, k) at h)
  ]
]

module _ (sha256 : Text → Text) (d : Directory) where
  verify_event-Stored :
      (c c' : Chain) (name raw : Text)
      → Verified sha256 c name raw c'
      → Memᴰ (name, raw) d
      → All (Stored sha256 d) c.events
      → All (Stored sha256 d) c'.events
  unfolding linked
  verify_event-Stored c c' name raw v m a =
      subst (λ x. All (Stored sha256 d) x.events) (sym v.result)
        (All-snoc (Stored sha256 d) c.events _ a (record {
          raw = raw;
          fields = v.fields;
          held = m;
          named = v.named ∙ ap some (cc (v.number, v.digest));
          loaded = v.loaded;
          valid = v.valid;
          identified = v.identified;
        }))

  verify_events-Stored :
      (c c' : Chain) (fs : Directory)
      → verify_events sha256 c fs ≡ ok c'
      → All (λ f. Memᴰ f d) fs
      → All (Stored sha256 d) c.events
      → All (Stored sha256 d) c'.events
  unfolding verify_events
  verify_events-Stored c c' [] h m a = subst (λ x. All (Stored sha256 d) x.events) (ok_inj c c' h) a
  verify_events-Stored c c' (f ∷ fs) h m a =
      let (b, hb) = unbind _ c' (verify_event sha256 c f) h in
      verify_events-Stored b c' fs hb.1 m.1
        (verify_event-Stored c b f.0 f.1 (verify_event-Verified sha256 c f.0 f.1 b hb.0) m.0 a)

  pub read_chain-Stored :
      (c : Chain) (fs : Directory)
      → event_files d ≡ ok fs
      → verify_events sha256 empty_chain (sort_by name_lt fs) ≡ ok c
      → All (Stored sha256 d) c.events
  read_chain-Stored c fs h v =
      let files =
        event_files-All (λ f. Memᴰ f d) d fs h (All-of_Mem (λ f. Memᴰ f d) d (λ f m. m)) in
      verify_events-Stored empty_chain c (sort_by name_lt fs) v
        (All-Perm (λ f. Memᴰ f d) (Permᴰ.symm (sort_by-Perm name_lt fs)) files) tt
