-- ===== src/Store/WriteOnce/Records.antt =====
-- The promises of a write-once store: a record that was written is read back, whatever is written
-- later, and a record that is read has the identity that it was asked for.
use temper_ml.Base.{
  ◌==◌, nat_eq, list_eq, eq_iff, eq_refl, Bool-cases, Option-cases, unbind, ok_inj, when-ok, Result,
  ok, err, Text, codes, find, put, find-put, ◌≡◌, refl, sym, ap, ◌∙◌, subst, subst₂, inl, inr,
  false, none, some, List, ◌∷◌, arith,
}
use temper_ml.Store.Json.{obj, Fields}
use temper_ml.Store.Canonical.{dumps_canonical_json, CanonicalError}
use temper_ml.Store.Loads.{loads_canonical_json}
use temper_ml.Store.Loads.RoundTrip.{loads_canonical_json-dumps_canonical_json}
use temper_ml.Store.Scanner.RoundTrip.{Canonical}
use temper_ml.Domain.Projections.{
  identity_eq, content_identity, ProjectionError, HashProjection, ContentIdentity,
}
use temper_ml.Store.Paths.{safe_relative_path, below}
use temper_ml.Store.WriteOnce.{
  Files, from_path, from_dumps, from_hash, mapping_of, immutable_path, stored_mapping,
  stored_record, verify_immutable_record, write_at, write_projected_json, read_projected_json,
  derived_path, write_derived_state, exists, corrupt_identity, WrittenRecord,
}

from_dumps-lem : (m : Result CanonicalError Text) (t : Text) → from_dumps m ≡ ok t → m ≡ ok t
unfolding from_dumps
from_dumps-lem (ok s) t h = ap ok (ok_inj s t h)
from_dumps-lem (err e) t h = cc h

from_hash-lem :
    (m : Result ProjectionError ContentIdentity) (i : ContentIdentity)
    → from_hash m ≡ ok i
    → m ≡ ok i
unfolding from_hash
from_hash-lem (ok j) i h = ap ok (ok_inj j i h)
from_hash-lem (err e) i h = cc h

immutable_path-head :
    (area : Text) (i : ContentIdentity) (path : List Text)
    → immutable_path area i ≡ ok path
    → (rest : List Text) × (path ≡ codes "immutable" ∷ rest)
unfolding immutable_path
immutable_path-head area i path h =
    let (parts, hp) = unbind _ path (from_path (safe_relative_path area)) h in
    (_, sym (ok_inj _ path hp.1))

derived_path-head :
    (name : Text) (path : List Text)
    → derived_path name ≡ ok path
    → (rest : List Text) × (path ≡ codes "derived" ∷ rest)
unfolding derived_path
derived_path-head name path h =
    let (parts, hp) = unbind _ path (from_path (safe_relative_path name)) h in
    (_, sym (ok_inj _ path hp.1))

write_at-lem :
    (sha256 : Text → Text) (files : Files) (path : List Text) (p : HashProjection)
    (i : ContentIdentity) (t : Text) (w : Files × WrittenRecord)
    → write_at sha256 files path p i t ≡ ok w
    → (find path files ≡ none) × (w ≡ (put path t files, record { identity = i; path = path }))
unfolding write_at
write_at-lem sha256 files path p i t w h = elim (Option-cases (find path files)) [
  | inl n ↦ (n, sym (ok_inj _ w (rw (write_at, n) at h)))
  | inr s ↦ cc (unbind _ w (stored_record sha256 p i s.0) (rw (write_at, s.1) at h)).1.1
]

derived_other :
    (below rest : List Text) → (codes "derived" ∷ below == codes "immutable" ∷ rest) ≡ false
derived_other below rest = ground arith

module _ (sha256 : Text → Text) where
  pub record Recorded (files : Files) (area : Text) (p : HashProjection) (r : Fields)
      (w : Files × WrittenRecord) : Type 0 where
    pub text : Text
    pub identity : ContentIdentity
    pub path : List Text
    pub dumped : dumps_canonical_json (obj r) ≡ ok text
    pub identified : content_identity sha256 p r ≡ ok identity
    pub placed : immutable_path area identity ≡ ok path
    pub absent : find path files ≡ none
    pub result : w ≡ (put path text files, record { identity = identity; path = path })

  write_projected_json-Recorded :
      (files : Files) (area : Text) (p : HashProjection) (r : Fields) (w : Files × WrittenRecord)
      → Canonical (obj r)
      → write_projected_json sha256 files area p r ≡ ok w
      → Recorded files area p r w
  unfolding write_projected_json mapping_of
  write_projected_json-Recorded files area p r w c h =
      let (t, ht) = unbind _ w (from_dumps (dumps_canonical_json (obj r))) h in
      let dumped = from_dumps-lem (dumps_canonical_json (obj r)) t ht.0 in
      let (fs, hf) = unbind _ w (mapping_of (loads_canonical_json t)) ht.1 in
      let same : fs ≡ r =
        ok_inj fs r (
          sym hf.0
          ∙ ap mapping_of (loads_canonical_json-dumps_canonical_json (obj r) t c dumped)) in
      let (i, hi) = unbind _ w (from_hash (content_identity sha256 p fs)) hf.1 in
      let (path, hp) = unbind _ w (immutable_path area i) hi.1 in
      let k = write_at-lem sha256 files path p i t w hp.1 in
      record {
        text = t;
        identity = i;
        path = path;
        dumped = dumped;
        identified =
            subst (λ x. content_identity sha256 p x ≡ ok i) same
              (from_hash-lem (content_identity sha256 p fs) i hi.0);
        placed = hp.0;
        absent = k.0;
        result = k.1;
      }

  -- The calls that change the files.
  pub data Step : Files → Files → Type 0 where
    write :
        {files : Files} (area : Text) (p : HashProjection) (r : Fields) (w : Files × WrittenRecord)
        → Canonical (obj r)
        → write_projected_json sha256 files area p r ≡ ok w
        → Step files w.0
    derive :
        {files : Files} (name : Text) (state : Fields) (w : Files × List Text)
        → write_derived_state files name state ≡ ok w
        → Step files w.0

  pub data Steps : Files → Files → Type 0 where
    stop : {files : Files} → Steps files files
    step : {a b c : Files} → Step a b → Steps b c → Steps a c

  put-kept :
      (path other : List Text) (t u : Text) (files : Files)
      → (other == path) ≡ false
      → find path files ≡ some t
      → find path (put other u files) ≡ some t
  put-kept path other t u files n h = find-put other path u files ∙ rw n h

  -- No call changes or removes an immutable file.
  Step-kept :
      (rest : List Text) (t : Text) (a b : Files)
      → Step a b
      → find (codes "immutable" ∷ rest) a ≡ some t
      → find (codes "immutable" ∷ rest) b ≡ some t
  unfolding write_derived_state
  Step-kept rest t a b (write area p r w c s) h =
      let v = write_projected_json-Recorded a area p r w c s in
      let q = codes "immutable" ∷ rest in
      elim (Bool-cases (v.path == q)) [
        | inl e ↦ cc (v.absent, (eq_iff v.path q).0 e, h)
        | inr e ↦ rw (ap (λ x. x.0) v.result) (put-kept q v.path t v.text a e h)
      ]
  Step-kept rest t a b (derive name state w s) h =
      let (path, hp) = unbind _ w (derived_path name) s in
      let (u, hu) = unbind _ w (from_dumps (dumps_canonical_json (obj state))) hp.1 in
      let (below, hb) = derived_path-head name path hp.0 in
      let other : (path == codes "immutable" ∷ rest) ≡ false = rw hb (derived_other below rest) in
      subst (λ x. find (codes "immutable" ∷ rest) x.0 ≡ some t) (ok_inj _ w hu.1)
        (put-kept (codes "immutable" ∷ rest) path t u a other h)

  Steps-kept :
      (rest : List Text) (t : Text) (a b : Files)
      → Steps a b
      → find (codes "immutable" ∷ rest) a ≡ some t
      → find (codes "immutable" ∷ rest) b ≡ some t
  Steps-kept rest t a b stop h = h
  Steps-kept rest t a b (step {b = m} s ss) h = Steps-kept rest t m b ss (Step-kept rest t a m s h)

  stored_record-written :
      (p : HashProjection) (r : Fields) (i : ContentIdentity) (t : Text)
      → Canonical (obj r)
      → dumps_canonical_json (obj r) ≡ ok t
      → content_identity sha256 p r ≡ ok i
      → stored_record sha256 p i t ≡ ok r
  unfolding stored_record stored_mapping from_hash
  stored_record-written p r i t c d h =
      rw (loads_canonical_json-dumps_canonical_json (obj r) t c d, h, eq_refl i) refl

  -- the file of a record that was written, whatever was written later
  file-kept :
      (a b : Files) (area : Text) (p : HashProjection) (r : Fields) (w : Files × WrittenRecord)
      → (v : Recorded a area p r w) → Steps w.0 b
      → find v.path b ≡ some v.text
  file-kept a b area p r w v s =
      let (rest, hr) = immutable_path-head area v.identity v.path v.placed in
      let stored : find v.path w.0 ≡ some v.text =
        rw (ap (λ x. x.0) v.result, find-put v.path v.path v.text a, eq_refl v.path) refl in
      rw hr (Steps-kept rest v.text w.0 b s (subst (λ x. find x w.0 ≡ some v.text) hr stored))

  -- A record that was written is read back as it was, after any later calls that write.
  pub read_projected_json-write :
      (a b : Files) (area : Text) (p : HashProjection) (r : Fields) (w : Files × WrittenRecord)
      → Canonical (obj r)
      → write_projected_json sha256 a area p r ≡ ok w
      → Steps w.0 b
      → read_projected_json sha256 b area p w.1.identity ≡ ok r
  unfolding read_projected_json verify_immutable_record
  read_projected_json-write a b area p r w c h s =
      let v = write_projected_json-Recorded a area p r w c h in
      subst (λ i. read_projected_json sha256 b area p i ≡ ok r)
        (ap (λ x. x.1.identity) (sym v.result))
        (rw (v.placed, verify_immutable_record, file-kept a b area p r w v s)
          (stored_record-written p r v.identity v.text c v.dumped v.identified))

  -- A second write of the record raises, after any later calls that write.
  pub write_projected_json-again :
      (a b : Files) (area : Text) (p : HashProjection) (r : Fields) (w : Files × WrittenRecord)
      → Canonical (obj r)
      → write_projected_json sha256 a area p r ≡ ok w
      → Steps w.0 b
      → write_projected_json sha256 b area p r ≡ err exists
  unfolding write_projected_json from_dumps mapping_of from_hash write_at
  write_projected_json-again a b area p r w c h s =
      let v = write_projected_json-Recorded a area p r w c h in
      rw
        (
          v.dumped,
          loads_canonical_json-dumps_canonical_json (obj r) v.text c v.dumped,
          v.identified,
          v.placed,
          write_at,
          file-kept a b area p r w v s,
          stored_record-written p r v.identity v.text c v.dumped v.identified,
        )
        refl

  -- A record that is read has the content identity that it was asked for.
  pub read_projected_json-Identified :
      (files : Files) (area : Text) (p : HashProjection) (i : ContentIdentity) (r : Fields)
      → read_projected_json sha256 files area p i ≡ ok r
      → content_identity sha256 p r ≡ ok i
  unfolding read_projected_json verify_immutable_record stored_record
  read_projected_json-Identified files area p i r h =
      let (path, hp) = unbind _ r (immutable_path area i) h in
      elim (Option-cases (find path files)) [
        | inl n ↦ cc (rw (verify_immutable_record, n) at hp.1)
        | inr s ↦
            let (fs, hf) =
              unbind _ r (stored_mapping (loads_canonical_json s.0))
                (rw (verify_immutable_record, s.1) at hp.1) in
            let (j, hj) = unbind _ r (from_hash (content_identity sha256 p fs)) hf.1 in
            let w = when-ok (j == i) fs r corrupt_identity hj.1 in
            subst₂ (λ x y. content_identity sha256 p x ≡ ok y) (sym w.1) ((eq_iff j i).0 w.0)
              (from_hash-lem (content_identity sha256 p fs) j hj.0)
      ]
