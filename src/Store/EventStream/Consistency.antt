-- ===== src/Store/EventStream/Consistency.antt =====
-- What the loop of `read_verified` keeps of its variables, and the numbers in the names of the files
-- that it has read.
use temper_ml.Base.{
  if◌then◌else◌, ◌==◌, nat_eq, list_eq, option_eq, unbind, ok_inj, Result, ok, err, length,
  length-append, All, contains, Text, codes, ℕ, suc, ◌≤◌, ◌<◌, ◌≡◌, refl, sym, ap, subst, Bool,
  true, false, not, Option, none, some, List, [], ◌∷◌, ◌++◌, arith,
}
use temper_ml.Store.Json.{Fields}
use temper_ml.Domain.Projections.{
  is_sha256_hex, make_identity, projection_preimage, content_identity, ProjectionError,
  unsupported_algorithm, invalid_digest, HashProjection, ContentIdentity,
}
use temper_ml.Store.EventStream.{Directory, event_projection, match_event_name, StoredEvent}
use temper_ml.Store.EventStream.Reading.{empty_chain, linked, verify_event, verify_events, Chain}
use temper_ml.Store.EventStream.Appending.{event_of_key, last_value}
use temper_ml.Store.EventStream.Steps.{verify_event-Verified, Verified}
use temper_ml.Store.EventStream.Envelopes.{IsDigest}

-- The variables say what the events say.
pub record Consistent (c : Chain) : Type 0 where
  pub numbered : c.expected_sequence ≡ suc (length c.events)
  pub last : c.predecessor ≡ last_value c.events
  pub digest : IsDigest c.predecessor
  pub unused : (k : Text) → event_of_key k c.events ≡ none → contains k c.seen_keys ≡ false

last_value-snoc :
    (es : List StoredEvent) (e : StoredEvent) → last_value (es ++ e ∷ []) ≡ some e.identity.value
unfolding last_value
last_value-snoc [] e = refl
last_value-snoc (d ∷ []) e = refl
last_value-snoc (d ∷ f ∷ es) e = last_value-snoc (f ∷ es) e

not_found {ℓ} :
    {A : Type ℓ} (b : Bool) (x : A) (o : Option A)
    → (if b then some x else o) ≡ none
    → (b ≡ false) × (o ≡ none)
not_found true x o h = cc h
not_found false x o h = (refl, h)

event_of_key-snoc :
    (k : Text) (es : List StoredEvent) (e : StoredEvent)
    → event_of_key k (es ++ e ∷ []) ≡ none
    → ((e.idempotency_key == k) ≡ false) × (event_of_key k es ≡ none)
unfolding event_of_key
event_of_key-snoc k [] e h = (not_found (e.idempotency_key == k) e none h)
event_of_key-snoc k (d ∷ es) e h =
    let r = not_found (d.idempotency_key == k) d (event_of_key k (es ++ e ∷ [])) h in
    let later = event_of_key-snoc k es e r.1 in (later.0, rw r.0 later.1)

checked-digest :
    (b b' : Bool) (j i : ContentIdentity)
    → Path
        (Result ProjectionError ContentIdentity)
        (if not b then err unsupported_algorithm else if not b' then err invalid_digest else ok j)
        (ok i)
    → is_sha256_hex j.value ≡ b'
    → is_sha256_hex i.value ≡ true
checked-digest true true j i h e = subst (λ x. is_sha256_hex x.value ≡ true) (ok_inj j i h) e
checked-digest true false j i h e = cc h
checked-digest false b' j i h e = cc h

make_identity-digest :
    (a v : Text) (i : ContentIdentity) → make_identity a v ≡ ok i → is_sha256_hex i.value ≡ true
unfolding make_identity
make_identity-digest a v i h =
    checked-digest (a == codes "sha256") (is_sha256_hex v) (record { algorithm = a; value = v }) i h
      refl

pub content_identity-digest :
    (sha256 : Text → Text) (p : HashProjection) (fs : Fields) (i : ContentIdentity)
    → content_identity sha256 p fs ≡ ok i
    → is_sha256_hex i.value ≡ true
unfolding content_identity
content_identity-digest sha256 p fs i h =
    let (t, ht) = unbind _ i (projection_preimage p fs) h in
    make_identity-digest (codes "sha256") (sha256 t) i ht.1

unused-linked :
    (k key : Text) (seen : List Text)
    → (key == k) ≡ false
    → contains k seen ≡ false
    → contains k (key ∷ seen) ≡ false
unfolding contains
unused-linked k key seen h s = ground (arith, h, s)

pub empty_chain-Consistent : Consistent empty_chain
unfolding last_value contains
empty_chain-Consistent = record { numbered = refl; last = refl; digest = tt; unused = λ k h. refl }

verify_event-Consistent :
    (sha256 : Text → Text) (c : Chain) (name raw : Text) (d : Chain)
    → Verified sha256 c name raw d
    → Consistent c
    → Consistent d
unfolding linked
verify_event-Consistent sha256 c name raw d v s = subst Consistent (sym v.result) (record {
  numbered = omega (arith, s.numbered, length-append c.events (_ ∷ []));
  last = sym (last_value-snoc c.events _);
  digest = content_identity-digest sha256 event_projection v.fields v.identity v.identified;
  unused = λ k h.
      let u = event_of_key-snoc k c.events _ h in
      unused-linked k v.envelope.idempotency_key c.seen_keys u.0 (s.unused k u.1);
})

expected-linked :
    (sha256 : Text → Text) (c : Chain) (name raw : Text) (d : Chain)
    → Verified sha256 c name raw d
    → d.expected_sequence ≡ suc c.expected_sequence
unfolding linked
expected-linked sha256 c name raw d v = ap (λ x. x.expected_sequence) v.result

-- every file is named with a number below `n`
abbrev pub Below : ℕ → Directory → Type 0
Below n fs = All (λ f. (p : ℕ × Text) × ((match_event_name f.0 ≡ some p) × (p.0 < n))) fs

pub verify_events-Consistent :
    (sha256 : Text → Text) (c : Chain) (fs : Directory) (d : Chain)
    → verify_events sha256 c fs ≡ ok d
    → Consistent c
    → Consistent d × ((c.expected_sequence ≤ d.expected_sequence) × Below d.expected_sequence fs)
unfolding verify_events
verify_events-Consistent sha256 c [] d h s =
    subst
      (λ x.
        Consistent x × ((c.expected_sequence ≤ x.expected_sequence) × Below x.expected_sequence []))
      (ok_inj c d h) (s, (omega arith, tt))
verify_events-Consistent sha256 c (f ∷ fs) d h s =
    let (c', hc) = unbind _ d (verify_event sha256 c f) h in
    let v = verify_event-Verified sha256 c f.0 f.1 c' hc.0 in
    let r =
      verify_events-Consistent sha256 c' fs d hc.1
        (verify_event-Consistent sha256 c f.0 f.1 c' v s) in
    let next = expected-linked sha256 c f.0 f.1 c' v in
    (
      r.0,
      (
        omega (arith, next, r.1.0),
        ((v.filename, (v.named, omega (arith, v.number, v.expected, next, r.1.0))), r.1.1),
      ),
    )
