-- ===== src/Store/EventStream/Steps.antt =====
-- What a step of the loop of `read_verified` says when it accepts a file.
use temper_ml.Base.{
  ◌==◌, nat_eq, list_eq, option_eq, eq_iff, and-split, ◌>>◌, ensure, unbind, ok_inj, Result, ok,
  err, contains, Text, ℕ, ◌≡◌, refl, sym, ap, Bool, true, false, not, ◌&&◌, Option, none, some,
}
use temper_ml.Store.Json.{Json, null, bool, int, decimal, str, arr, obj, Fields}
use temper_ml.Store.Canonical.{dumps_canonical_json, CanonicalError}
use temper_ml.Store.Loads.{loads_canonical_json}
use temper_ml.Domain.Projections.{content_identity, ProjectionError, ContentIdentity}
use temper_ml.Store.EventStream.{
  event_projection, match_event_name, not_contiguous, broken_link, duplicate_event_key,
  hash_mismatch, not_canonical_event,
}
use temper_ml.Store.EventStream.Reading.{
  validate_envelope, filename_of, object_of, hashed, written, linked, check_link, verify_event,
  Envelope, Chain,
}

pub ensure-lem {ℓ} :
    {E A : Type ℓ} (b : Bool) (e : E) (m : Result E A) (a : A)
    → ensure b e >> m ≡ ok a
    → (b ≡ true) × (m ≡ ok a)
ensure-lem true e m a h = (refl, h)
ensure-lem false e m a h = cc h

filename_of-lem : (o : Option (ℕ × Text)) (p : ℕ × Text) → filename_of o ≡ ok p → o ≡ some p
unfolding filename_of
filename_of-lem none p h = cc h
filename_of-lem (some q) p h = ap some (ok_inj q p h)

object_of-lem :
    (r : Result CanonicalError Json) (fs : Fields) → object_of r ≡ ok fs → r ≡ ok (obj fs)
unfolding object_of
object_of-lem (ok (obj gs)) fs h = ap (λ x. ok (obj x)) (ok_inj gs fs h)
object_of-lem (ok null) fs h = cc h
object_of-lem (ok (bool b)) fs h = cc h
object_of-lem (ok (int z)) fs h = cc h
object_of-lem (ok (decimal d)) fs h = cc h
object_of-lem (ok (str t)) fs h = cc h
object_of-lem (ok (arr xs)) fs h = cc h
object_of-lem (err e) fs h = cc h

pub hashed-lem :
    (r : Result ProjectionError ContentIdentity) (i : ContentIdentity) → hashed r ≡ ok i → r ≡ ok i
unfolding hashed
hashed-lem (ok j) i h = ap ok (ok_inj j i h)
hashed-lem (err e) i h = cc h

pub written-lem : (r : Result CanonicalError Text) (t : Text) → written r ≡ ok t → r ≡ ok t
unfolding written
written-lem (ok s) t h = ap ok (ok_inj s t h)
written-lem (err e) t h = cc h

pub record Verified (sha256 : Text → Text) (c : Chain) (name raw : Text) (c' : Chain) : Type 0 where
  pub filename : ℕ × Text
  pub fields : Fields
  pub envelope : Envelope
  pub identity : ContentIdentity
  pub named : match_event_name name ≡ some filename
  pub loaded : loads_canonical_json raw ≡ ok (obj fields)
  pub valid : validate_envelope fields ≡ ok envelope
  pub number : filename.0 ≡ envelope.sequence
  pub expected : envelope.sequence ≡ c.expected_sequence
  pub follows : envelope.predecessor_hash ≡ c.predecessor
  pub fresh : contains envelope.idempotency_key c.seen_keys ≡ false
  pub identified : content_identity sha256 event_projection fields ≡ ok identity
  pub digest : filename.1 ≡ identity.value
  pub result : c' ≡ linked c name envelope identity

ensure-not-lem {ℓ} :
    {E : Type ℓ} (b : Bool) (e : E) (u : Unit) → ensure (not b) e ≡ ok u → b ≡ false
ensure-not-lem true e u h = cc h
ensure-not-lem false e u h = refl

check_link-lem :
    (c : Chain) (n : ℕ) (e : Envelope) (u : Unit)
    → check_link c n e ≡ ok u
    → (n ≡ e.sequence)
      × ((e.sequence ≡ c.expected_sequence)
          × ((e.predecessor_hash ≡ c.predecessor)
              × (contains e.idempotency_key c.seen_keys ≡ false)))
unfolding check_link
check_link-lem c n e u h =
    let s =
      ensure-lem (e.sequence == c.expected_sequence && n == e.sequence) not_contiguous _ u h in
    let l = ensure-lem (e.predecessor_hash == c.predecessor) broken_link _ u s.1 in
    let b = and-split (e.sequence == c.expected_sequence) (n == e.sequence) s.0 in
    (
      (eq_iff n e.sequence).0 b.1,
      (
        (eq_iff e.sequence c.expected_sequence).0 b.0,
        (
          (eq_iff e.predecessor_hash c.predecessor).0 l.0,
          ensure-not-lem (contains e.idempotency_key c.seen_keys) duplicate_event_key u l.1,
        ),
      ),
    )

pub verify_event-Verified :
    (sha256 : Text → Text) (c : Chain) (name raw : Text) (c' : Chain)
    → verify_event sha256 c (name, raw) ≡ ok c'
    → Verified sha256 c name raw c'
unfolding verify_event
verify_event-Verified sha256 c name raw c' h =
    let (p, hp) = unbind _ c' (filename_of (match_event_name name)) h in
    let (fs, hf) = unbind _ c' (object_of (loads_canonical_json raw)) hp.1 in
    let (e, he) = unbind _ c' (validate_envelope fs) hf.1 in
    let (u, hu) = unbind _ c' (check_link c p.0 e) he.1 in
    let (i, hi) = unbind _ c' (hashed (content_identity sha256 event_projection fs)) hu.1 in
    let s = ensure-lem (p.1 == i.value) hash_mismatch _ c' hi.1 in
    let (t, ht) = unbind _ c' (written (dumps_canonical_json (obj fs))) s.1 in
    let q = ensure-lem (raw == t) not_canonical_event _ c' ht.1 in
    let l = check_link-lem c p.0 e u hu.0 in
    record {
      filename = p;
      fields = fs;
      envelope = e;
      identity = i;
      named = filename_of-lem (match_event_name name) p hp.0;
      loaded = object_of-lem (loads_canonical_json raw) fs hf.0;
      valid = he.0;
      number = l.0;
      expected = l.1.0;
      follows = l.1.1.0;
      fresh = l.1.1.1;
      identified = hashed-lem (content_identity sha256 event_projection fs) i hi.0;
      digest = (eq_iff p.1 i.value).0 s.0;
      result = sym (ok_inj (linked c name e i) c' q.1);
    }
