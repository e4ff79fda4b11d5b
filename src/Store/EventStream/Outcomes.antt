-- ===== src/Store/EventStream/Outcomes.antt =====
-- The outcomes of `append` before its write: the event was there, it is to be added, or the call raised.
use temper_ml.Base.{
  ◌==◌, nat_eq, List-discrete, list_eq, option_eq, eq_iff, eq_refl, Option-cases, unbind, ok_inj,
  when-ok, Result, ok, Text, ◌≡◌, refl, sym, ap, ◌∙◌, subst, ◌⊎◌, inl, inr, Option, none, some,
  List, ℕ_discrete,
}
use temper_ml.Store.Json.{get, obj}
use temper_ml.Store.Canonical.{dumps_canonical_json, CanonicalError}
use temper_ml.Store.Loads.{loads_canonical_json}
use temper_ml.Store.Loads.RoundTrip.{loads_canonical_json-dumps_canonical_json}
use temper_ml.Store.EventStream.{
  conflict, File, Directory, request_fields, EventRequest, StoredEvent,
}
use temper_ml.Store.EventStream.Steps.{written-lem}
use temper_ml.Store.EventStream.Envelopes.{request_fields-Canonical, WellFormed}
use temper_ml.Store.EventStream.Reading.{written, read_verified}
use temper_ml.Store.EventStream.Appending.{
  event_of_key, canonical_payload, reused, at_key, prepared,
}
use temper_ml.Store.EventStream.Appended.{new_event-Written, Written}

-- the canonical text of a request, and of the request that an event holds
unfoldable pub request_text : EventRequest → Result CanonicalError Text
unfolding dumps_canonical_json request_fields
request_text r =
    dumps_canonical_json (obj (request_fields r.idempotency_key r.event_type r.payload))

unfoldable pub event_text : StoredEvent → Result CanonicalError Text
unfolding dumps_canonical_json request_fields
event_text e = dumps_canonical_json (obj (request_fields e.idempotency_key e.event_type e.payload))

canonical_payload-fields :
    (r : EventRequest)
    → canonical_payload (ok (obj (request_fields r.idempotency_key r.event_type r.payload)))
      ≡ ok r.payload
unfolding canonical_payload request_fields get ℕ_discrete List-discrete
canonical_payload-fields r = refl

-- The payload that `_append_locked` reads back is the one that was requested.
canonical_payload-request :
    (r : EventRequest) (t : Text)
    → WellFormed r
    → request_text r ≡ ok t
    → canonical_payload (loads_canonical_json t) ≡ ok r.payload
unfolding request_text
canonical_payload-request r t f h =
    let fields = request_fields r.idempotency_key r.event_type r.payload in
    ap canonical_payload
      (loads_canonical_json-dumps_canonical_json (obj fields) t (request_fields-Canonical r f) h)
    ∙ canonical_payload-fields r

module _ (sha256 : Text → Text) where
  -- What follows the checks of a call that comes to its write.
  prepared-lem :
      (d : Directory) (r : EventRequest) (p : Option File × StoredEvent)
      → WellFormed r
      → prepared sha256 d r ≡ ok p
      → (es : List StoredEvent) × ((read_verified sha256 d ≡ ok es)
          × ((t : Text) × ((request_text r ≡ ok t)
                × (at_key sha256 d es r t r.payload (event_of_key r.idempotency_key es) ≡ ok p))))
  unfolding prepared request_text
  prepared-lem d r p f h =
      let (es, he) = unbind _ p (read_verified sha256 d) h in
      let (t, ht) = unbind _ p (written (request_text r)) he.1 in
      let (payload, hp) = unbind _ p (canonical_payload (loads_canonical_json t)) ht.1 in
      let dumped = written-lem (request_text r) t ht.0 in
      let same = ok_inj payload r.payload (sym hp.0 ∙ canonical_payload-request r t f dumped) in
      (
        es,
        (
          he.0,
          (
            t,
            (
              dumped,
              subst (λ x. at_key sha256 d es r t x (event_of_key r.idempotency_key es) ≡ ok p) same
                  hp.1,
            ),
          ),
        ),
      )

  reused-lem :
      (e : StoredEvent) (t : Text) (p : Option File × StoredEvent)
      → reused e t ≡ ok p
      → (p ≡ (none, e)) × (event_text e ≡ ok t)
  unfolding reused event_text
  reused-lem e t p h =
      let (s, hs) = unbind _ p (written (event_text e)) h in
      let w = when-ok (s == t) (none, e) p conflict hs.1 in
      (w.1, written-lem (event_text e) s hs.0 ∙ ap ok ((eq_iff s t).0 w.0))

  -- The event of the key was there and holds the same request, or there was none and it is to be added.
  unfoldable pub Appended : List StoredEvent → EventRequest → Option File × StoredEvent → Type 0
  Appended es r p =
      ((event_of_key r.idempotency_key es ≡ some p.1)
        × ((p.0 ≡ none) × (event_text p.1 ≡ request_text r)))
      ⊎ ((event_of_key r.idempotency_key es ≡ none) × Written sha256 es r p)

  pub prepared-Appended :
      (d : Directory) (es : List StoredEvent) (r : EventRequest) (p : Option File × StoredEvent)
      → WellFormed r
      → read_verified sha256 d ≡ ok es
      → prepared sha256 d r ≡ ok p
      → Appended es r p
  unfolding Appended at_key
  prepared-Appended d es r p f h a =
      let (es', he) = prepared-lem d r p f a in
      let (t, ht) = he.1 in
      let same = ok_inj es' es (sym he.0 ∙ h) in
      let q =
        subst (λ x. at_key sha256 d x r t r.payload (event_of_key r.idempotency_key x) ≡ ok p) same
          ht.1 in
      elim (Option-cases (event_of_key r.idempotency_key es)) [
        | inl n ↦ inr (n, new_event-Written sha256 d es r p (rw n at q))
        | inr s ↦
            let w = reused-lem s.0 t p (rw s.1 at q) in
            inl (
              s.1 ∙ ap (λ x. some x.1) (sym w.0),
              (ap (λ x. x.0) w.0, ap (λ x. event_text x.1) w.0 ∙ w.1 ∙ sym ht.0),
            )
      ]

  pub prepared-text :
      (d : Directory) (r : EventRequest) (p : Option File × StoredEvent)
      → WellFormed r
      → prepared sha256 d r ≡ ok p
      → (t : Text) × (request_text r ≡ ok t)
  prepared-text d r p f h = let (es, he) = prepared-lem d r p f h in let (t, ht) = he.1 in (t, ht.0)

  -- Where an event holds the request, it is returned.
  pub prepared-found :
      (d : Directory) (r : EventRequest) (es : List StoredEvent) (e : StoredEvent) (t : Text)
      → WellFormed r
      → read_verified sha256 d ≡ ok es
      → event_of_key r.idempotency_key es ≡ some e
      → request_text r ≡ ok t
      → event_text e ≡ ok t
      → prepared sha256 d r ≡ ok (none, e)
  unfolding prepared request_text event_text at_key reused written
  prepared-found d r es e t f h k q s =
      rw (h, q, canonical_payload-request r t f q, k) (rw (s, eq_refl t) refl)
