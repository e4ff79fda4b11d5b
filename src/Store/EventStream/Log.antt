-- ===== src/Store/EventStream/Log.antt =====
-- The abstract view of a stream: a log of keys and of the texts that were recorded for them. It
-- forgets the files, the numbers and the digests.
use temper_ml.Base.{
  if◌then◌else◌, ◌==◌, nat_eq, list_eq, option_eq, eq_refl, Bool-cases, some_inj, Result, ok, err,
  length, Text, find, suc, ◌≡◌, refl, sym, ap, ◌∙◌, subst₂, inl, inr, Option, none, some, List, [],
  ◌∷◌, ◌++◌,
}
use temper_ml.Store.Canonical.{CanonicalError}
use temper_ml.Store.EventStream.{Directory, EventRequest, StoredEvent, Commit}
use temper_ml.Store.EventStream.Names.{Numbered}
use temper_ml.Store.EventStream.Envelopes.{WellFormed}
use temper_ml.Store.EventStream.Reading.{read_verified}
use temper_ml.Store.EventStream.Appending.{event_of_key, append}
use temper_ml.Store.EventStream.Outcomes.{request_text, event_text}
use temper_ml.Store.EventStream.Promises.{
  append-Appended, Recorded, read_verified-append, key-Appended,
}

abbrev pub Log : Type 0
Log = List (Text × Result CanonicalError Text)

-- What `append` should do to the log: keep it where the key holds that text, refuse another text,
-- and add a new key at the end.
unfoldable pub log_append : Log → Text → Text → Option Log
unfolding find
log_append log key t = elim (find key log) [
  | some (ok s) ↦ if s == t then some log else none
  | some (err e) ↦ none
  | none ↦ some (log ++ (key, ok t) ∷ [])
]

unfoldable pub log_of : List StoredEvent → Log
unfolding event_text
log_of [] = []
log_of (e ∷ es) = (e.idempotency_key, event_text e) ∷ log_of es

log_of-snoc :
    (es : List StoredEvent) (e : StoredEvent)
    → log_of (es ++ e ∷ []) ≡ log_of es ++ (e.idempotency_key, event_text e) ∷ []
unfolding log_of
log_of-snoc [] e = refl
log_of-snoc (d ∷ es) e = ap (λ x. (d.idempotency_key, event_text d) ∷ x) (log_of-snoc es e)

find-log_of-some :
    (k : Text) (es : List StoredEvent) (e : StoredEvent)
    → event_of_key k es ≡ some e
    → find k (log_of es) ≡ some (event_text e)
unfolding find log_of event_of_key
find-log_of-some k [] e h = cc h
find-log_of-some k (d ∷ es) e h = elim (Bool-cases (d.idempotency_key == k)) [
  | inl b ↦ rw b (ap (λ x. some (event_text x)) (some_inj d e (rw b at h)))
  | inr b ↦ rw b (find-log_of-some k es e (rw b at h))
]

find-log_of-none :
    (k : Text) (es : List StoredEvent) → event_of_key k es ≡ none → find k (log_of es) ≡ none
unfolding find log_of event_of_key
find-log_of-none k [] h = refl
find-log_of-none k (d ∷ es) h = elim (Bool-cases (d.idempotency_key == k)) [
  | inl b ↦ cc (rw b at h)
  | inr b ↦ rw b (find-log_of-none k es (rw b at h))
]

log_append-found :
    (es : List StoredEvent) (e : StoredEvent) (k t : Text)
    → event_of_key k es ≡ some e
    → event_text e ≡ ok t
    → log_append (log_of es) k t ≡ some (log_of es)
unfolding log_append
log_append-found es e k t h s = rw (log_append, find-log_of-some k es e h, s, eq_refl t) refl

log_append-new :
    (es : List StoredEvent) (e : StoredEvent) (k t : Text)
    → event_of_key k es ≡ none
    → e.idempotency_key ≡ k
    → event_text e ≡ ok t
    → log_append (log_of es) k t ≡ some (log_of (es ++ e ∷ []))
unfolding log_append
log_append-new es e k t h q s =
    rw (log_append, find-log_of-none k es h, log_of-snoc es e)
      (subst₂ (λ x y. some (log_of es ++ (k, ok t) ∷ []) ≡ some (log_of es ++ (x, y) ∷ [])) (sym q)
        (sym s) refl)

module _ (sha256 : Text → Text) where
  -- A call of `append` that returns does to the events what `log_append` does to the log.
  pub append-log_append :
      (w : Commit) (d d' : Directory) (r : EventRequest) (es : List StoredEvent) (e : StoredEvent)
      (t : Text)
      → WellFormed r
      → Numbered (suc (length es))
      → request_text r ≡ ok t
      → read_verified sha256 d ≡ ok es
      → append sha256 w d r ≡ (d', ok e)
      → (es' : List StoredEvent) × ((read_verified sha256 d' ≡ ok es')
          × (log_append (log_of es) r.idempotency_key t ≡ some (log_of es')))
  unfolding Recorded
  append-log_append w d d' r es e t f n q h a =
      let p = read_verified-append sha256 w d d' r es e f n h a in
      let (f', k) = append-Appended sha256 w d d' r es e f h a in
      elim p.1 [
        | inl o ↦ (es, (o.1, log_append-found es e r.idempotency_key t o.0 (p.0 ∙ q)))
        | inr o ↦ (
          es ++ e ∷ [],
          (
            o.1,
            log_append-new es e r.idempotency_key t o.0 (key-Appended sha256 es r (f', e) k.1.0)
                (p.0 ∙ q),
          ),
        )
      ]
