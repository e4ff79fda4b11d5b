-- ===== src/Store/EventStream/Retries.antt =====
-- Sequences of calls of `append`: retries, directories that such calls made, and states rebuilt.
use temper_ml.Base.{
  ◌==◌, nat_eq, list_eq, option_eq, eq_refl, Bool-cases, is_some, ok_inj, Result, ok, err, length,
  sort_by, Text, find, suc, ◌≡◌, refl, sym, ap, ◌∙◌, subst, inl, inr, true, Option, none, some,
  List, [], ◌∷◌, ◌++◌, arith,
}
use temper_ml.Store.EventStream.{
  File, Directory, lock_name, EventStreamError, EventRequest, StoredEvent, Commit,
}
use temper_ml.Store.EventStream.Names.{Numbered}
use temper_ml.Store.EventStream.Envelopes.{WellFormed}
use temper_ml.Store.EventStream.Reading.{
  verify_events, event_files, read_chain, read_verified, fold_events, rebuild,
}
use temper_ml.Store.EventStream.Appending.{
  locked, event_of_key, prepared, finish, append_locked, append,
}
use temper_ml.Store.EventStream.Appended.{after}
use temper_ml.Store.EventStream.Outcomes.{
  Appended, prepared-Appended, prepared-text, prepared-found,
}
use temper_ml.Store.EventStream.Promises.{
  read_verified-locked, finish-err, append-Appended, Recorded, Recorded-after, read_verified-append,
  key-Appended,
}

event_of_key-added :
    (k : Text) (es : List StoredEvent) (e : StoredEvent)
    → event_of_key k es ≡ none
    → e.idempotency_key ≡ k
    → event_of_key k (es ++ e ∷ []) ≡ some e
unfolding event_of_key
event_of_key-added k [] e h q = rw (q, eq_refl k) refl
event_of_key-added k (d ∷ es) e h q = elim (Bool-cases (d.idempotency_key == k)) [
  | inl b ↦ cc (rw b at h)
  | inr b ↦ rw b (event_of_key-added k es e (rw b at h) q)
]

fold_events-snoc :
    {S : Type 0} (reducer : S → StoredEvent → S) (s : S) (es : List StoredEvent) (e : StoredEvent)
    → fold_events reducer s (es ++ e ∷ []) ≡ reducer (fold_events reducer s es) e
unfolding fold_events
fold_events-snoc reducer s [] e = refl
fold_events-snoc reducer s (d ∷ es) e = fold_events-snoc reducer (reducer s d) es e

-- an entry that is found stays found
find-append :
    (k : Text) (d e : Directory) → is_some (find k d) ≡ true → is_some (find k (d ++ e)) ≡ true
unfolding find
find-append k [] e h = cc h
find-append k (f ∷ d) e h = ground (arith, h, find-append k d e)

find-last : (k v : Text) (d : Directory) → is_some (find k (d ++ (k, v) ∷ [])) ≡ true
unfolding find
find-last k v [] = rw (eq_refl k) refl
find-last k v (f ∷ d) = ground (arith, find-last k v d)

has_lock : (d : Directory) → is_some (find lock_name (locked d)) ≡ true
unfolding locked
has_lock d = elim (Bool-cases (is_some (find lock_name d))) [
  | inl h ↦ rw h h
  | inr h ↦ rw h (find-last lock_name (0 ∷ []) d)
]

locked-locked : (d e : Directory) → locked (locked d ++ e) ≡ locked d ++ e
unfolding locked
locked-locked d e = rw (find-append lock_name (locked d) e (has_lock d)) refl

locked_twice : (d : Directory) → locked (locked d) ≡ locked d
unfolding locked
locked_twice d = rw (has_lock d) refl

module _ (sha256 : Text → Text) where
  -- Directories that calls of `append` make of an empty one, the calls that raised included,
  -- however far their writes came.
  pub data Reachable : Directory → Type 0 where
    empty : Reachable []
    appended :
        {d : Directory} (w : Commit) (r : EventRequest)
        → Reachable d
        → WellFormed r
        → ((es : List StoredEvent) → read_verified sha256 d ≡ ok es → Numbered (suc (length es)))
        → Reachable (append sha256 w d r).0

  empty-readable : read_verified sha256 [] ≡ ok []
  unfolding read_verified read_chain event_files verify_events sort_by
  empty-readable = refl

  Recorded-readable :
      (d : Directory) (es : List StoredEvent) (r : EventRequest) (e : StoredEvent)
      → Recorded sha256 d es r e
      → (es' : List StoredEvent) × (read_verified sha256 d ≡ ok es')
  unfolding Recorded
  Recorded-readable d es r e (inl o) = (es, o.1)
  Recorded-readable d es r e (inr o) = (es ++ e ∷ [], o.1)

  after-readable :
      (w : Commit) (d d' : Directory) (r : EventRequest) (es : List StoredEvent)
      → WellFormed r
      → Numbered (suc (length es))
      → read_verified sha256 d ≡ ok es
      → (res : Result EventStreamError StoredEvent) → append sha256 w d r ≡ (d', res)
      → (es' : List StoredEvent) × (read_verified sha256 d' ≡ ok es')
  unfolding append append_locked
  after-readable w d d' r es f n h (err x) a =
      elim (finish-err sha256 w (locked d) d' x (prepared sha256 (locked d) r) a) [
        | inl q ↦ (es, rw q (read_verified-locked sha256 d ∙ h))
        | inr q ↦
            let k =
              prepared-Appended sha256 (locked d) es r (some q.0, q.1.0) f
                (read_verified-locked sha256 d ∙ h) q.1.1.0 in
            rw q.1.1.1 (
              Recorded-readable (after (locked d) (some q.0)) es r q.1.0
                (Recorded-after sha256 d es r (some q.0) q.1.0 f n h k).1)
      ]
  after-readable w d d' r es f n h (ok e) a =
      Recorded-readable d' es r e (read_verified-append sha256 w d d' r es e f n h a).1

  -- Every directory that calls of `append` make can be read.
  pub Reachable-readable :
      (d : Directory) → Reachable d → (es : List StoredEvent) × (read_verified sha256 d ≡ ok es)
  Reachable-readable d empty = ([], empty-readable)
  Reachable-readable d (appended {d = d'} w r h f n) =
      let (es, he) = Reachable-readable d' h in
      after-readable w d' d r es f (n es he) he (append sha256 w d' r).1 refl

  -- A state that is rebuilt after an event was added is the state before, reduced by that event.
  pub rebuild-append :
      {S : Type 0} (reducer : S → StoredEvent → S) (s t : S) (w : Commit) (d d' : Directory)
      (r : EventRequest) (es : List StoredEvent) (e : StoredEvent)
      → WellFormed r
      → Numbered (suc (length es))
      → read_verified sha256 d ≡ ok es
      → event_of_key r.idempotency_key es ≡ none
      → append sha256 w d r ≡ (d', ok e)
      → rebuild sha256 reducer s d ≡ ok t
      → rebuild sha256 reducer s d' ≡ ok (reducer t e)
  unfolding rebuild Recorded
  rebuild-append reducer s t w d d' r es e f n h u a b =
      let folded : fold_events reducer s es ≡ t = ok_inj _ t (rw h at b) in
      elim (read_verified-append sha256 w d d' r es e f n h a).1 [
        | inl o ↦ cc (o.0, u)
        | inr o ↦ rw o.1 (ap ok (fold_events-snoc reducer s es e ∙ ap (λ x. reducer x e) folded))
      ]

  locked-after :
      (d : Directory) (o : Option File) → locked (after (locked d) o) ≡ after (locked d) o
  locked-after d none = locked_twice d
  locked-after d (some f) = locked-locked d (f ∷ [])

  -- the event is the one of its key, where the prepared file is in the directory
  found_behind :
      (d : Directory) (r : EventRequest) (es : List StoredEvent) (o : Option File) (e : StoredEvent)
      → Appended sha256 es r (o, e)
      → Recorded sha256 d es r e
      → (es' : List StoredEvent) × ((read_verified sha256 d ≡ ok es')
          × (event_of_key r.idempotency_key es' ≡ some e))
  unfolding Recorded
  found_behind d r es o e k (inl w) = (es, (w.1, w.0))
  found_behind d r es o e k (inr w) = (
    es ++ e ∷ [],
    (w.1, event_of_key-added r.idempotency_key es e w.0 (key-Appended sha256 es r (o, e) k)),
  )

  -- where the file of a request is in the directory, the request gets its event and writes nothing
  append-after :
      (v : Commit) (d : Directory) (r : EventRequest) (es : List StoredEvent) (o : Option File)
      (e : StoredEvent)
      → WellFormed r
      → Numbered (suc (length es))
      → read_verified sha256 d ≡ ok es
      → prepared sha256 (locked d) r ≡ ok (o, e)
      → Appended sha256 es r (o, e)
      → append sha256 v (after (locked d) o) r ≡ (after (locked d) o, ok e)
  unfolding append append_locked finish
  append-after v d r es o e f n h p k =
      let w = Recorded-after sha256 d es r o e f n h k in
      let (es', he) = found_behind (after (locked d) o) r es o e k w.1 in
      let (t, ht) = prepared-text sha256 (locked d) r (o, e) f p in
      rw
        (
          locked-after d o,
          prepared-found sha256 (after (locked d) o) r es' e t f he.0 he.1 ht (w.0 ∙ ht),
        )
        refl

  -- A request that was appended can be sent again: the same event is returned, and the directory
  -- stays as it is.
  pub append-again :
      (w v : Commit) (d d' : Directory) (r : EventRequest) (es : List StoredEvent) (e : StoredEvent)
      → WellFormed r
      → Numbered (suc (length es))
      → read_verified sha256 d ≡ ok es
      → append sha256 w d r ≡ (d', ok e)
      → append sha256 v d' r ≡ (d', ok e)
  append-again w v d d' r es e f n h a =
      let (o, ho) = append-Appended sha256 w d d' r es e f h a in
      subst (λ x. append sha256 v x r ≡ (x, ok e)) (sym ho.1.1)
        (append-after v d r es o e f n h ho.0 ho.1.0)
