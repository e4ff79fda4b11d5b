-- ===== src/Store/EventStream/Promises.antt =====
-- What `append` promises of the directory that it leaves.
use temper_ml.Base.{
  ◌==◌, nat_eq, list_eq, option_eq, eq_iff, Bool-cases, unbind, ok_inj, some_inj, Result, ok, err,
  length, Text, suc, ◌≡◌, refl, sym, ap, ◌∙◌, subst, ◌⊎◌, inl, inr, Option, none, some, List, [],
  ◌∷◌, ◌++◌,
}
use temper_ml.Store.EventStream.{
  File, Directory, EventStreamError, EventRequest, StoredEvent, Commit, committed, not_linked,
  unconfirmed,
}
use temper_ml.Store.EventStream.Names.{Numbered}
use temper_ml.Store.EventStream.Envelopes.{WellFormed}
use temper_ml.Store.EventStream.Reading.{read_chain, read_verified}
use temper_ml.Store.EventStream.Appending.{
  locked, event_of_key, prepared, finish, append_locked, append,
}
use temper_ml.Store.EventStream.Entries.{read_chain-locked}
use temper_ml.Store.EventStream.Appended.{after, read_chain-Written, Written}
use temper_ml.Store.EventStream.Outcomes.{request_text, event_text, Appended, prepared-Appended}

event_of_key-key :
    (k : Text) (es : List StoredEvent) (e : StoredEvent)
    → event_of_key k es ≡ some e
    → e.idempotency_key ≡ k
unfolding event_of_key
event_of_key-key k [] e h = cc h
event_of_key-key k (d ∷ es) e h = elim (Bool-cases (d.idempotency_key == k)) [
  | inl b ↦
      ap (λ x. x.idempotency_key) (sym (some_inj d e (rw b at h)))
      ∙ (eq_iff d.idempotency_key k).0 b
  | inr b ↦ event_of_key-key k es e (rw b at h)
]

module _ (sha256 : Text → Text) where
  pub read_verified-locked :
      (d : Directory) → read_verified sha256 (locked d) ≡ read_verified sha256 d
  unfolding read_verified
  read_verified-locked d = rw (read_chain-locked sha256 d) refl

  -- a call that returned: what was prepared is in the directory
  pub finish-ok :
      (w : Commit) (d d' : Directory) (e : StoredEvent)
      (m : Result EventStreamError (Option File × StoredEvent))
      → finish w d m ≡ (d', ok e)
      → (o : Option File) × ((m ≡ ok (o, e)) × (d' ≡ after d o))
  unfolding finish
  finish-ok w d d' e (ok (none, g)) h =
      (none, (ap (λ x. ok (none, x)) (cc (ap (λ q. q.1) h)), sym (ap (λ q. q.0) h)))
  finish-ok committed d d' e (ok (some f, g)) h =
      (some f, (ap (λ x. ok (some f, x)) (cc (ap (λ q. q.1) h)), sym (ap (λ q. q.0) h)))
  finish-ok not_linked d d' e (ok (some f, g)) h = cc (ap (λ q. q.1) h)
  finish-ok unconfirmed d d' e (ok (some f, g)) h = cc (ap (λ q. q.1) h)
  finish-ok w d d' e (err x) h = cc (ap (λ q. q.1) h)

  -- a call that raised: nothing was placed, or the prepared file was
  pub finish-err :
      (w : Commit) (d d' : Directory) (x : EventStreamError)
      (m : Result EventStreamError (Option File × StoredEvent))
      → finish w d m ≡ (d', err x)
      → (d' ≡ d) ⊎ ((f : File) × ((e : StoredEvent) × ((m ≡ ok (some f, e)) × (d' ≡ d ++ f ∷ []))))
  unfolding finish
  finish-err w d d' x (ok (none, g)) h = cc (ap (λ q. q.1) h)
  finish-err committed d d' x (ok (some f, g)) h = cc (ap (λ q. q.1) h)
  finish-err not_linked d d' x (ok (some f, g)) h = inl (sym (ap (λ q. q.0) h))
  finish-err unconfirmed d d' x (ok (some f, g)) h = inr (f, (g, (refl, sym (ap (λ q. q.0) h))))
  finish-err w d d' x (err y) h = inl (sym (ap (λ q. q.0) h))

  pub append-Appended :
      (w : Commit) (d d' : Directory) (r : EventRequest) (es : List StoredEvent) (e : StoredEvent)
      → WellFormed r
      → read_verified sha256 d ≡ ok es
      → append sha256 w d r ≡ (d', ok e)
      → (o : Option File) × ((prepared sha256 (locked d) r ≡ ok (o, e))
          × (Appended sha256 es r (o, e) × (d' ≡ after (locked d) o)))
  unfolding append append_locked
  append-Appended w d d' r es e f h a =
      let (o, ho) = finish-ok w (locked d) d' e (prepared sha256 (locked d) r) a in
      (
        o,
        (
          ho.0,
          (
            prepared-Appended sha256 (locked d) es r (o, e) f (read_verified-locked d ∙ h) ho.0,
            ho.1,
          ),
        ),
      )

  -- the events behind a call of `append` that returned `e`
  unfoldable pub Recorded : Directory → List StoredEvent → EventRequest → StoredEvent → Type 0
  Recorded d es r e =
      ((event_of_key r.idempotency_key es ≡ some e) × (read_verified sha256 d ≡ ok es))
      ⊎ ((event_of_key r.idempotency_key es ≡ none) × (read_verified sha256 d ≡ ok (es ++ e ∷ [])))

  read_verified-Written :
      (d : Directory) (es : List StoredEvent) (r : EventRequest) (p : Option File × StoredEvent)
      → Written sha256 es r p
      → read_verified sha256 d ≡ ok es
      → WellFormed r
      → Numbered (suc (length es))
      → event_of_key r.idempotency_key es ≡ none
      → read_verified sha256 (after d p.0) ≡ ok (es ++ p.1 ∷ [])
  unfolding read_verified
  read_verified-Written d es r p w h f n u =
      let (c, hc) = unbind _ es (read_chain sha256 d) h in
      let q : es ≡ c.events = sym (ok_inj c.events es hc.1) in
      let (c', hc') =
        read_chain-Written sha256 d c r p (subst (λ x. Written sha256 x r p) q w) hc.0 f
          (subst (λ x. Numbered (suc (length x))) q n)
          (subst (λ x. event_of_key r.idempotency_key x ≡ none) q u) in
      rw hc'.0 (ap ok (hc'.1 ∙ ap (λ x. x ++ p.1 ∷ []) (sym q)))

  event_text-Written :
      (es : List StoredEvent) (r : EventRequest) (p : Option File × StoredEvent)
      → Written sha256 es r p
      → event_text p.1 ≡ request_text r
  unfolding event_text request_text
  event_text-Written es r p w = ap (λ q. event_text q.1) w.result

  -- what is read where the prepared file is in the directory
  pub Recorded-after :
      (d : Directory) (es : List StoredEvent) (r : EventRequest) (o : Option File) (e : StoredEvent)
      → WellFormed r
      → Numbered (suc (length es))
      → read_verified sha256 d ≡ ok es
      → Appended sha256 es r (o, e)
      → (event_text e ≡ request_text r) × Recorded (after (locked d) o) es r e
  unfolding Recorded Appended
  Recorded-after d es r o e f n h (inl k) =
      (k.1.1, inl (k.0, rw k.1.0 (read_verified-locked d ∙ h)))
  Recorded-after d es r o e f n h (inr k) = (
    event_text-Written es r (o, e) k.1,
    inr (
      k.0,
      read_verified-Written (locked d) es r (o, e) k.1 (read_verified-locked d ∙ h) f n k.0,
    ),
  )

  -- A call of `append` that returns, on a directory that reads back, returns an event that holds the
  -- request. Where an event has the key of the request, it is that event, and the directory reads
  -- back as before; otherwise the directory reads back with the returned event at the end.
  pub read_verified-append :
      (w : Commit) (d d' : Directory) (r : EventRequest) (es : List StoredEvent) (e : StoredEvent)
      → WellFormed r
      → Numbered (suc (length es))
      → read_verified sha256 d ≡ ok es
      → append sha256 w d r ≡ (d', ok e)
      → (event_text e ≡ request_text r) × Recorded d' es r e
  read_verified-append w d d' r es e f n h a =
      let (o, ho) = append-Appended w d d' r es e f h a in
      subst (λ x. (event_text e ≡ request_text r) × Recorded x es r e) (sym ho.1.1)
        (Recorded-after d es r o e f n h ho.1.0)

  -- the key of the event is that of the request
  pub key-Appended :
      (es : List StoredEvent) (r : EventRequest) (p : Option File × StoredEvent)
      → Appended sha256 es r p
      → p.1.idempotency_key ≡ r.idempotency_key
  unfolding Appended
  key-Appended es r p (inl o) = event_of_key-key r.idempotency_key es p.1 o.0
  key-Appended es r p (inr o) = ap (λ q. q.1.idempotency_key) o.1.result
