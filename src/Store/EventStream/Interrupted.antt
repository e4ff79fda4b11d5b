-- ===== src/Store/EventStream/Interrupted.antt =====
-- Calls of `append` whose write raises, and the retry after them.
use temper_ml.Base.{
  ok, err, length, Text, suc, ◌≡◌, refl, sym, ap, ◌∙◌, inl, inr, Option, none, some, List, [], ◌∷◌,
  ◌++◌,
}
use temper_ml.Store.EventStream.{
  File, Directory, unsafe_write, EventRequest, StoredEvent, Commit, committed, not_linked,
  unconfirmed,
}
use temper_ml.Store.EventStream.Names.{Numbered}
use temper_ml.Store.EventStream.Envelopes.{WellFormed}
use temper_ml.Store.EventStream.Reading.{read_verified}
use temper_ml.Store.EventStream.Appending.{
  locked, event_of_key, prepared, finish, append_locked, append,
}
use temper_ml.Store.EventStream.Appended.{after}
use temper_ml.Store.EventStream.Outcomes.{Appended}
use temper_ml.Store.EventStream.Promises.{
  read_verified-locked, append-Appended, Recorded, read_verified-append,
}
use temper_ml.Store.EventStream.Retries.{append-again}

module _ (sha256 : Text → Text) where
  -- a new key has a file to be written
  new-file :
      (r : EventRequest) (es : List StoredEvent) (o : Option File) (e : StoredEvent)
      → event_of_key r.idempotency_key es ≡ none
      → Appended sha256 es r (o, e)
      → (f : File) × (o ≡ some f)
  unfolding Appended
  new-file r es o e u (inl k) = cc (k.0, u)
  new-file r es o e u (inr k) = (_, ap (λ q. q.0) k.1.result)

  finish-new :
      (w : Commit) (d : Directory) (r : EventRequest) (f : File) (e : StoredEvent)
      → prepared sha256 (locked d) r ≡ ok (some f, e)
      → append sha256 w d r ≡ finish w (locked d) (ok (some f, e))
  unfolding append append_locked
  finish-new w d r f e p = rw p refl

  -- A request with a new key whose `append` would return, on a directory that reads back, when its
  -- write raises. Before the file is placed, the call raises and the events are as before. After
  -- that, the call raises too, but it leaves the directory of the call that returns: the event is
  -- read at the end, and a retry returns it and changes nothing, however its own write would end.
  pub append-interrupted :
      (v : Commit) (d d' : Directory) (r : EventRequest) (es : List StoredEvent) (e : StoredEvent)
      → WellFormed r
      → Numbered (suc (length es))
      → read_verified sha256 d ≡ ok es
      → event_of_key r.idempotency_key es ≡ none
      → append sha256 committed d r ≡ (d', ok e)
      → ((append sha256 not_linked d r ≡ (locked d, err unsafe_write))
          × (read_verified sha256 (locked d) ≡ ok es))
        × ((append sha256 unconfirmed d r ≡ (d', err unsafe_write))
            × ((read_verified sha256 d' ≡ ok (es ++ e ∷ [])) × (append sha256 v d' r ≡ (d', ok e))))
  unfolding finish Recorded
  append-interrupted v d d' r es e f n h u a =
      let (o, ho) = append-Appended sha256 committed d d' r es e f h a in
      let (g, hg) = new-file r es o e u ho.1.0 in
      let p : prepared sha256 (locked d) r ≡ ok (some g, e) = ho.0 ∙ ap (λ x. ok (x, e)) hg in
      let q : d' ≡ locked d ++ g ∷ [] = ho.1.1 ∙ ap (after (locked d)) hg in
      (
        (finish-new not_linked d r g e p, read_verified-locked sha256 d ∙ h),
        (
          finish-new unconfirmed d r g e p ∙ ap (λ x. (x, err unsafe_write)) (sym q),
          (
            elim (read_verified-append sha256 committed d d' r es e f n h a).1 [
              | inl k ↦ cc (k.0, u)
              | inr k ↦ k.1
            ],
            append-again sha256 committed v d d' r es e f n h a,
          ),
        ),
      )
