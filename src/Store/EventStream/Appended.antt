-- ===== src/Store/EventStream/Appended.antt =====
-- `append`, and the events that `read_verified` returns before and after it.
use temper_ml.Base.{
  nat_eq, list_eq, option_eq, eq_refl, is_some, unbind, ok_inj, ok, length, sort_by, Text, find, ℕ,
  suc, ◌≡◌, refl, sym, ap, ◌∙◌, subst, not, Option, none, some, List, [], ◌∷◌, ◌++◌,
}
use temper_ml.Store.Json.{obj, Fields}
use temper_ml.Store.Canonical.{dumps_canonical_json}
use temper_ml.Store.Loads.RoundTrip.{loads_canonical_json-dumps_canonical_json}
use temper_ml.Domain.Projections.{content_identity, ContentIdentity}
use temper_ml.Store.EventStream.{
  File, Directory, event_projection, envelope_fields, event_name, path_exists, EventRequest,
  StoredEvent,
}
use temper_ml.Store.EventStream.Names.{
  Numbered, match_event_name-event_name, has_json_suffix-event_name,
}
use temper_ml.Store.EventStream.Steps.{ensure-lem, hashed-lem, written-lem}
use temper_ml.Store.EventStream.Envelopes.{
  IsDigest, envelope_fields-Canonical, validate_envelope-envelope_fields, WellFormed,
}
use temper_ml.Store.EventStream.Reading.{
  empty_chain, filename_of, object_of, hashed, written, linked, check_link, verify_event,
  event_files, name_lt, read_chain, Chain,
}
use temper_ml.Store.EventStream.Appending.{event_of_key, last_value, new_event}
use temper_ml.Store.EventStream.Entries.{
  event_files-snoc, verify_events-snoc, sort_by-event_name, not_skipped,
}
use temper_ml.Store.EventStream.Consistency.{
  content_identity-digest, empty_chain-Consistent, Below, verify_events-Consistent, Consistent,
}
use temper_ml.Domain.Projections.{content_identity, ContentIdentity}

pub envelope_of : EventRequest → ℕ → Option Text → Fields
unfolding envelope_fields
envelope_of r n p = envelope_fields n p r.idempotency_key r.event_type r.payload

-- the directory with the file
abbrev pub after : Directory → Option File → Directory
after d none = d
after d (some f) = d ++ f ∷ []

module _ (sha256 : Text → Text) where
  -- What was written, when the call of `new_event` returned.
  pub record Written (es : List StoredEvent) (r : EventRequest) (p : Option File × StoredEvent)
      : Type 0 where
    pub identity : ContentIdentity
    pub text : Text
    pub identified :
        content_identity sha256 event_projection (envelope_of r (suc (length es)) (last_value es))
        ≡ ok identity
    pub dumped :
        dumps_canonical_json (obj (envelope_of r (suc (length es)) (last_value es))) ≡ ok text
    pub result : p ≡ (
      some (event_name (suc (length es)) identity.value, text),
      record {
        sequence = suc (length es);
        predecessor_hash = last_value es;
        idempotency_key = r.idempotency_key;
        event_type = r.event_type;
        payload = r.payload;
        identity = identity;
        path = event_name (suc (length es)) identity.value;
      },
    )

  pub new_event-Written :
      (d : Directory) (es : List StoredEvent) (r : EventRequest) (p : Option File × StoredEvent)
      → new_event sha256 d es r r.payload ≡ ok p
      → Written es r p
  unfolding new_event envelope_of
  new_event-Written d es r p h =
      let envelope = envelope_of r (suc (length es)) (last_value es) in
      let (i, hi) = unbind _ p (hashed (content_identity sha256 event_projection envelope)) h in
      let s =
        ensure-lem (not (is_some (find (event_name (suc (length es)) i.value) d))) path_exists _ p
          hi.1 in
      let (t, ht) = unbind _ p (written (dumps_canonical_json (obj envelope))) s.1 in
      record {
        identity = i;
        text = t;
        identified = hashed-lem (content_identity sha256 event_projection envelope) i hi.0;
        dumped = written-lem (dumps_canonical_json (obj envelope)) t ht.0;
        result = sym (ok_inj _ p ht.1);
      }

  -- The file that was written is read as the next event of the chain.
  verify_event-Written :
      (c : Chain) (r : EventRequest) (p : Option File × StoredEvent)
      → (w : Written c.events r p) → WellFormed r
      → Consistent c
      → Numbered (suc (length c.events))
      → event_of_key r.idempotency_key c.events ≡ none
      → (c' : Chain) × ((verify_event sha256 c
              (event_name (suc (length c.events)) w.identity.value, w.text)
            ≡ ok c')
          × (c'.events ≡ c.events ++ p.1 ∷ []))
  unfolding verify_event envelope_of filename_of object_of check_link hashed written linked
  verify_event-Written c r p w f s n u =
      let envelope = envelope_of r (suc (length c.events)) (last_value c.events) in
      let digest =
        content_identity-digest sha256 event_projection envelope w.identity w.identified in
      let older : IsDigest (last_value c.events) = subst IsDigest s.last s.digest in
      let loaded =
        loads_canonical_json-dumps_canonical_json (obj envelope) w.text
          (envelope_fields-Canonical (suc (length c.events)) (last_value c.events) r older f)
          w.dumped in
      (
        linked c (event_name (suc (length c.events)) w.identity.value)
            (record {
              sequence = suc (length c.events);
              predecessor_hash = last_value c.events;
              idempotency_key = r.idempotency_key;
              event_type = r.event_type;
              payload = r.payload;
            })
            w.identity,
        (
          rw
              (
                match_event_name-event_name (suc (length c.events)) w.identity.value n digest,
                loaded,
                validate_envelope-envelope_fields (length c.events) (last_value c.events)
                    r.idempotency_key r.event_type r.payload older f.key_filled f.type_filled,
                s.numbered,
                s.last,
                s.unused r.idempotency_key u,
                w.identified,
                w.dumped,
                eq_refl (suc (length c.events)),
                eq_refl (last_value c.events),
                eq_refl w.identity.value,
                eq_refl w.text,
              )
              refl,
          ap (λ q. c.events ++ q.1 ∷ []) (sym w.result),
        ),
      )

  -- The directory with the new file reads as the chain with the new event.
  pub read_chain-Written :
      (d : Directory) (c : Chain) (r : EventRequest) (p : Option File × StoredEvent)
      → Written c.events r p
      → read_chain sha256 d ≡ ok c
      → WellFormed r
      → Numbered (suc (length c.events))
      → event_of_key r.idempotency_key c.events ≡ none
      → (c' : Chain) × ((read_chain sha256 (after d p.0) ≡ ok c')
          × (c'.events ≡ c.events ++ p.1 ∷ []))
  unfolding read_chain
  read_chain-Written d c r p w h f n u =
      let (fs, hf) = unbind _ c (event_files d) h in
      let s =
        verify_events-Consistent sha256 empty_chain (sort_by name_lt fs) c hf.1
          empty_chain-Consistent in
      let m = suc (length c.events) in
      let name = event_name m w.identity.value in
      let digest =
        content_identity-digest sha256 event_projection (envelope_of r m (last_value c.events))
          w.identity w.identified in
      let (c', hc) = verify_event-Written c r p w f s.0 n u in
      let files : event_files (after d p.0) ≡ ok (fs ++ (name, w.text) ∷ []) = rw w.result (
        event_files-snoc d (name, w.text) fs (not_skipped m w.identity.value n digest)
          (has_json_suffix-event_name m w.identity.value n digest) hf.0) in
      let place =
        sort_by-event_name m w.identity.value w.text fs n
          (subst (λ k. Below k (sort_by name_lt fs)) s.0.numbered s.1.1) in
      (
        c',
        (
          rw (files, place)
              (verify_events-snoc sha256 empty_chain c (sort_by name_lt fs) (name, w.text) hf.1
                ∙ hc.0),
          hc.1,
        ),
      )
