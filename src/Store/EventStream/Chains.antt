-- ===== src/Store/EventStream/Chains.antt =====
-- The chain that `read_verified` returns: numbered from 1, each event linked to the one before, and
-- each key once.
use temper_ml.Base.{
  nat_eq, list_eq, option_eq, unbind, ok_inj, ok, All, contains, is_unique, sort_by, Text, ℕ, suc,
  ◌≡◌, refl, sym, ◌∙◌, subst, true, false, Option, none, some, append_assoc, append-nil, List, [],
  ◌∷◌, ◌++◌, map, arith,
}
use temper_ml.Domain.Projections.{ContentIdentity}
use temper_ml.Store.EventStream.{Directory, StoredEvent}
use temper_ml.Store.EventStream.Reading.{
  empty_chain, linked, verify_event, verify_events, event_files, name_lt, read_chain, read_verified,
  Envelope, Chain,
}
use temper_ml.Store.EventStream.Digests.{read_chain-Stored, Stored}
use temper_ml.Store.EventStream.Steps.{verify_event-Verified, Verified}

-- Events that follow the number and the digest given.
abbrev pub LinkedFrom : ℕ → Option Text → List StoredEvent → Type 0
LinkedFrom n p [] = Unit
LinkedFrom n p (e ∷ es) =
    (e.sequence ≡ n) × ((e.predecessor_hash ≡ p) × LinkedFrom (suc n) (some e.identity.value) es)

abbrev pub keys_of : List StoredEvent → List Text
keys_of es = map (λ e. e.idempotency_key) es

-- no key was seen before
abbrev Unseen : List Text → List StoredEvent → Type 0
Unseen seen es = All (λ e. contains e.idempotency_key seen ≡ false) es

contains-older :
    (a k : Text) (seen : List Text) → contains a (k ∷ seen) ≡ false → contains a seen ≡ false
unfolding contains
contains-older a k seen h = ground (arith, h)

Unseen-older :
    (k : Text) (seen : List Text) (es : List StoredEvent) → Unseen (k ∷ seen) es → Unseen seen es
Unseen-older k seen [] u = tt
Unseen-older k seen (e ∷ es) u =
    (contains-older e.idempotency_key k seen u.0, Unseen-older k seen es u.1)

Unseen-key :
    (k : Text) (seen : List Text) (es : List StoredEvent)
    → Unseen (k ∷ seen) es
    → contains k (keys_of es) ≡ false
unfolding contains
Unseen-key k seen [] u = refl
Unseen-key k seen (e ∷ es) u = ground (arith, u.0, Unseen-key k seen es u.1)

-- What the loop adds to a chain.
pub record Extends (c c' : Chain) : Type 0 where
  pub added : List StoredEvent
  pub all_events : c'.events ≡ c.events ++ added
  pub links : LinkedFrom c.expected_sequence c.predecessor added
  pub unseen : Unseen c.seen_keys added
  pub once : is_unique (keys_of added) ≡ true

Extends-none : (c : Chain) → Extends c c
unfolding is_unique
Extends-none c = record {
  added = [];
  all_events = sym (append-nil c.events);
  links = tt;
  unseen = tt;
  once = refl;
}

event_of : Text → Envelope → ContentIdentity → StoredEvent
event_of name e i = record {
  sequence = e.sequence;
  predecessor_hash = e.predecessor_hash;
  idempotency_key = e.idempotency_key;
  event_type = e.event_type;
  payload = e.payload;
  identity = i;
  path = name;
}

Extends-step :
    (sha256 : Text → Text) (c : Chain) (name raw : Text) (c' d : Chain)
    → Verified sha256 c name raw c'
    → Extends c' d
    → Extends c d
unfolding linked is_unique event_of
Extends-step sha256 c name raw c' d v x =
    let e = event_of name v.envelope v.identity in
    let y : Extends (linked c name v.envelope v.identity) d = subst (λ z. Extends z d) v.result x in
    record {
      added = e ∷ y.added;
      all_events = y.all_events ∙ append_assoc c.events (e ∷ []) y.added;
      links = (v.expected, (v.follows, y.links));
      unseen = (v.fresh, Unseen-older v.envelope.idempotency_key c.seen_keys y.added y.unseen);
      once = rw (Unseen-key v.envelope.idempotency_key c.seen_keys y.added y.unseen) y.once;
    }

verify_events-Extends :
    (sha256 : Text → Text) (c : Chain) (fs : Directory) (d : Chain)
    → verify_events sha256 c fs ≡ ok d
    → Extends c d
unfolding verify_events
verify_events-Extends sha256 c [] d h = subst (Extends c) (ok_inj c d h) (Extends-none c)
verify_events-Extends sha256 c (f ∷ fs) d h =
    let (c', hc) = unbind _ d (verify_event sha256 c f) h in
    Extends-step sha256 c f.0 f.1 c' d (verify_event-Verified sha256 c f.0 f.1 c' hc.0)
      (verify_events-Extends sha256 c' fs d hc.1)

-- The events that are read are numbered from 1 without a gap, each holds the digest of the one
-- before it, the first one holds none, and no key is used twice. Each event is what a file of the
-- directory holds, its name spells the number and the digest, and the digest is the one of the
-- projection of the envelope in the file.
pub read_verified-Linked :
    (sha256 : Text → Text) (d : Directory) (es : List StoredEvent)
    → read_verified sha256 d ≡ ok es
    → LinkedFrom 1 none es × ((is_unique (keys_of es) ≡ true) × All (Stored sha256 d) es)
unfolding read_verified read_chain
read_verified-Linked sha256 d es h =
    let (c, hc) = unbind _ es (read_chain sha256 d) h in
    let (fs, hf) = unbind _ c (event_files d) hc.0 in
    let x = verify_events-Extends sha256 empty_chain (sort_by name_lt fs) c hf.1 in
    let q : x.added ≡ es = sym x.all_events ∙ ok_inj c.events es hc.1 in
    let s = read_chain-Stored sha256 d c fs hf.0 hf.1 in
    subst (λ z. LinkedFrom 1 none z × ((is_unique (keys_of z) ≡ true) × All (Stored sha256 d) z)) q
      (x.links, (x.once, subst (All (Stored sha256 d)) x.all_events s))
