-- ===== src/Examples/Streams.antt =====
-- Canonical JSON that is read back, and an event stream, at concrete values.
use temper_ml.Base.{
  nat_eq, List-discrete, list_eq, negsuc, ok_inj, ok, err, length, All, is_unique, replicate, Text,
  codes, text_lt, ℕ, suc, ◌≡◌, refl, sym, ◌∙◌, subst, inl, inr, true, none, some, List, [], ◌∷◌,
  ℕ_discrete,
}
use temper_ml.Store.Json.{
  finite, Json, null, bool, int, decimal, str, arr, obj, no_items, item, no_fields, field,
}
use temper_ml.Store.Canonical.{
  show_ℕ, is_encodable, dumps_canonical_json, duplicate_key, not_canonical_form,
}
use temper_ml.Store.Loads.{json_loads, loads_canonical_json, loads_canonical_json-Canonical}
use temper_ml.Store.Loads.RoundTrip.{loads_canonical_json-dumps_canonical_json}
use temper_ml.Store.Scanner.RoundTrip.{Canonical}
use temper_ml.Store.EventStream.{
  Directory, event_name, unexpected_entry, unsafe_write, EventRequest, StoredEvent, committed,
  not_linked, unconfirmed,
}
use temper_ml.Store.EventStream.Names.{Numbered}
use temper_ml.Store.EventStream.Envelopes.{WellFormed}
use temper_ml.Store.EventStream.Reading.{read_verified, rebuild}
use temper_ml.Store.EventStream.Appending.{locked, event_of_key, append}
use temper_ml.Store.EventStream.Digests.{Stored}
use temper_ml.Store.EventStream.Chains.{LinkedFrom, keys_of, read_verified-Linked}
use temper_ml.Store.EventStream.Outcomes.{request_text, event_text}
use temper_ml.Store.EventStream.Promises.{Recorded, read_verified-append}
use temper_ml.Store.EventStream.Retries.{
  Reachable-readable, rebuild-append, append-again, Reachable,
}
use temper_ml.Store.EventStream.Interrupted.{append-interrupted}
use temper_ml.Store.EventStream.Log.{log_append, log_of, append-log_append}

abbrev sha256 : Text → Text
sha256 t = replicate 64 b'a'

abbrev start : EventRequest
start = record { idempotency_key = codes "k"; event_type = codes "t"; payload = no_fields }

abbrev one_file : Directory
one_file = (append sha256 committed [] start).0

abbrev started : StoredEvent
started = record {
  sequence = 1;
  predecessor_hash = none;
  idempotency_key = codes "k";
  event_type = codes "t";
  payload = no_fields;
  identity = record { algorithm = codes "sha256"; value = replicate 64 b'a' };
  path = event_name 1 (replicate 64 b'a');
}

none_read : read_verified sha256 [] ≡ ok []
unfolding read_verified
none_read = refl

one_appended : append sha256 committed [] start ≡ (one_file, ok started)
unfolding append event_name ℕ_discrete List-discrete
one_appended = refl

one-Numbered : Numbered 1
unfolding show_ℕ
one-Numbered = refl

start-WellFormed : WellFormed start
unfolding Canonical is_encodable
start-WellFormed = record {
  key_filled = tt;
  type_filled = tt;
  key_encodable = (refl, tt);
  type_encodable = (refl, tt);
  payload_canonical = (tt, tt);
}

abbrev record_value : Json
record_value = obj (
    field (codes "a") (arr (item (int (negsuc 19)) (item (bool true) no_items))) (
      field (codes "b\"")
        (decimal (record { sign = true; digits = 5 ∷ []; exponent = finite (negsuc 1) }))
        no_fields))

abbrev record_text : Text
record_text = codes "{\"a\":[-20,true],\"b\\\"\":-0.05}\n"

record_dumped : dumps_canonical_json record_value ≡ ok record_text
unfolding dumps_canonical_json ℕ_discrete
record_dumped = refl

loads_canonical_json-dumps_canonical_json_example :
    loads_canonical_json record_text ≡ ok record_value
unfolding Canonical is_encodable ℕ_discrete text_lt
loads_canonical_json-dumps_canonical_json_example =
    loads_canonical_json-dumps_canonical_json record_value record_text
      (
        ((refl, tt), (tt, tt)),
        ((refl, tt), ((tt, (tt, tt)), ((refl, (refl, tt)), ((refl, (refl, tt)), tt)))),
      )
      record_dumped

null_loaded : loads_canonical_json (codes "null\n") ≡ ok null
unfolding loads_canonical_json ℕ_discrete List-discrete
null_loaded = refl

loads_canonical_json-Canonical_example : dumps_canonical_json null ≡ ok (codes "null\n")
loads_canonical_json-Canonical_example =
    loads_canonical_json-Canonical (codes "null\n") null null_loaded

spaces_refused : loads_canonical_json (codes "[1, 2]\n") ≡ err not_canonical_form
unfolding loads_canonical_json ℕ_discrete List-discrete
spaces_refused = refl

duplicate_refused : loads_canonical_json (codes "{\"a\":1,\"a\":1}\n") ≡ err duplicate_key
unfolding loads_canonical_json ℕ_discrete List-discrete
duplicate_refused = refl

surrogates_paired : json_loads (codes "\"\\ud83d\\ude00\"") ≡ ok (str (0x1F600 ∷ []))
unfolding json_loads ℕ_discrete
surrogates_paired = refl

read_verified-append_example :
    (event_text started ≡ request_text start) × Recorded sha256 one_file [] start started
read_verified-append_example =
    read_verified-append sha256 committed [] one_file start [] started start-WellFormed one-Numbered
      none_read one_appended

one_read : read_verified sha256 one_file ≡ ok (started ∷ [])
unfolding Recorded event_of_key
one_read = elim read_verified-append_example.1 [ inl o ↦ cc o.0 | inr o ↦ o.1 ]

read_verified-Linked_example :
    LinkedFrom 1 none (started ∷ [])
    × ((is_unique (keys_of (started ∷ [])) ≡ true) × All (Stored sha256 one_file) (started ∷ []))
read_verified-Linked_example = read_verified-Linked sha256 one_file (started ∷ []) one_read

abbrev broken : Directory
broken = (codes "notes.txt", []) ∷ []

broken-append : append sha256 committed broken start ≡ (locked broken, err unexpected_entry)
unfolding append ℕ_discrete List-discrete
broken-append = refl

append-interrupted_example :
    ((append sha256 not_linked [] start ≡ (locked [], err unsafe_write))
      × (read_verified sha256 (locked []) ≡ ok []))
    × ((append sha256 unconfirmed [] start ≡ (one_file, err unsafe_write))
        × ((read_verified sha256 one_file ≡ ok (started ∷ []))
            × (append sha256 not_linked one_file start ≡ (one_file, ok started))))
unfolding event_of_key
append-interrupted_example =
    append-interrupted sha256 not_linked [] one_file start [] started start-WellFormed one-Numbered
      none_read refl one_appended

Reachable-readable_example : (es : List StoredEvent) × (read_verified sha256 one_file ≡ ok es)
Reachable-readable_example = Reachable-readable sha256 one_file (
    Reachable.appended committed start Reachable.empty start-WellFormed (λ es h.
      subst (λ x. Numbered (suc (length x))) (ok_inj [] es (sym none_read ∙ h)) one-Numbered))

abbrev count : ℕ → StoredEvent → ℕ
count n e = suc n

rebuild-append_example : rebuild sha256 count 0 one_file ≡ ok 1
unfolding event_of_key rebuild
rebuild-append_example =
    rebuild-append sha256 count 0 0 committed [] one_file start [] started start-WellFormed
      one-Numbered none_read refl one_appended refl

append-again_example : append sha256 unconfirmed one_file start ≡ (one_file, ok started)
append-again_example =
    append-again sha256 committed unconfirmed [] one_file start [] started start-WellFormed
      one-Numbered none_read one_appended

start_text :
    request_text start
    ≡ ok (codes "{\"event_type\":\"t\",\"idempotency_key\":\"k\",\"payload\":{}}\n")
unfolding request_text ℕ_discrete
start_text = refl

append-log_append_example :
    (es : List StoredEvent) × ((read_verified sha256 one_file ≡ ok es)
      × (log_append
            (log_of [])
            (codes "k")
            (codes "{\"event_type\":\"t\",\"idempotency_key\":\"k\",\"payload\":{}}\n")
          ≡ some (log_of es)))
append-log_append_example =
    append-log_append sha256 committed [] one_file start [] started
      (codes "{\"event_type\":\"t\",\"idempotency_key\":\"k\",\"payload\":{}}\n") start-WellFormed
      one-Numbered start_text none_read one_appended
