-- ===== src/Examples/Stores.antt =====
-- Paths and a write-once store at concrete values.
use temper_ml.Base.{
  nat_eq, List-discrete, list_eq, pos, ok, err, All, replicate, Text, codes, join, ◌≡◌, refl, ◌↔◌,
  List, [], ◌∷◌, ◌++◌, map, ℕ_discrete,
}
use temper_ml.Store.Json.{int, obj, Fields, no_fields, field}
use temper_ml.Store.Canonical.{is_encodable}
use temper_ml.Store.Scanner.RoundTrip.{Canonical}
use temper_ml.Domain.Projections.{
  ContentIdentity-discrete, content_identity, HashProjection, ContentIdentity,
}
use temper_ml.Store.Paths.{safe_relative_path, component, path_traversal, not_portable}
use temper_ml.Store.Paths.Parts.{
  SafePart, unified, safe_relative_path-SafePart, component-safe_relative_path,
}
use temper_ml.Store.WriteOnce.{
  Files, write_projected_json, read_projected_json, write_derived_state, exists, WrittenRecord,
}
use temper_ml.Store.WriteOnce.Records.{
  read_projected_json-write, write_projected_json-again, read_projected_json-Identified, Step,
  Steps,
}

abbrev run_area : Text
run_area = codes "records/run"

run_area_safe : safe_relative_path run_area ≡ ok (codes "records" ∷ codes "run" ∷ [])
unfolding safe_relative_path ℕ_discrete List-discrete
run_area_safe = refl

parent_refused : safe_relative_path (codes "records\\..\\x") ≡ err path_traversal
unfolding safe_relative_path ℕ_discrete List-discrete
parent_refused = refl

reserved_refused : component (codes "Con.txt") ≡ err not_portable
unfolding component ℕ_discrete List-discrete
reserved_refused = refl

run_component : component (codes "run") ≡ ok (codes "run")
unfolding component ℕ_discrete List-discrete
run_component = refl

safe_relative_path-SafePart_example :
    All SafePart (codes "records" ∷ codes "run" ∷ [])
    × (join (codes "/") (codes "records" ∷ codes "run" ∷ []) ≡ map unified run_area)
safe_relative_path-SafePart_example =
    safe_relative_path-SafePart run_area (codes "records" ∷ codes "run" ∷ []) run_area_safe

component-safe_relative_path_example :
    (component (codes "run") ≡ ok (codes "run"))
    ↔ (safe_relative_path (codes "run") ≡ ok (codes "run" ∷ []))
component-safe_relative_path_example = component-safe_relative_path (codes "run")

abbrev digest : Text → Text
digest t = replicate 64 b'a'

abbrev run_projection : HashProjection
run_projection = record { name = codes "run"; version = codes "v1" }

abbrev run_record : Fields
run_record = field (codes "n") (int (pos 1)) no_fields

abbrev run_identity : ContentIdentity
run_identity = record { algorithm = codes "sha256"; value = digest [] }

abbrev run_path : List Text
run_path =
    codes "immutable"
    ∷ codes "records"
    ∷ codes "run"
    ∷ codes "sha256"
    ∷ (digest [] ++ codes ".json")
    ∷ []

abbrev one_record : Files
one_record = (run_path, codes "{\"n\":1}\n") ∷ []

abbrev run_written : Files × WrittenRecord
run_written = (one_record, record { identity = run_identity; path = run_path })

run_writes : write_projected_json digest [] run_area run_projection run_record ≡ ok run_written
unfolding write_projected_json ℕ_discrete List-discrete
run_writes = refl

run_record-Canonical : Canonical (obj run_record)
unfolding Canonical is_encodable
run_record-Canonical = ((tt, tt), ((refl, tt), (tt, tt)))

abbrev two_files : Files
two_files =
    (run_path, codes "{\"n\":1}\n") ∷ (codes "derived" ∷ codes "s.json" ∷ [], codes "{}\n") ∷ []

state_written :
    write_derived_state one_record (codes "s.txt") no_fields
    ≡ ok (two_files, codes "derived" ∷ codes "s.json" ∷ [])
unfolding write_derived_state ℕ_discrete List-discrete
state_written = refl

later-Steps : Steps digest one_record two_files
later-Steps =
    Steps.step
      (Step.derive (codes "s.txt") no_fields (two_files, codes "derived" ∷ codes "s.json" ∷ [])
        state_written)
      Steps.stop

read_projected_json-write_example :
    read_projected_json digest two_files run_area run_projection run_identity ≡ ok run_record
read_projected_json-write_example =
    read_projected_json-write digest [] two_files run_area run_projection run_record run_written
      run_record-Canonical run_writes later-Steps

write_projected_json-again_example :
    write_projected_json digest two_files run_area run_projection run_record ≡ err exists
write_projected_json-again_example =
    write_projected_json-again digest [] two_files run_area run_projection run_record run_written
      run_record-Canonical run_writes later-Steps

run_read :
    read_projected_json digest one_record run_area run_projection run_identity ≡ ok run_record
unfolding read_projected_json ℕ_discrete List-discrete ContentIdentity-discrete
run_read = refl

read_projected_json-Identified_example :
    content_identity digest run_projection run_record ≡ ok run_identity
read_projected_json-Identified_example =
    read_projected_json-Identified digest one_record run_area run_projection run_identity run_record
      run_read
