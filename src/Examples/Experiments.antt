-- ===== src/Examples/Experiments.antt =====
-- Pointers, diffs and their replay at concrete manifests.
use temper_ml.Base.{
  List-discrete, pos, ok, length, replicate, Text, codes, text_lt, ℕ, ◌+◌, ◌%◌, ◌≡◌, refl, List, [],
  ◌∷◌, ◌++◌, arith, ℕ_discrete,
}
use temper_ml.Store.Json.{int, str, obj, Fields, no_fields, field}
use temper_ml.Store.Canonical.{dumps_canonical_json}
use temper_ml.Domain.Projections.{ContentIdentity-discrete, ContentIdentity}
use temper_ml.Domain.Experiments.Manifests.{between, apply, ManifestDiff}
use temper_ml.Domain.Experiments.Replay.{apply-between}
use temper_ml.Domain.Experiments.Changes.Placement.{Ordered}
use temper_ml.Domain.Experiments.Changes.{diff_values, adds, removes, replaces, ManifestChange}
use temper_ml.Domain.Experiments.Pointer.{escape_pointer, parse_pointer, pointer}
use temper_ml.Domain.Experiments.Pointer.RoundTrip.{parse-pointer}

parse-pointer_example :
    parse_pointer (pointer (codes "a/b" ∷ codes "~1" ∷ [])) ≡ ok (codes "a/b" ∷ codes "~1" ∷ [])
parse-pointer_example = parse-pointer (codes "a/b" ∷ codes "~1" ∷ [])

escaped : pointer (codes "a/b" ∷ codes "~1" ∷ []) ≡ codes "/a~1b/~01"
unfolding pointer ℕ_discrete
escaped = refl

-- a stand-in for the digest, of the right form
abbrev digest : Text → Text
digest t = replicate 63 b'0' ++ (b'0' + length t % 10) ∷ []

abbrev parent : Fields
parent = field (codes "lr") (int (pos 3)) (
    field (codes "model") (obj (field (codes "name") (str (codes "tiny")) no_fields))
      (field (codes "seed") (int (pos 7)) no_fields))

abbrev derived : Fields
derived = field (codes "epochs") (int (pos 2)) (
    field (codes "lr") (int (pos 4))
      (field (codes "model") (obj (field (codes "a/b") (int (pos 1)) no_fields)) no_fields))

abbrev found : List ManifestChange
found =
    record { path = codes "/epochs"; edit = adds (int (pos 2)) }
    ∷ record { path = codes "/lr"; edit = replaces (int (pos 3)) (int (pos 4)) }
    ∷ record { path = codes "/model/a~1b"; edit = adds (int (pos 1)) }
    ∷ record { path = codes "/model/name"; edit = removes (str (codes "tiny")) }
    ∷ record { path = codes "/seed"; edit = removes (int (pos 7)) }
    ∷ []

all_changes : diff_values [] (obj parent) (obj derived) ≡ ok found
unfolding diff_values escape_pointer ℕ_discrete List-discrete
all_changes = refl

abbrev hash : ℕ → ContentIdentity
hash c = record { algorithm = codes "sha256"; value = replicate 63 b'0' ++ c ∷ [] }

abbrev diff : ManifestDiff
diff = record {
  diff_id = codes "diff-1";
  parent_manifest_identity = hash b'2';
  derived_manifest_identity = hash b'8';
  changes = found;
}

is_between : between digest (codes "diff-1") parent derived ≡ ok diff
unfolding between escape_pointer ContentIdentity-discrete ℕ_discrete List-discrete
is_between = refl

parent-Ordered : Ordered (obj parent)
unfolding Ordered text_lt
parent-Ordered = ground arith

derived-Ordered : Ordered (obj derived)
unfolding Ordered text_lt
derived-Ordered = ground arith

apply-between_example :
    (r : Fields) × ((apply digest diff parent ≡ ok (obj r))
      × (dumps_canonical_json (obj r) ≡ dumps_canonical_json (obj derived)))
apply-between_example =
    apply-between digest (codes "diff-1") parent derived diff parent-Ordered derived-Ordered
      is_between
