-- ===== src/Domain/Experiments/Changes/Placement.antt =====
-- Where the changes of one value stand, and that the change of a value that is replaced covers it.
use mathlib.Core.Path.{ap₂}
use temper_ml.Base.{
  nat_eq, list_eq, unbind, ok_inj, Result, ok, Text, ◌≡◌, refl, sym, ap, ◌∙◌, subst, Bool, true,
  false, some, append_assoc, append-nil, Permᴰ, List, [], ◌∷◌, ◌++◌, map,
}
use temper_ml.Store.Json.{Json, obj, Fields, no_fields, field}
use temper_ml.Store.Json.Keys.{SortedFields}
use temper_ml.Domain.Experiments.Pointer.{escape_pointer, pointer}
use temper_ml.Domain.Experiments.Changes.{
  replaces, canonical_equal, make_change, child_path, one_change, replace_unless, replace_value,
  replace, ManifestError, Edit, ManifestChange,
}
use temper_ml.Domain.Experiments.Changes.Outcomes.{encode-of_equal, make_change-replace}
use temper_ml.Domain.Experiments.Edits.{Edits}
use temper_ml.Domain.Experiments.Coverage.{Covers, untouched, replaced}

-- the change that an edit is below these keys
abbrev pub placed : List Text → List Text × Edit → ManifestChange
placed ks a = record { path = pointer (ks ++ a.0); edit = a.1 }

unfoldable pub push : Text → List Text × Edit → List Text × Edit
push k a = (k ∷ a.0, a.1)

abbrev pub Covered : List Text → List ManifestChange → Json → Json → Type 0
Covered ks cs p d = (l : Edits) × (Permᴰ cs (map (placed ks) l) × Covers l p d)

-- dicts with their keys in order, at every depth that a diff reaches
unfoldable mutual
  pub Ordered : Json → Type 0
  Ordered (obj fs) = SortedFields fs × OrderedFields fs
  Ordered _ = Unit

  pub OrderedFields : Fields → Type 0
  OrderedFields no_fields = Unit
  OrderedFields (field k v fs) = Ordered v × OrderedFields fs

pub pointer-snoc : (ks : List Text) (k : Text) → child_path (pointer ks) k ≡ pointer (ks ++ k ∷ [])
unfolding pointer
pointer-snoc [] k = ap (λ t. b'/' ∷ t) (sym (append-nil (escape_pointer k)))
pointer-snoc (j ∷ ks) k =
    ap (λ t. b'/' ∷ t)
      (append_assoc (escape_pointer j) (pointer ks) (b'/' ∷ escape_pointer k)
        ∙ ap (λ t. escape_pointer j ++ t) (pointer-snoc ks k))

pub map-placed :
    (ks : List Text) (k : Text) (l : Edits)
    → map (placed (ks ++ k ∷ [])) l ≡ map (placed ks) (map (push k) l)
unfolding push
map-placed ks k [] = refl
map-placed ks k (a ∷ l) =
    ap₂ ◌∷◌ (ap (λ ts. record { path = pointer ts; edit = a.1 }) (append_assoc ks (k ∷ []) a.0))
      (map-placed ks k l)

pub one_change-Covered :
    (ks : List Text) (r : Result ManifestError ManifestChange) (e : Edit) (cs : List ManifestChange)
    → ((c : ManifestChange) → r ≡ ok c → c ≡ record { path = pointer ks; edit = e })
    → one_change r ≡ ok cs
    → Permᴰ cs (map (placed ks) (([], e) ∷ []))
unfolding one_change
one_change-Covered ks r e cs f h =
    let (c, (made, one)) = unbind (λ c. ok (c ∷ [])) cs r h in
    let q : c ≡ placed ks ([], e) =
      f c made ∙ ap (λ ts. record { path = pointer ts; edit = e }) (sym (append-nil ks)) in
    subst (λ xs. Permᴰ xs (placed ks ([], e) ∷ [])) (ok_inj (c ∷ []) cs one)
      (Permᴰ.cons q Permᴰ.nil)

replaced-Covered :
    (ks : List Text) (p d : Json) (cs : List ManifestChange) (same : Bool)
    → canonical_equal p d ≡ ok same
    → replace_unless same (pointer ks) p d ≡ ok cs
    → Covered ks cs p d
unfolding replace_unless one_change
replaced-Covered ks p d cs true q h = (
  [],
  (subst (λ xs. Permᴰ xs []) (ok_inj [] cs h) Permᴰ.nil, untouched refl (encode-of_equal p d q)),
)
replaced-Covered ks p d cs false q h =
    let r = make_change (pointer ks) replace (some p) (some d) in
    let (c, (made, one)) = unbind (λ c. ok (c ∷ [])) cs r h in
    (
      ([], replaces p d) ∷ [],
      (
        one_change-Covered ks r (replaces p d) cs
            (λ c m. (make_change-replace (pointer ks) p d c m).0) h,
        replaced refl (make_change-replace (pointer ks) p d c made).1,
      ),
    )

pub replace_value-Covered :
    (ks : List Text) (p d : Json) (cs : List ManifestChange)
    → replace_value (pointer ks) p d ≡ ok cs
    → Covered ks cs p d
unfolding replace_value
replace_value-Covered ks p d cs h =
    let (same, (q, rest)) =
      unbind (λ same. replace_unless same (pointer ks) p d) cs (canonical_equal p d) h in
    replaced-Covered ks p d cs same q rest
