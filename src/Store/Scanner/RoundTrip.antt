-- ===== src/Store/Scanner/RoundTrip.antt =====
-- What `_encode` writes, `scan_once` reads back, whatever stands behind it that ends a number.
use temper_ml.Base.{
  if◌then◌else◌, nat_eq, list_eq, ok, length, length-append, All, Text, codes, join, ℕ, zero, suc,
  ◌+◌, ◌≤◌, ◌≡◌, refl, sym, subst, Bool, true, some, append_assoc, List, ◌∷◌, ◌++◌, arith,
  ℕ_discrete,
}
use temper_ml.Store.Json.{
  Json, null, bool, int, decimal, str, arr, obj, Items, no_items, item, Fields, no_fields, field,
}
use temper_ml.Store.Json.Keys.{SortedFields}
use temper_ml.Store.Canonical.{encode_text, member, is_encodable}
use temper_ml.Store.Scanner.Numbers.{match_number}
use temper_ml.Store.Scanner.Integers.{Ends}
use temper_ml.Store.Scanner.Decimals.{Significant}
use temper_ml.Store.Scanner.Values.{
  is_space, skip_spaces, start_of, follow_of, scan_key, dict_value, scan_value, scan_items,
  scan_fields,
}
use temper_ml.Store.Scanner.Scalars.{
  scan_value-number, scan_value-encode_text, scan_value-null, scan_value-bool,
}
use temper_ml.Store.Scanner.Dicts.{reject_duplicate_keys-Sorted}
use temper_ml.Store.Scanner.Openings.{
  skip_spaces-Opens, follow_of-Opens, OpensKey-Opens, follow_of-OpensKey, scan_value-Opens,
  scan_items-Opens, scan_fields-OpensKey, scan_key-encode_text,
}

abbrev pub Encodable : Text → Type 0
Encodable t = All (λ c. is_encodable c ≡ true) t

-- The values that Python holds in one way: decimals without leading zeros, texts without lone
-- surrogates, and dicts with each key once (they are held with their keys in order).
unfoldable mutual
  pub Canonical : Json → Type 0
  Canonical null = Unit
  Canonical (bool b) = Unit
  Canonical (int z) = Unit
  Canonical (decimal d) = Significant d.digits
  Canonical (str t) = Encodable t
  Canonical (arr xs) = CanonicalItems xs
  Canonical (obj fs) = SortedFields fs × CanonicalFields fs

  pub CanonicalItems : Items → Type 0
  CanonicalItems no_items = Unit
  CanonicalItems (item x xs) = Canonical x × CanonicalItems xs

  pub CanonicalFields : Fields → Type 0
  CanonicalFields no_fields = Unit
  CanonicalFields (field k v fs) = Encodable k × (Canonical v × CanonicalFields fs)

-- `t` is read as `v`, given fuel for its length.
abbrev pub Reads : Json → Text → Type 0
Reads v t =
    (n : ℕ) (rest : Text)
    → suc (length t + length t) ≤ n
    → Ends rest
    → scan_value n (t ++ rest) ≡ ok (v, rest)

abbrev pub ReadsItems : Items → Text → Type 0
ReadsItems xs t =
    (n : ℕ) (rest : Text)
    → suc (suc (length t + length t)) ≤ n
    → scan_items n (t ++ b']' ∷ rest) ≡ ok (xs, rest)

abbrev pub ReadsFields : Fields → Text → Type 0
ReadsFields fs t =
    (n : ℕ) (rest : Text)
    → suc (suc (length t + length t)) ≤ n
    → scan_fields n (t ++ b'}' ∷ rest) ≡ ok (fs, rest)

-- fuel that is enough is not empty
le-zero : (m : ℕ) → suc m ≤ 0 → ⊥
le-zero m h = omega (arith, h)

fuel-suc : (m n : ℕ) → suc m ≤ n → (k : ℕ) × ((n ≡ suc k) × (m ≤ k))
fuel-suc m zero h = elim (le-zero m h) [ ]
fuel-suc m (suc n) h = (n, (refl, omega (arith, h)))

pub join-more :
    (t u : Text) (us us' : List Text)
    → us ≡ u ∷ us'
    → join (codes ",") (t ∷ us) ≡ t ++ (b',' ∷ join (codes ",") us)
unfolding join
join-more t u us us' h =
    subst (λ x. join (codes ",") (t ∷ x) ≡ t ++ (b',' ∷ join (codes ",") x)) (sym h) refl

pub number-Reads :
    (v : Json) (t : Text)
    → ((rest : Text) → Ends rest → match_number (t ++ rest) ≡ some (v, rest))
    → Reads v t
number-Reads v t h n rest l e =
    let (k, hk) = fuel-suc _ n l in rw hk.0 (scan_value-number k (t ++ rest) (v, rest) (h rest e))

pub str-Reads : (t : Text) → Encodable t → Reads (str t) (encode_text t)
str-Reads t a n rest l e =
    let (k, hk) = fuel-suc _ n l in rw hk.0 (scan_value-encode_text k t rest a)

pub null-Reads : Reads null (codes "null")
null-Reads n rest l e = let (k, hk) = fuel-suc _ n l in rw hk.0 (scan_value-null k rest)

pub bool-Reads : (b : Bool) → Reads (bool b) (if b then codes "true" else codes "false")
bool-Reads b n rest l e = let (k, hk) = fuel-suc _ n l in rw hk.0 (scan_value-bool k b rest)

pub empty_list-Reads : Reads (arr no_items) (codes "[]")
unfolding scan_value start_of follow_of skip_spaces is_space ℕ_discrete
empty_list-Reads n rest l e = let (k, hk) = fuel-suc _ n l in rw hk.0 refl

pub empty_dict-Reads : Reads (obj no_fields) (codes "{}")
unfolding scan_value start_of follow_of skip_spaces is_space ℕ_discrete
empty_dict-Reads n rest l e = let (k, hk) = fuel-suc _ n l in rw hk.0 refl

scan_value-list :
    (n : ℕ) (t rest : Text) (xs : Items)
    → scan_items n t ≡ ok (xs, rest)
    → scan_value (suc n) (b'[' ∷ t) ≡ ok (arr xs, rest)
unfolding scan_value start_of ℕ_discrete
scan_value-list n t rest xs h =
    let o = scan_items-Opens n t (xs, rest) h in
    rw (scan_value, skip_spaces-Opens t o, follow_of-Opens t o, skip_spaces-Opens t o, h)

scan_value-dict :
    (n : ℕ) (t rest : Text) (fs : Fields)
    → SortedFields fs
    → scan_fields n t ≡ ok (fs, rest)
    → scan_value (suc n) (b'{' ∷ t) ≡ ok (obj fs, rest)
unfolding scan_value start_of dict_value ℕ_discrete
scan_value-dict n t rest fs s h =
    let o = scan_fields-OpensKey n t (fs, rest) h in
    rw (
      scan_value,
      skip_spaces-Opens t (OpensKey-Opens t o),
      follow_of-OpensKey t o,
      skip_spaces-Opens t (OpensKey-Opens t o),
      h,
      reject_duplicate_keys-Sorted fs s,
    )

pub list-Reads :
    (xs : Items) (body : Text) → ReadsItems xs body → Reads (arr xs) (b'[' ∷ (body ++ codes "]"))
list-Reads xs body h n rest l e =
    let (k, hk) = fuel-suc _ n l in
    rw (hk.0, append_assoc body (codes "]") rest)
      (scan_value-list k (body ++ b']' ∷ rest) rest xs
        (h k rest (omega (arith, hk.1, length-append body (codes "]")))))

pub dict-Reads :
    (fs : Fields) (body : Text)
    → SortedFields fs
    → ReadsFields fs body
    → Reads (obj fs) (b'{' ∷ (body ++ codes "}"))
dict-Reads fs body s h n rest l e =
    let (k, hk) = fuel-suc _ n l in
    rw (hk.0, append_assoc body (codes "}") rest)
      (scan_value-dict k (body ++ b'}' ∷ rest) rest fs s
        (h k rest (omega (arith, hk.1, length-append body (codes "}")))))

-- the last element of a list, and one that others follow
pub scan_items-last : (x : Json) (t : Text) → Reads x t → ReadsItems (item x no_items) t
unfolding scan_items follow_of skip_spaces is_space ℕ_discrete
scan_items-last x t h n rest l =
    let (k, hk) = fuel-suc _ n l in
    rw (hk.0, h k (b']' ∷ rest) hk.1 (refl, (refl, (refl, refl)))) refl

pub scan_items-more :
    (x : Json) (xs : Items) (t body : Text)
    → Reads x t
    → ReadsItems xs body
    → ReadsItems (item x xs) (t ++ b',' ∷ body)
unfolding scan_items follow_of skip_spaces is_space ℕ_discrete
scan_items-more x xs t body h hs n rest l =
    let (k, hk) = fuel-suc _ n l in
    let later = body ++ b']' ∷ rest in
    let size = length-append t (b',' ∷ body) in
    let read = hs k rest (omega (arith, hk.1, size)) in
    rw
      (
        hk.0,
        append_assoc t (b',' ∷ body) (b']' ∷ rest),
        h k (b',' ∷ later) (omega (arith, hk.1, size)) (refl, (refl, (refl, refl))),
        skip_spaces-Opens later (scan_items-Opens k later (xs, rest) read),
        read,
      )
      refl

member-Reads :
    (k : Text) (v : Json) (t : Text) (n : ℕ) (rest : Text)
    → Encodable k
    → scan_value n (t ++ rest) ≡ ok (v, rest)
    → scan_key (member (k, t) ++ rest) ≡ ok (k, t ++ rest)
unfolding member
member-Reads k v t n rest a h =
    rw (append_assoc (encode_text k) (b':' ∷ t) rest)
      (scan_key-encode_text k (t ++ rest) a (scan_value-Opens n (t ++ rest) (v, rest) h))

length-member : (k t : Text) → suc (length t) ≤ length (member (k, t))
unfolding member
length-member k t = omega (arith, length-append (encode_text k) (b':' ∷ t))

pub scan_fields-last :
    (k : Text) (v : Json) (t : Text)
    → Encodable k
    → Reads v t
    → ReadsFields (field k v no_fields) (member (k, t))
unfolding scan_fields follow_of skip_spaces is_space ℕ_discrete
scan_fields-last k v t a h n rest l =
    let (m, hm) = fuel-suc _ n l in
    let read =
      h m (b'}' ∷ rest) (omega (arith, hm.1, length-member k t)) (refl, (refl, (refl, refl))) in
    rw (hm.0, member-Reads k v t m (b'}' ∷ rest) a read, read) refl

pub scan_fields-more :
    (k : Text) (v : Json) (fs : Fields) (t body : Text)
    → Encodable k
    → Reads v t
    → ReadsFields fs body
    → ReadsFields (field k v fs) (member (k, t) ++ b',' ∷ body)
unfolding scan_fields follow_of skip_spaces is_space ℕ_discrete
scan_fields-more k v fs t body a h hs n rest l =
    let (m, hm) = fuel-suc _ n l in
    let later = body ++ b'}' ∷ rest in
    let size = length-append (member (k, t)) (b',' ∷ body) in
    let read =
      h m (b',' ∷ later) (omega (arith, hm.1, size, length-member k t))
        (refl, (refl, (refl, refl))) in
    let rest_read = hs m rest (omega (arith, hm.1, size)) in
    let o = OpensKey-Opens later (scan_fields-OpensKey m later (fs, rest) rest_read) in
    rw
      (
        hm.0,
        append_assoc (member (k, t)) (b',' ∷ body) (b'}' ∷ rest),
        member-Reads k v t m (b',' ∷ later) a read,
        read,
        skip_spaces-Opens later o,
        rest_read,
      )
      refl
