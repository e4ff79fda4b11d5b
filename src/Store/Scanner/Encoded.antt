-- ===== src/Store/Scanner/Encoded.antt =====
-- What `_encode` writes for a canonical value, `scan_once` reads as that value.
use temper_ml.Base.{
  nat_eq, list_eq, unbind, ok_inj, ok, Text, codes, join, ◌≡◌, sym, ap, subst, List, [], ◌∷◌, map,
}
use temper_ml.Store.Json.{
  Json, null, bool, int, decimal, str, arr, obj, Items, no_items, item, Fields, no_fields, field,
}
use temper_ml.Store.Canonical.{show_ℤ, member, encode, encode_items, encode_fields}
use temper_ml.Store.Scanner.Integers.{match_number-show_ℤ}
use temper_ml.Store.Scanner.Decimals.{match_number-format_decimal}
use temper_ml.Store.Scanner.Dicts.{sort_by-encode_fields}
use temper_ml.Store.Scanner.RoundTrip.{
  Canonical, CanonicalItems, CanonicalFields, Reads, ReadsItems, ReadsFields, join-more,
  number-Reads, str-Reads, null-Reads, bool-Reads, empty_list-Reads, empty_dict-Reads, list-Reads,
  dict-Reads, scan_items-last, scan_items-more, scan_fields-last, scan_fields-more,
}

encode_items-first :
    (x : Json) (xs : Items) (ts : List Text)
    → encode_items (item x xs) ≡ ok ts
    → (t : Text) × ((us : List Text) × ((encode x ≡ ok t)
          × ((encode_items xs ≡ ok us) × (ts ≡ t ∷ us))))
unfolding encode_items
encode_items-first x xs ts h =
    let (t, ht) = unbind _ ts (encode x) h in
    let (us, hu) = unbind _ ts (encode_items xs) ht.1 in
    (t, (us, (ht.0, (hu.0, sym (ok_inj _ ts hu.1)))))

encode_fields-first :
    (k : Text) (v : Json) (fs : Fields) (ts : List (Text × Text))
    → encode_fields (field k v fs) ≡ ok ts
    → (t : Text) × ((us : List (Text × Text)) × ((encode v ≡ ok t)
          × ((encode_fields fs ≡ ok us) × (ts ≡ (k, t) ∷ us))))
unfolding encode_fields
encode_fields-first k v fs ts h =
    let (t, ht) = unbind _ ts (encode v) h in
    let (us, hu) = unbind _ ts (encode_fields fs) ht.1 in
    (t, (us, (ht.0, (hu.0, sym (ok_inj _ ts hu.1)))))

-- Elements are read where there are some.
abbrev ReadsSome : Items → Text → Type 0
ReadsSome no_items t = Unit
ReadsSome (item x xs) t = ReadsItems (item x xs) t

abbrev ReadsSomeFields : Fields → Text → Type 0
ReadsSomeFields no_fields t = Unit
ReadsSomeFields (field k v fs) t = ReadsFields (field k v fs) t

mutual
  unfolding encode encode_items encode_fields Canonical CanonicalItems CanonicalFields join

  pub encode-Reads : (v : Json) (t : Text) → Canonical v → encode v ≡ ok t → Reads v t
  encode-Reads null t c h = subst (Reads null) (ok_inj _ t h) null-Reads
  encode-Reads (bool b) t c h = subst (Reads (bool b)) (ok_inj _ t h) (bool-Reads b)
  encode-Reads (int z) t c h =
      subst (Reads (int z)) (ok_inj _ t h) (number-Reads (int z) (show_ℤ z) (match_number-show_ℤ z))
  encode-Reads (decimal d) t c h =
      number-Reads (decimal d) t (λ rest e. match_number-format_decimal d t rest c h e)
  encode-Reads (str s) t c h = subst (Reads (str s)) (ok_inj _ t h) (str-Reads s c)
  encode-Reads (arr no_items) t c h = subst (Reads (arr no_items)) (ok_inj _ t h) empty_list-Reads
  encode-Reads (arr (item x xs)) t c h =
      let (ts, ht) = unbind _ t (encode_items (item x xs)) h in
      subst (Reads (arr (item x xs))) (ok_inj _ t ht.1)
        (list-Reads (item x xs) (join (codes ",") ts) (encode_items-Reads (item x xs) ts c ht.0))
  encode-Reads (obj no_fields) t c h = subst (Reads (obj no_fields)) (ok_inj _ t h) empty_dict-Reads
  encode-Reads (obj (field k v fs)) t c h =
      let (ts, ht) = unbind _ t (encode_fields (field k v fs)) h in
      let sorted = sort_by-encode_fields (field k v fs) ts c.0 ht.0 in
      subst (Reads (obj (field k v fs))) (ok_inj _ t ht.1) (
        rw sorted (
          dict-Reads (field k v fs) (join (codes ",") (map member ts)) c.0
            (encode_fields-Reads (field k v fs) ts c.1 ht.0)))

  encode_items-Reads :
      (xs : Items) (ts : List Text)
      → CanonicalItems xs
      → encode_items xs ≡ ok ts
      → ReadsSome xs (join (codes ",") ts)
  encode_items-Reads no_items ts c h = tt
  encode_items-Reads (item x no_items) ts c h =
      let (t, r) = encode_items-first x no_items ts h in
      let (us, q) = r in
      rw (q.1.1, sym (ok_inj [] us q.1.0)) (scan_items-last x t (encode-Reads x t c.0 q.0))
  encode_items-Reads (item x (item y ys)) ts c h =
      let (t, r) = encode_items-first x (item y ys) ts h in
      let (us, q) = r in
      let (u, w) = encode_items-first y ys us q.1.0 in
      rw (q.1.1, join-more t u us w.0 w.1.1.1)
        (scan_items-more x (item y ys) t (join (codes ",") us) (encode-Reads x t c.0 q.0)
          (encode_items-Reads (item y ys) us c.1 q.1.0))

  encode_fields-Reads :
      (fs : Fields) (ts : List (Text × Text))
      → CanonicalFields fs
      → encode_fields fs ≡ ok ts
      → ReadsSomeFields fs (join (codes ",") (map member ts))
  encode_fields-Reads no_fields ts c h = tt
  encode_fields-Reads (field k v no_fields) ts c h =
      let (t, r) = encode_fields-first k v no_fields ts h in
      let (us, q) = r in
      rw (q.1.1, sym (ok_inj [] us q.1.0)) (scan_fields-last k v t c.0 (encode-Reads v t c.1.0 q.0))
  encode_fields-Reads (field k v (field j w fs)) ts c h =
      let (t, r) = encode_fields-first k v (field j w fs) ts h in
      let (us, q) = r in
      let (u, z) = encode_fields-first j w fs us q.1.0 in
      rw
        (
          q.1.1,
          join-more (member (k, t)) (member (j, u)) (map member us) (map member z.0)
              (ap (map member) z.1.1.1),
        )
        (scan_fields-more k v (field j w fs) t (join (codes ",") (map member us)) c.0
          (encode-Reads v t c.1.0 q.0) (encode_fields-Reads (field j w fs) us c.1.1 q.1.0))
