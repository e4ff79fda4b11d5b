-- ===== src/Examples/Canonical.antt =====
-- Canonical JSON at concrete values.
use temper_ml.Base.{negsuc, ok, codes, ◌≡◌, refl, true, false, [], ◌∷◌, ℕ_discrete}
use temper_ml.Store.Json.{finite, int, decimal, str, arr, obj, no_items, item, no_fields, field}
use temper_ml.Store.Canonical.{encode}

sorted_object :
    encode (
      obj (field (codes "b") (int (negsuc 11)) (field (codes "a") (str (codes "x\"\n")) no_fields)))
    ≡ ok (codes "{\"a\":\"x\\\"\\n\",\"b\":-12}")
unfolding encode ℕ_discrete
sorted_object = refl

decimals :
    encode (
      arr (
        item (decimal (record { sign = true; digits = 5 ∷ []; exponent = finite (negsuc 1) })) (
          item
            (decimal
              (record { sign = false; digits = 1 ∷ 2 ∷ 5 ∷ []; exponent = finite (negsuc 0) }))
            no_items)))
    ≡ ok (codes "[-0.05,12.5]")
unfolding encode ℕ_discrete
decimals = refl
