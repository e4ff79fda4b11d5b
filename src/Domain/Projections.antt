-- ===== src/Domain/Projections.antt =====
-- src/temper_ml/domain/projections.py: content identities. SHA-256 is an argument of what hashes.
use temper_ml.Base.{
  leb, if◌then◌else◌, ◌==◌, nat_eq, list_eq, Eq, ◌>>=◌, Result, ok, err, length, all, Text, codes,
  ℕ, Bool, not, ◌&&◌, ◌||◌, ◌∷◌, ◌++◌, ℕ_discrete,
}
use temper_ml.Store.Json.{Json, str, obj, Fields, no_fields, field}
use temper_ml.Store.Canonical.{dumps_canonical_json, CanonicalError}

pub data ProjectionError : Type 0 where
  unsupported_algorithm invalid_digest not_canonical : ProjectionError

unfoldable pub ProjectionError-discrete : Discrete ProjectionError
ProjectionError-discrete = hlevel

instance abbrev pub projection_error_eq : Eq ProjectionError
projection_error_eq = record { dec = ProjectionError-discrete }

pub record HashProjection : Type 0 where
  pub name : Text
  pub version : Text

unfoldable pub label : HashProjection → Text
label p = p.name ++ (b'@' ∷ p.version)

pub record ContentIdentity : Type 0 where
  pub algorithm : Text
  pub value : Text

unfoldable pub ContentIdentity-discrete : Discrete ContentIdentity
unfolding ℕ_discrete
ContentIdentity-discrete = hlevel ℕ_discrete

instance abbrev pub identity_eq : Eq ContentIdentity
identity_eq = record { dec = ContentIdentity-discrete }

-- `[0-9a-f]`
unfoldable pub is_hex_digit : ℕ → Bool
is_hex_digit c = (leb b'0' c && leb c b'9') || (leb b'a' c && leb c b'f')

-- `_SHA256_HEX`
unfoldable pub is_sha256_hex : Text → Bool
unfolding is_hex_digit all
is_sha256_hex t = length t == 64 && all is_hex_digit t

-- the constructor with its checks
unfoldable pub make_identity : Text → Text → Result ProjectionError ContentIdentity
unfolding is_sha256_hex
make_identity algorithm value =
    if not (algorithm == codes "sha256")
    then err unsupported_algorithm
    else if not (is_sha256_hex value)
    then err invalid_digest
    else ok (record { algorithm = algorithm; value = value })

projected : HashProjection → Result CanonicalError Text → Result ProjectionError Text
projected p (ok t) = ok (codes "temper:" ++ (label p ++ (10 ∷ t)))
projected p (err e) = err not_canonical

unfoldable pub projection_preimage : HashProjection → Fields → Result ProjectionError Text
unfolding projected label dumps_canonical_json
projection_preimage p fields = projected p (dumps_canonical_json (obj fields))

unfoldable pub content_identity :
    (Text → Text) → HashProjection → Fields → Result ProjectionError ContentIdentity
unfolding projection_preimage make_identity
content_identity sha256 p fields =
    projection_preimage p fields >>= λ preimage. make_identity (codes "sha256") (sha256 preimage)

-- `identity_fields` of records.py
unfoldable pub identity_fields : ContentIdentity → Json
identity_fields i =
    obj
      (field (codes "algorithm") (str i.algorithm) (field (codes "value") (str i.value) no_fields))
