-- ===== src/Base/Results.antt =====
-- Functions that raise return a `Result`: a value, or the error that stopped the call.
use mathlib.Core.Path.{◌≡◌, refl, sym}
use mathlib.Core.Bool.{Bool, true, false}
use mathlib.Core.Option.{Option, none, some}
use temper_ml.Base.Tests.{if◌then◌else◌, Eq}

pub data Result {ℓ} (E A : Type ℓ) : Type ℓ where
  ok : A → Result E A
  err : E → Result E A

infixl 5 ◌>>=◌ ◌>>◌
abbrev pub ◌>>=◌ {ℓ} : {E A B : Type ℓ} → Result E A → (A → Result E B) → Result E B
ok a >>= f = f a
err e >>= f = err e

abbrev pub ◌>>◌ {ℓ} : {E B : Type ℓ} → Result E (Unit {ℓ}) → Result E B → Result E B
m >> k = m >>= λ _. k

-- `if not test: raise e`
abbrev pub ensure {ℓ} : {E : Type ℓ} → Bool → E → Result E (Unit {ℓ})
ensure true e = ok tt
ensure false e = err e

abbrev pub to_option {ℓ} : {E A : Type ℓ} → Result E A → Option A
to_option (ok a) = some a
to_option (err e) = none

unfoldable pub Result-discrete {ℓ} :
    {E A : Type ℓ} → Discrete E → Discrete A → Discrete (Result E A)
Result-discrete d e = hlevel (d, e)

instance abbrev pub result_eq {ℓ} : {E A : Type ℓ} ⦃d : Eq E⦄ ⦃e : Eq A⦄ → Eq (Result E A)
result_eq ⦃d⦄ ⦃e⦄ = record { dec = Result-discrete d.dec e.dec }

abbrev pub is_ok {ℓ} : {E A : Type ℓ} → Result E A → Bool
is_ok (ok a) = true
is_ok (err e) = false

-- The state after a call that may raise: the old one where it raised.
abbrev pub state_or {ℓ} : {E A : Type ℓ} → A → Result E A → A
state_or s (ok t) = t
state_or s (err e) = s

-- What a call that returned after a bind says of its two parts.
pub unbind {ℓ} :
    {E A B : Type ℓ} (f : A → Result E B) (b : B) (m : Result E A)
    → m >>= f ≡ ok b
    → (a : A) × ((m ≡ ok a) × (f a ≡ ok b))
unbind f b (err e) h = cc
unbind f b (ok a) h = (a, (refl, h))

pub ok_inj {ℓ} : {E A : Type ℓ} (a b : A) → Path (Result E A) (ok a) (ok b) → a ≡ b
ok_inj a b h = cc

pub some_inj {ℓ} : {A : Type ℓ} (a b : A) → Path (Option A) (some a) (some b) → a ≡ b
some_inj a b h = cc

pub is_ok-bind {ℓ} :
    {E A B : Type ℓ} (f : A → Result E B) (m : Result E A)
    → is_ok m ≡ true
    → ((a : A) → is_ok (f a) ≡ true)
    → is_ok (m >>= f) ≡ true
is_ok-bind f (ok a) h k = k a
is_ok-bind f (err e) h k = cc h

pub when-ok {ℓ} :
    {E A : Type ℓ} (b : Bool) (x y : A) (e : E)
    → (if b then ok x else err e) ≡ ok y
    → (b ≡ true) × (y ≡ x)
when-ok true x y e h = (refl, sym (ok_inj x y h))
when-ok false x y e h = cc h

pub unless-ok {ℓ} :
    {E A : Type ℓ} (b : Bool) (e : E) (m : Result E A) (a : A)
    → (if b then err e else m) ≡ ok a
    → (b ≡ false) × (m ≡ ok a)
unless-ok true e m a h = cc h
unless-ok false e m a h = (refl, h)
