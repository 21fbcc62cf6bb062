-- ===== src/Base/Raise.antt =====
-- Python exceptions: a function that may raise returns a `Result`. The classes are those of
-- src/sddiar/errors.py and of the modules that the other files model.
use mathlib.Core.Path.{◌≡◌, refl, ap}
use mathlib.Core.Logic.{◌⊎◌, inl, inr}
use mathlib.Core.Bool.{Bool, true, false}
use mathlib.Core.List.{List, [], ◌∷◌}

pub data Error : Type 0 where
  contract_validation timebase_violation protected_overlap : Error
  correction_conflict temporal_vad evaluation summary_policy : Error
  value_error index_error type_error overflow : Error

pub data Result {ℓ} (A : Type ℓ) : Type ℓ where
  ok : A → Result A
  err : Error → Result A

-- `raise` leaves the rest of a function undone.
infixl 5 ◌>>=◌ ◌>>◌
abbrev pub ◌>>=◌ {ℓ κ} : {A : Type ℓ} {B : Type κ} → Result A → (A → Result B) → Result B
◌>>=◌ first rest = elim first [ err raised ↦ err raised | ok value ↦ rest value ]

abbrev pub ◌>>◌ {κ} : {B : Type κ} → Result (Unit {0}) → Result B → Result B
◌>>◌ first rest = first >>= λ (done : Unit {0}). rest

-- `if test: raise e`
abbrev pub raise_if : Bool → Error → Result (Unit {0})
raise_if test e = elim test [ true ↦ err e | false ↦ ok tt ]

pub Result-cases {ℓ} :
    {A : Type ℓ} (r : Result A) → ((a : A) × (r ≡ ok a)) ⊎ ((e : Error) × (r ≡ err e))
Result-cases (ok a) = inl (a, refl)
Result-cases (err e) = inr (e, refl)

value_or {ℓ} : {A : Type ℓ} → A → Result A → A
value_or x (ok y) = y
value_or x (err e) = x

pub ok-inj {ℓ} : {A : Type ℓ} {x y : A} → ok x ≡ ok y → x ≡ y
unfolding value_or
ok-inj {x} h = ap (value_or x) h

-- What ends well has begun well.
pub bind_ok {ℓ κ} :
    {A : Type ℓ} {B : Type κ} (r : Result A) (f : A → Result B) (b : B)
    → (r >>= f) ≡ ok b
    → (a : A) × (r ≡ ok a) × (f a ≡ ok b)
bind_ok (ok a) f b h = (a, refl, h)
bind_ok (err e) f b h = cc

-- What follows a check that did not raise.
pub raise_if_then {ℓ} :
    {B : Type ℓ} (test : Bool) (e : Error) (rest : Result B) (b : B)
    → (raise_if test e >> rest) ≡ ok b
    → rest ≡ ok b
raise_if_then true e rest b h = cc
raise_if_then false e rest b h = h

-- What ends well has passed its check.
pub raise_if_passed {ℓ} :
    {B : Type ℓ} (test : Bool) (e : Error) (rest : Result B) (b : B)
    → (raise_if test e >> rest) ≡ ok b
    → test ≡ false
raise_if_passed true e rest b h = cc
raise_if_passed false e rest b h = refl

-- A comprehension whose function may raise.
unfoldable pub map_each {ℓ κ} :
    {A : Type ℓ} {B : Type κ} → (A → Result B) → List A → Result (List B)
map_each f [] = ok []
map_each f (x ∷ xs) = f x >>= λ y. map_each f xs >>= λ ys. ok (y ∷ ys)

pub then_ok {ℓ} :
    {B : Type ℓ} (first : Result (Unit {0})) (rest : Result B) (b : B)
    → (first >> rest) ≡ ok b
    → rest ≡ ok b
then_ok (ok done) rest b h = h
then_ok (err e) rest b h = cc
