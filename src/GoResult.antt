-- ===== src/GoResult.antt =====
-- The outcomes of a Go function that returns a value and an error, or panics.
use go_temporal_timeline.Prelude.{◌≡◌, refl, ap, Bool, true, false, String, List, []}

-- `errorf f args` is the error of `fmt.Errorf(f, args...)`, and `wrapped f args e` one that wraps
-- the error `e` by `%w`.
pub data Error : Type 0 where
  errorf : String → List String → Error
  wrapped : String → List String → Error → Error

pub data Outcome {ℓ} (A : Type ℓ) : Type ℓ where
  ok : A → Outcome A
  fail : Error → Outcome A
  panic : Outcome A

infixl 5 ◌>>=◌
abbrev pub ◌>>=◌ {ℓ κ} : {A : Type ℓ} {B : Type κ} → Outcome A → (A → Outcome B) → Outcome B
ok a >>= f = f a
fail e >>= f = fail e
panic >>= f = panic

-- `if err != nil { return nil, fmt.Errorf(f, args..., err) }`.
abbrev pub wrap_error {ℓ} : {A : Type ℓ} → String → List String → Outcome A → Outcome A
wrap_error f args (ok a) = ok a
wrap_error f args (fail e) = fail (wrapped f args e)
wrap_error f args panic = panic

-- What a workflow sees of an activity or of a child workflow: one that panics ends in an error.
abbrev pub settled {ℓ} : {A : Type ℓ} → Outcome A → Outcome A
settled (ok a) = ok a
settled (fail e) = fail e
settled panic = fail (errorf "panic" [])

abbrev pub map_outcome {ℓ κ} : {A : Type ℓ} {B : Type κ} → (A → B) → Outcome A → Outcome B
map_outcome g (ok a) = ok (g a)
map_outcome g (fail e) = fail e
map_outcome g panic = panic

abbrev pub is_ok {ℓ} : {A : Type ℓ} → Outcome A → Bool
is_ok (ok a) = true
is_ok (fail e) = false
is_ok panic = false

pub is_ok-ok {ℓ} : {A : Type ℓ} (o : Outcome A) → is_ok o ≡ true → (a : A) × (o ≡ ok a)
is_ok-ok (ok a) h = (a, refl)
is_ok-ok (fail e) h = cc
is_ok-ok panic h = cc

pub is_ok->>= {ℓ κ} :
    {A : Type ℓ} {B : Type κ} (o : Outcome A) (f : A → Outcome B)
    → is_ok o ≡ true
    → ((a : A) → is_ok (f a) ≡ true)
    → is_ok (o >>= f) ≡ true
is_ok->>= (ok a) f h k = k a
is_ok->>= (fail e) f h k = cc
is_ok->>= panic f h k = cc

-- The value of an outcome.
pub ok-injective {ℓ} : {A : Type ℓ} {a b : A} → ok a ≡ ok b → a ≡ b
ok-injective {A} {a} {b} e = ap (λ o. value_or a o) e
  where
    value_or : A → Outcome A → A
    value_or d (ok x) = x
    value_or d (fail x) = d
    value_or d panic = d
