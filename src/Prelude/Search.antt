-- ===== src/Prelude/Search.antt =====
-- Boolean searches over a list, and predicates on all its elements.
use mathlib.Core.Path.{◌≡◌, refl, ap₂, subst, ◌∙◌}
use mathlib.Core.Bool.{Bool, true, false, ◌&&◌, ◌||◌}
use mathlib.Core.Logic.{∥∥₁_elim}
use mathlib.Core.List.{List, [], ◌∷◌, ◌++◌, Perm, Permᴰ}
use mathlib.Core.HLevel.{×_prop}
use native.Mathlib.Omega.{arith}

pub Bool-set : IsSet Bool
Bool-set = hlevel

or_swap : (a b c : Bool) → (a || (b || c)) ≡ (b || (a || c))
or_swap a b c = ground arith

module _ {ℓ} {A : Type ℓ} where
  abbrev pub any : (A → Bool) → List A → Bool
  any p [] = false
  any p (x ∷ xs) = p x || any p xs

  abbrev pub all : (A → Bool) → List A → Bool
  all p [] = true
  all p (x ∷ xs) = p x && all p xs

  pub any-append : (p : A → Bool) (xs ys : List A) → any p (xs ++ ys) ≡ (any p xs || any p ys)
  any-append p [] ys = refl
  any-append p (x ∷ xs) ys = ground (arith, any-append p xs ys)

  any-perm_data : (p : A → Bool) {xs ys : List A} → Permᴰ xs ys → any p xs ≡ any p ys
  any-perm_data p Permᴰ.nil = refl
  any-perm_data p (Permᴰ.cons e r) = ap₂ (λ a b. p a || b) e (any-perm_data p r)
  any-perm_data p (Permᴰ.swap {a} {b} {l} e f) =
      or_swap (p a) (p b) (any p l) ∙ (λ i. p (f i) || (p (e i) || any p l))
  any-perm_data p (Permᴰ.trans q r) = any-perm_data p q ∙ any-perm_data p r

  -- A search does not depend on the order of the list.
  pub any-perm : (p : A → Bool) {xs ys : List A} → Perm xs ys → any p xs ≡ any p ys
  any-perm p {xs} {ys} q = ∥∥₁_elim q (Bool-set (any p xs) (any p ys)) (any-perm_data p)

module _ {ℓ κ} {A : Type ℓ} where
  abbrev pub All : (A → Type κ) → List A → Type κ
  All P [] = Unit
  All P (x ∷ xs) = P x × All P xs

module _ {ℓ κ} {A : Type ℓ} (P : A → Type κ) where
  pub All-append : (xs ys : List A) → All P xs → All P ys → All P (xs ++ ys)
  All-append [] ys h k = k
  All-append (x ∷ xs) ys h k = (h.0, All-append xs ys h.1 k)

  pub All-prop : ((a : A) → IsProp (P a)) → (xs : List A) → IsProp (All P xs)
  All-prop prop [] = hlevel
  All-prop prop (x ∷ xs) = ×_prop (prop x) (All-prop prop xs)

  All-perm_data : {xs ys : List A} → Permᴰ xs ys → All P xs → All P ys
  All-perm_data Permᴰ.nil h = h
  All-perm_data (Permᴰ.cons e r) h = (subst P e h.0, All-perm_data r h.1)
  All-perm_data (Permᴰ.swap e f) h = (subst P f h.1.0, (subst P e h.0, h.1.1))
  All-perm_data (Permᴰ.trans q r) h = All-perm_data r (All-perm_data q h)

  pub All-perm : ((a : A) → IsProp (P a)) → {xs ys : List A} → Perm xs ys → All P xs → All P ys
  All-perm prop {xs} {ys} q h = ∥∥₁_elim q (All-prop prop ys) (λ d. All-perm_data d h)

module _ {ℓ κ μ} {A : Type ℓ} {P : A → Type κ} {Q : A → Type μ} where
  pub All-map : ((a : A) → P a → Q a) → (xs : List A) → All P xs → All Q xs
  All-map f [] h = tt
  All-map f (x ∷ xs) h = (f x h.0, All-map f xs h.1)
