-- ===== src/Examples/Naming.antt =====
-- A stand-in for the names `fmt.Sprintf("%s-p%d", id, i)`: the number in unary, and then the id.
use Prim.Native.Char.{code}
use Prim.Native.String.{◌∷◌ as char_cons}
use text.Mathlib.TextLemmas.{head-eq_of_cons-eq, tail-eq_of_cons-eq}
use go_temporal_timeline.Prelude.{◌≡◌, refl, ap, ℕ, zero, suc, arith, String}
use go_temporal_timeline.Temporal.Micro.{Naming}

abbrev pub unary_name : String → ℕ → String
unary_name id zero = char_cons "-" id
unary_name id (suc i) = char_cons "p" (unary_name id i)

pub id_of_unary_name : (a b : String) (i j : ℕ) → unary_name a i ≡ unary_name b j → a ≡ b
id_of_unary_name a b zero zero h = tail-eq_of_cons-eq h
id_of_unary_name a b zero (suc j) h = absurd (omega (arith, ap code (head-eq_of_cons-eq h)))
id_of_unary_name a b (suc i) zero h = absurd (omega (arith, ap code (head-eq_of_cons-eq h)))
id_of_unary_name a b (suc i) (suc j) h = id_of_unary_name a b i j (tail-eq_of_cons-eq h)

pub number_of_unary_name : (a b : String) (i j : ℕ) → unary_name a i ≡ unary_name b j → i ≡ j
number_of_unary_name a b zero zero h = refl
number_of_unary_name a b zero (suc j) h = absurd (omega (arith, ap code (head-eq_of_cons-eq h)))
number_of_unary_name a b (suc i) zero h = absurd (omega (arith, ap code (head-eq_of_cons-eq h)))
number_of_unary_name a b (suc i) (suc j) h =
    ap suc (number_of_unary_name a b i j (tail-eq_of_cons-eq h))

abbrev pub unary_naming : Naming
unary_naming = record {
  partition_name = unary_name;
  id_of_name = id_of_unary_name;
  number_of_name = number_of_unary_name;
}
