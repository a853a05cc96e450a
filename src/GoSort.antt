-- ===== src/GoSort.antt =====
-- `sort.Slice` of Go's standard library. It promises an ascending permutation, and nothing about
-- the order of elements whose keys are equal, so the program is modelled over any sort that keeps
-- this promise. Each call of the program sorts by an instant, `x.Before(y)`.
pub mod Insertion
use mathlib.Core.List.{Perm}
use go_temporal_timeline.Prelude.{ℕ, ◌≤◌, List, [], ◌∷◌, All}

-- Each element's key is at most the keys of those behind it.
abbrev pub IsAscending : {A : Type 0} → (A → ℕ) → List A → Type 0
IsAscending key [] = Unit
IsAscending key (x ∷ xs) = All (λ y. key x ≤ key y) xs × IsAscending key xs

pub record Sorter : Type 1 where
  pub sort : (A : Type 0) → (A → ℕ) → List A → List A
  pub sort-perm : (A : Type 0) (key : A → ℕ) (xs : List A) → Perm (sort A key xs) xs
  pub sort-IsAscending : (A : Type 0) (key : A → ℕ) (xs : List A) → IsAscending key (sort A key xs)

-- The sort in scope.
abbrev pub sort_by : {A : Type 0} ⦃s : Sorter⦄ → (A → ℕ) → List A → List A
sort_by {A} ⦃s⦄ key xs = s.sort A key xs
