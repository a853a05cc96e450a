-- ===== src/GoSort/Insertion.antt =====
-- A sort that keeps the promise of `sort.Slice`: insertion sort.
use mathlib.Core.List.{Perm, reverse}
use mathlib.Core.List.Perm
use mathlib.Core.List.Permᴰ
use go_temporal_timeline.Prelude.{
  ℕ, ◌≤◌, List, [], ◌∷◌, arith, leb, All, All-map, if_intro, if◌then◌else◌,
}
use native.Mathlib.Nat.{le_trans}
use go_temporal_timeline.GoSort.{IsAscending, Sorter}

unfoldable pub insert : {A : Type 0} → (A → ℕ) → A → List A → List A
insert key x [] = x ∷ []
insert key x (y ∷ ys) = if leb (key x) (key y) then x ∷ y ∷ ys else y ∷ insert key x ys

unfoldable pub insertion_sort : (A : Type 0) → (A → ℕ) → List A → List A
unfolding insert
insertion_sort A key [] = []
insertion_sort A key (x ∷ xs) = insert key x (insertion_sort A key xs)

insert-perm : {A : Type 0} (key : A → ℕ) (x : A) (ys : List A) → Perm (insert key x ys) (x ∷ ys)
unfolding insert
insert-perm key x [] = Perm.refl (x ∷ [])
insert-perm key x (y ∷ ys) =
    if_intro (λ l. Perm l (x ∷ y ∷ ys)) (leb (key x) (key y)) (λ _. Perm.refl (x ∷ y ∷ ys))
      (λ _. Perm.trans (Perm.cons y (insert-perm key x ys)) (Perm.swap x y ys))

pub insertion_sort-perm :
    (A : Type 0) (key : A → ℕ) (xs : List A) → Perm (insertion_sort A key xs) xs
unfolding insertion_sort
insertion_sort-perm A key [] = Perm.refl []
insertion_sort-perm A key (x ∷ xs) =
    Perm.trans (insert-perm key x (insertion_sort A key xs))
      (Perm.cons x (insertion_sort-perm A key xs))

insert-All :
    {A : Type 0} (key : A → ℕ) (n : ℕ) (x : A) (ys : List A)
    → n ≤ key x
    → All (λ y. n ≤ key y) ys
    → All (λ y. n ≤ key y) (insert key x ys)
unfolding insert
insert-All key n x [] h k = (h, tt)
insert-All key n x (y ∷ ys) h k =
    if_intro (All (λ z. n ≤ key z)) (leb (key x) (key y)) (λ _. (h, k))
      (λ _. (k.0, insert-All key n x ys h k.1))

insert-IsAscending :
    {A : Type 0} (key : A → ℕ) (x : A) (ys : List A)
    → IsAscending key ys
    → IsAscending key (insert key x ys)
unfolding insert
insert-IsAscending key x [] h = (tt, tt)
insert-IsAscending key x (y ∷ ys) h =
    if_intro (IsAscending key) (leb (key x) (key y))
      (λ e.
        let le : key x ≤ key y = ground arith in
        ((le, All-map (λ z (k : key y ≤ key z). le_trans le k) ys h.0), h))
      (λ e. (insert-All key (key y) x ys (ground arith) h.0, insert-IsAscending key x ys h.1))

pub insertion_sort-IsAscending :
    (A : Type 0) (key : A → ℕ) (xs : List A) → IsAscending key (insertion_sort A key xs)
unfolding insertion_sort
insertion_sort-IsAscending A key [] = tt
insertion_sort-IsAscending A key (x ∷ xs) =
    insert-IsAscending key x (insertion_sort A key xs) (insertion_sort-IsAscending A key xs)

instance abbrev pub insertion_sorter : Sorter
insertion_sorter = record {
  sort = insertion_sort;
  sort-perm = insertion_sort-perm;
  sort-IsAscending = insertion_sort-IsAscending;
}

-- Another sort that keeps the promise and orders equal keys the other way round.
abbrev pub reversed_sorter : Sorter
reversed_sorter = record {
  sort = λ A key xs. insertion_sort A key (reverse xs);
  sort-perm =
      λ A key xs. Perm.trans (insertion_sort-perm A key (reverse xs)) (∣ Permᴰ.reverse xs ∣₁);
  sort-IsAscending = λ A key xs. insertion_sort-IsAscending A key (reverse xs);
}
