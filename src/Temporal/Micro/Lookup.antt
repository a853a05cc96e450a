-- ===== src/Temporal/Micro/Lookup.antt =====
-- Where the results of the children stand in the map of results.
use mathlib.Core.List.{Memᴰ}
use mathlib.Core.Path.{subst}
use mathlib.Core.Bool.{true≢false}
use go_temporal_timeline.Prelude.{
  ◌≡◌, ◌≢◌, refl, ap, sym, ◌∙◌, ℕ, ◌+◌, ◌≤◌, arith, true, false, String, some, List, [], ◌∷◌, inl,
  inr, str_eq, eq_iff, if◌then◌else◌, Bool-cases,
}
use go_temporal_timeline.GoTime.{Time}
use go_temporal_timeline.Temporal.Micro.{OperatorResult, Naming, Named, find_result, put_result}
use go_temporal_timeline.Temporal.Micro.Orchestrator.{
  ChildOutcome, completed, failed, timed_out, Launched, select_child, children_loop, futures_loop,
}

str_eq_refl : (a : String) → str_eq a a ≡ true
str_eq_refl a = (eq_iff a a).1 refl

str_neq : (a b : String) → a ≢ b → str_eq a b ≡ false
str_neq a b ne = elim (Bool-cases (str_eq a b)) [
  | inl y ↦ absurd (ne ((eq_iff a b).0 y))
  | inr n ↦ n
]

pub neq_self : (a b : String) → str_eq a b ≡ false → a ≢ b
neq_self a b n e = true≢false (sym ((eq_iff a b).1 e) ∙ n)

find-put :
    (key : String) (r : OperatorResult) (ns : List Named)
    → find_result key (put_result key r ns) ≡ some r
unfolding find_result put_result
find-put key r [] = rw (str_eq_refl key) refl
find-put key r (n ∷ ns) = elim (Bool-cases (str_eq n.key key)) [
  | inl y ↦ rw (y, y) refl
  | inr differ ↦ rw (differ, differ) (find-put key r ns)
]

find-put_other :
    (key other : String) (r : OperatorResult) (ns : List Named)
    → str_eq key other ≡ false
    → find_result other (put_result key r ns) ≡ find_result other ns
unfolding find_result put_result
find-put_other key other r [] h = rw h refl
find-put_other key other r (n ∷ ns) h = elim (Bool-cases (str_eq n.key key)) [
  | inl y ↦
      let same : n.key ≡ key = (eq_iff n.key key).0 y in
      rw (y, ap (λ a. str_eq a other) same ∙ h) refl
  | inr differ ↦
      rw differ
        (ap (λ x. if str_eq n.key other then some n.value else x) (find-put_other key other r ns h))
]

-- The child is one whose result carries the name that it was given.
abbrev pub IsNamed : String → ChildOutcome → Type 0
IsNamed name c = (r : OperatorResult) → c ≡ completed r → r.operator_id ≡ name

module _ ⦃m : Naming⦄ where
  abbrev pub AreNamed : String → ℕ → List ChildOutcome → Type 0
  AreNamed key i [] = key ≡ key
  AreNamed key i (c ∷ cs) = IsNamed (m.partition_name key i) c × AreNamed key (i + 1) cs

  -- The child before the index `i` of an entry with another name leaves the target as it was.
  select_child-other :
      (target : String) (now : Time) (key : String) (i : ℕ) (c : ChildOutcome) (ns : List Named)
      → IsNamed (m.partition_name key i) c
      → m.partition_name key i ≢ target
      → find_result target (select_child now key i c ns) ≡ find_result target ns
  unfolding select_child
  select_child-other target now key i (completed r) ns h ne =
      find-put_other r.operator_id target r ns
        (ap (λ a. str_eq a target) (h r refl) ∙ str_neq (m.partition_name key i) target ne)
  select_child-other target now key i (failed e) ns h ne =
      find-put_other (m.partition_name key i) target _ ns
        (str_neq (m.partition_name key i) target ne)
  select_child-other target now key i timed_out ns h ne =
      find-put_other (m.partition_name key i) target _ ns
        (str_neq (m.partition_name key i) target ne)

  children_loop-other :
      (target : String) (now : Time) (key : String) (i : ℕ) (cs : List ChildOutcome)
      (ns : List Named)
      → AreNamed key i cs
      → ((j : ℕ) → i ≤ j → m.partition_name key j ≢ target)
      → find_result target (children_loop now key i cs ns) ≡ find_result target ns
  unfolding children_loop
  children_loop-other target now key i [] ns h ne = refl
  children_loop-other target now key i (c ∷ cs) ns h ne =
      children_loop-other target now key (i + 1) cs (select_child now key i c ns) h.1
        (λ j le. ne j (omega (arith, le)))
      ∙ select_child-other target now key i c ns h.0 (ne i (omega arith))

  module _ (now : Time) (k : String) (r : OperatorResult) where
    -- An entry of the futures that may stand beside the one with the key `k`.
    pub record IsGood (l : Launched) : Type 0 where
      pub named : AreNamed l.key 0 l.children
      pub first : l.key ≡ k → (cs : List ChildOutcome) × (l.children ≡ completed r ∷ cs)

    abbrev pub AllGood : List Launched → Type 0
    AllGood ls = (l : Launched) → Memᴰ l ls → IsGood l

    first_child :
        (key : String) (rest : List ChildOutcome) (ns : List Named)
        → AreNamed key 0 (completed r ∷ rest)
        → key ≡ k
        → find_result (m.partition_name k 0) (children_loop now key 0 (completed r ∷ rest) ns)
          ≡ some r
    unfolding children_loop select_child
    first_child key rest ns named same =
        let name_is = named.0 r refl ∙ ap (λ a. m.partition_name a 0) same in
        children_loop-other (m.partition_name k 0) now key 1 rest (put_result r.operator_id r ns)
          named.1 (λ j le e. absurd (omega (arith, le, m.number_of_name key k j 0 e)))
        ∙ ap (λ a. find_result a (put_result r.operator_id r ns)) (sym name_is)
        ∙ find-put r.operator_id r ns

    entry-same :
        (l : Launched) (ns : List Named)
        → IsGood l
        → l.key ≡ k
        → find_result (m.partition_name k 0) (children_loop now l.key 0 l.children ns) ≡ some r
    entry-same l ns good same =
        let first = good.first same in
        rw first.1
          (first_child l.key first.0 ns (subst (λ cs. AreNamed l.key 0 cs) first.1 good.named) same)

    entry-other :
        (l : Launched) (ns : List Named)
        → IsGood l
        → l.key ≢ k
        → find_result (m.partition_name k 0) (children_loop now l.key 0 l.children ns)
          ≡ find_result (m.partition_name k 0) ns
    entry-other l ns good ne =
        children_loop-other (m.partition_name k 0) now l.key 0 l.children ns good.named
          (λ j le e. ne (m.id_of_name l.key k j 0 e))

    tail_good : (l : Launched) (ls : List Launched) → AllGood (l ∷ ls) → AllGood ls
    tail_good l ls good x in_ls = good x (Memᴰ.tail in_ls)

    futures_loop-keeps :
        (ls : List Launched) (ns : List Named)
        → AllGood ls
        → find_result (m.partition_name k 0) ns ≡ some r
        → find_result (m.partition_name k 0) (futures_loop now ls ns) ≡ some r
    unfolding futures_loop
    futures_loop-keeps [] ns good h = h
    futures_loop-keeps (l ∷ ls) ns good h =
        futures_loop-keeps ls (children_loop now l.key 0 l.children ns) (tail_good l ls good)
          (elim (Bool-cases (str_eq l.key k)) [
            | inl y ↦ entry-same l ns (good l (Memᴰ.head refl)) ((eq_iff l.key k).0 y)
            | inr n ↦ entry-other l ns (good l (Memᴰ.head refl)) (neq_self l.key k n) ∙ h
          ])

    pub futures_loop-finds :
        (ls : List Launched) (ns : List Named) (l : Launched)
        → AllGood ls
        → Memᴰ l ls
        → l.key ≡ k
        → find_result (m.partition_name k 0) (futures_loop now ls ns) ≡ some r
    unfolding futures_loop
    futures_loop-finds [] ns l good in_ls same = elim in_ls [ ]
    futures_loop-finds (x ∷ xs) ns l good (Memᴰ.head e) same =
        futures_loop-keeps xs (children_loop now x.key 0 x.children ns) (tail_good x xs good)
          (entry-same x ns (good x (Memᴰ.head refl)) (ap (λ y. y.key) (sym e) ∙ same))
    futures_loop-finds (x ∷ xs) ns l good (Memᴰ.tail t) same =
        futures_loop-finds xs (children_loop now x.key 0 x.children ns) l (tail_good x xs good) t
          same
