-- ===== src/Temporal/Fraud/Locations.antt =====
-- The groups of events by location.
use mathlib.Core.List.{Memᴰ}
use go_temporal_timeline.Prelude.{
  ◌≡◌, ◌≢◌, refl, ap, sym, ◌∙◌, String, List, [], ◌∷◌, ◌++◌, map, ◌⊎◌, inl, inr, All, str_eq,
  eq_iff, if_intro, Bool-cases,
}
use go_temporal_timeline.Timeline.Types.{Event}
use go_temporal_timeline.Temporal.Micro.Lookup.{neq_self}
use go_temporal_timeline.Temporal.Fraud.{
  Surveyor, location_key, Group, events_at, put_event, relabel, group_loop,
}

abbrev pub key_of : Group → String
key_of g = g.key

-- No two keys are equal.
abbrev pub IsDistinct : List String → Type 0
IsDistinct [] = All (λ (k : String). k ≢ k) []
IsDistinct (k ∷ ks) = All (λ j. k ≢ j) ks × IsDistinct ks

pub mem_append : {A : Type 0} (x : A) (xs ys : List A) → Memᴰ x (xs ++ ys) → Memᴰ x xs ⊎ Memᴰ x ys
mem_append x [] ys m = inr m
mem_append x (y ∷ xs) ys (Memᴰ.head e) = inl (Memᴰ.head e)
mem_append x (y ∷ xs) ys (Memᴰ.tail t) = elim (mem_append x xs ys t) [
  | inl l ↦ inl (Memᴰ.tail l)
  | inr r ↦ inr r
]

put_event-apart :
    (c key : String) (e : Event) (gs : List Group)
    → c ≢ key
    → All (λ j. c ≢ j) (map key_of gs)
    → All (λ j. c ≢ j) (map key_of (put_event key e gs))
unfolding put_event
put_event-apart c key e [] ne h = (ne, tt)
put_event-apart c key e (g ∷ gs) ne h =
    if_intro (λ ns. All (λ j. c ≢ j) (map key_of ns)) (str_eq g.key key) (λ same. h)
      (λ differ. (h.0, put_event-apart c key e gs ne h.1))

pub put_event-IsDistinct :
    (key : String) (e : Event) (gs : List Group)
    → IsDistinct (map key_of gs)
    → IsDistinct (map key_of (put_event key e gs))
unfolding put_event
put_event-IsDistinct key e [] h = (tt, tt)
put_event-IsDistinct key e (g ∷ gs) h =
    if_intro (λ ns. IsDistinct (map key_of ns)) (str_eq g.key key) (λ same. h)
      (λ differ. (
        put_event-apart g.key key e gs (neq_self g.key key differ) h.0,
        put_event-IsDistinct key e gs h.1,
      ))

mem_one : (x e : Event) → Memᴰ x (e ∷ []) → x ≡ e
mem_one x e (Memᴰ.head h) = h
mem_one x e (Memᴰ.tail t) = elim t [ ]

pub events_at-put_event :
    (k key : String) (x e : Event) (gs : List Group)
    → Memᴰ x (events_at k (put_event key e gs))
    → Memᴰ x (events_at k gs) ⊎ ((x ≡ e) × (key ≡ k))
unfolding events_at put_event
events_at-put_event k key x e [] =
    if_intro (λ ys. Memᴰ x ys → Memᴰ x [] ⊎ ((x ≡ e) × (key ≡ k))) (str_eq key k)
      (λ same m. inr (mem_one x e m, (eq_iff key k).0 same)) (λ differ m. elim m [ ])
events_at-put_event k key x e (g ∷ gs) = elim (Bool-cases (str_eq g.key k)) [
  | inl at_k ↦
      if_intro
        (λ ns. Memᴰ x (events_at k ns) → Memᴰ x (events_at k (g ∷ gs)) ⊎ ((x ≡ e) × (key ≡ k)))
        (str_eq g.key key)
        (λ same. rw at_k (λ m. elim (mem_append x g.events (e ∷ []) m) [
          | inl before ↦ inl before
          | inr last ↦
              inr (mem_one x e last, sym ((eq_iff g.key key).0 same) ∙ (eq_iff g.key k).0 at_k)
        ]))
        (λ differ. rw at_k (λ m. inl m))
  | inr not_k ↦
      if_intro
        (λ ns. Memᴰ x (events_at k ns) → Memᴰ x (events_at k (g ∷ gs)) ⊎ ((x ≡ e) × (key ≡ k)))
        (str_eq g.key key) (λ same. rw not_k (λ m. inl m))
        (λ differ. rw not_k (events_at-put_event k key x e gs))
]

module _ ⦃w : Surveyor⦄ where
  pub group_loop-IsDistinct :
      (gs : List Group) (es : List Event)
      → IsDistinct (map key_of gs)
      → IsDistinct (map key_of (group_loop gs es))
  unfolding group_loop
  group_loop-IsDistinct gs [] h = h
  group_loop-IsDistinct gs (e ∷ es) h =
      group_loop-IsDistinct (put_event (location_key e) e gs) es
        (put_event-IsDistinct (location_key e) e gs h)

  -- An event of a group was there before or is one of the events, at its location.
  pub events_at-group_loop :
      (k : String) (x : Event) (gs : List Group) (es : List Event)
      → Memᴰ x (events_at k (group_loop gs es))
      → Memᴰ x (events_at k gs) ⊎ (Memᴰ x es × (location_key x ≡ k))
  unfolding group_loop
  events_at-group_loop k x gs [] m = inl m
  events_at-group_loop k x gs (e ∷ es) m =
      elim (events_at-group_loop k x (put_event (location_key e) e gs) es m) [
        | inr later ↦ inr (Memᴰ.tail later.0, later.1)
        | inl put ↦ elim (events_at-put_event k (location_key e) x e gs put) [
          | inl before ↦ inl before
          | inr here ↦ inr (Memᴰ.head here.0, ap location_key here.0 ∙ here.1)
        ]
      ]

-- An event that carries the key after relabelling stems from one of the location.
pub relabel-mem :
    (key : String) (x : Event) (es : List Event)
    → Memᴰ x (relabel key es)
    → (x.value ≡ key) × (a : Event) × Memᴰ a es × (x.timestamp ≡ a.timestamp)
relabel-mem key x [] m = elim m [ ]
relabel-mem key x (e ∷ es) (Memᴰ.head h) =
    (ap (λ (y : Event). y.value) h, e, Memᴰ.head refl, ap (λ (y : Event). y.timestamp) h)
relabel-mem key x (e ∷ es) (Memᴰ.tail t) =
    let r = relabel-mem key x es t in (r.0, r.1, Memᴰ.tail r.2, r.3)
