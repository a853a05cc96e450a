-- ===== src/Temporal/Fraud/Overlap.antt =====
-- The suspicious pairs, and the instants at which the windows of a pair overlap.
use mathlib.Core.List.{Memᴰ}
use mathlib.Core.Path.{subst}
use go_temporal_timeline.Prelude.{
  ◌≡◌, ◌≢◌, refl, ap, sym, ◌∙◌, ◌≤◌, ◌<◌, Bool, true, false, ◌&&◌, ◌||◌, String, List, [], ◌∷◌,
  ◌++◌, ltb, leb, ltb→lt, leb→le, ◌⊎◌, inl, inr, All, any, str_eq, eq_iff, if_intro, Bool-cases,
}
use go_temporal_timeline.GoTime.{Time, Duration, add}
use go_temporal_timeline.GoSort.{Sorter}
use go_temporal_timeline.GoFloat.{FloatOps}
use go_temporal_timeline.Timeline.Types.{Event, EventTimeline, BoolTimeline}
use go_temporal_timeline.Timeline.Held.{held}
use go_temporal_timeline.Timeline.Events.{has_existed_within}
use go_temporal_timeline.Timeline.Events.Existed.{matched_within, held-has_existed_within}
use go_temporal_timeline.Timeline.Combine.Logic.{held-timeline_and}
use go_temporal_timeline.Temporal.Fraud.{
  FraudDetectionConfig, Surveyor, Group, events_at, relabel, LocationPair, is_suspicious, partners,
  suspicious_pairs, fraudulent_overlap, keep_overlap, fraud_timelines,
}
use go_temporal_timeline.Temporal.Fraud.Locations.{IsDistinct, mem_append, relabel-mem}

-- What any element passes, some element passes.
any_witness :
    {A : Type 0} (p : A → Bool) (xs : List A) → any p xs ≡ true → (x : A) × Memᴰ x xs × (p x ≡ true)
any_witness p [] h = cc
any_witness p (x ∷ xs) h = elim (Bool-cases (p x)) [
  | inl here ↦ (x, Memᴰ.head refl, here)
  | inr not_here ↦
      let later = any_witness p xs (ap (λ b. b || any p xs) (sym not_here) ∙ h) in
      (later.0, Memᴰ.tail later.1, later.2)
]

and_both : (a b : Bool) → (a && b) ≡ true → (a ≡ true) × (b ≡ true)
and_both true true h = (refl, refl)
and_both true false h = cc
and_both false b h = cc

All-mem : (c k : String) (ks : List String) → All (λ j. c ≢ j) ks → Memᴰ k ks → c ≢ k
All-mem c k (j ∷ js) h (Memᴰ.head e) = λ same. h.0 (same ∙ e)
All-mem c k (j ∷ js) h (Memᴰ.tail t) = All-mem c k js h.1 t
All-mem c k [] h m = elim m [ ]

-- The instant lies in the window that begins with the event.
pub record IsWithin (window : Duration) (t : Time) (e : Event) : Type 0 where
  pub begun : e.timestamp ≤ t
  pub not_over : t < add e.timestamp window

module _ ⦃w : Surveyor⦄ ⦃f : FloatOps⦄ (window : Duration) (config : FraudDetectionConfig)
    (groups : List Group) where
  partners-mem :
      (key : String) (ks : List String) (p : LocationPair)
      → Memᴰ p (partners window config groups key ks)
      → (p.loc1_key ≡ key) × Memᴰ p.loc2_key ks
  unfolding partners
  partners-mem key [] p = λ m. elim m [ ]
  partners-mem key (k ∷ ks) p =
      if_intro (λ ps. Memᴰ p ps → (p.loc1_key ≡ key) × Memᴰ p.loc2_key (k ∷ ks))
        (is_suspicious window config (events_at key groups) (events_at k groups))
        (λ impossible. first_or_later (partners-mem key ks p))
        (λ possible m. let r = partners-mem key ks p m in (r.0, Memᴰ.tail r.1))
    where
      first_or_later :
          {rest : List LocationPair}
          → (Memᴰ p rest → (p.loc1_key ≡ key) × Memᴰ p.loc2_key ks)
          → Memᴰ p (record { loc1_key = key; loc2_key = k } ∷ rest)
          → (p.loc1_key ≡ key) × Memᴰ p.loc2_key (k ∷ ks)
      first_or_later later (Memᴰ.head e) = (
        ap (λ (q : LocationPair). q.loc1_key) e,
        Memᴰ.head (ap (λ (q : LocationPair). q.loc2_key) e),
      )
      first_or_later later (Memᴰ.tail t) = let r = later t in (r.0, Memᴰ.tail r.1)

  pub suspicious_pairs-apart :
      (ks : List String) (p : LocationPair)
      → IsDistinct ks
      → Memᴰ p (suspicious_pairs window config groups ks)
      → p.loc1_key ≢ p.loc2_key
  unfolding suspicious_pairs
  suspicious_pairs-apart [] p d m = elim m [ ]
  suspicious_pairs-apart (k ∷ ks) p d m =
      elim (mem_append p (partners window config groups k ks)
        (suspicious_pairs window config groups ks) m) [
          | inl here ↦
              let q = partners-mem k ks p here in
              λ same. All-mem k p.loc2_key ks d.0 q.1 (sym q.0 ∙ same)
          | inr later ↦ suspicious_pairs-apart ks p d.1 later
        ]

-- Of events that were relabelled with two keys, one that matches a key stems from its location.
combined-mem :
    (key k1 k2 : String) (x : Event) (es1 es2 : List Event)
    → Memᴰ x (relabel k1 es1 ++ relabel k2 es2)
    → x.value ≡ key
    → ((key ≡ k1) × (a : Event) × Memᴰ a es1 × (x.timestamp ≡ a.timestamp))
      ⊎ ((key ≡ k2) × (a : Event) × Memᴰ a es2 × (x.timestamp ≡ a.timestamp))
combined-mem key k1 k2 x es1 es2 m e = elim (mem_append x (relabel k1 es1) (relabel k2 es2) m) [
  | inl left ↦ let r = relabel-mem k1 x es1 left in inl (sym e ∙ r.0, r.1, r.2, r.3)
  | inr right ↦ let r = relabel-mem k2 x es2 right in inr (sym e ∙ r.0, r.1, r.2, r.3)
]

IsWithin-of_timestamp :
    (window : Duration) (t : Time) (x a : Event)
    → x.timestamp ≡ a.timestamp
    → (leb x.timestamp t && ltb t (add x.timestamp window)) ≡ true
    → IsWithin window t a
IsWithin-of_timestamp window t x a same h =
    let both =
      and_both (leb a.timestamp t) (ltb t (add a.timestamp window))
        (ap (λ u. leb u t && ltb t (add u window)) (sym same) ∙ h) in
    record {
      begun = leb→le a.timestamp t both.0;
      not_over = ltb→lt t (add a.timestamp window) both.1;
    }

module _ ⦃s : Sorter⦄ (window : Duration) (t : Time) where
  -- An event that matches, and whose window covers the instant.
  matching_event :
      (events : EventTimeline) (key : String)
      → held true (has_existed_within events key window) t ≡ true
      → (x : Event) × Memᴰ x events
        × (x.value ≡ key)
        × ((leb x.timestamp t && ltb t (add x.timestamp window)) ≡ true)
  matching_event events key h =
      let found =
        any_witness (matched_within key window t) events
          (sym (held-has_existed_within events key window t) ∙ h) in
      let both =
        and_both (str_eq found.0.value key)
          (leb found.0.timestamp t && ltb t (add found.0.timestamp window)) found.2 in
      (found.0, found.1, (eq_iff found.0.value key).0 both.0, both.1)

  -- An event of the group whose window covers the instant.
  abbrev pub Covered : List Group → String → Type 0
  Covered groups key = (a : Event) × Memᴰ a (events_at key groups) × IsWithin window t a

  -- An event of either group whose window covers the instant.
  covered :
      (groups : List Group) (k1 k2 key : String)
      → held true
          (has_existed_within
            (relabel k1 (events_at k1 groups) ++ relabel k2 (events_at k2 groups))
            key
            window)
          t
        ≡ true
      → Covered groups key
  covered groups k1 k2 key h =
      let found =
        matching_event (relabel k1 (events_at k1 groups) ++ relabel k2 (events_at k2 groups)) key
          h in
      elim (combined-mem key k1 k2 found.0 (events_at k1 groups) (events_at k2 groups) found.1
        found.2) [
          | inl r ↦ (
            r.1,
            subst (λ k. Memᴰ r.1 (events_at k groups)) (sym r.0) r.2,
            IsWithin-of_timestamp window t found.0 r.1 r.3 found.3,
          )
          | inr r ↦ (
            r.1,
            subst (λ k. Memᴰ r.1 (events_at k groups)) (sym r.0) r.2,
            IsWithin-of_timestamp window t found.0 r.1 r.3 found.3,
          )
        ]

  pub fraudulent_overlap-held :
      (groups : List Group) (pair : LocationPair)
      → held true (fraudulent_overlap window groups pair) t ≡ true
      → Covered groups pair.loc1_key × Covered groups pair.loc2_key
  unfolding fraudulent_overlap
  fraudulent_overlap-held groups pair h =
      let k1 = pair.loc1_key in
      let k2 = pair.loc2_key in
      let combined = relabel k1 (events_at k1 groups) ++ relabel k2 (events_at k2 groups) in
      let first = has_existed_within combined k1 window in
      let second = has_existed_within combined k2 window in
      let both =
        and_both (held true first t) (held true second t && true)
          (sym (held-timeline_and first (second ∷ []) t) ∙ h) in
      (
        covered groups k1 k2 k1 both.0,
        covered groups k1 k2 k2 (and_both (held true second t) true both.1).0,
      )

  kept :
      (tl : BoolTimeline) (rest : List BoolTimeline)
      → any (λ each. held true each t) (keep_overlap tl rest) ≡ true
      → (held true tl t ≡ true) ⊎ (any (λ each. held true each t) rest ≡ true)
  kept [] rest h = inr h
  kept (i ∷ is) rest h = elim (Bool-cases (held true (i ∷ is) t)) [
    | inl here ↦ inl here
    | inr not_here ↦ inr (ap (λ b. b || any (λ each. held true each t) rest) (sym not_here) ∙ h)
  ]

  -- A timeline that is kept is the overlap of a pair.
  pub fraud_timelines-held :
      (groups : List Group) (pairs : List LocationPair)
      → any (λ each. held true each t) (fraud_timelines window groups pairs) ≡ true
      → (pair : LocationPair) × Memᴰ pair pairs
        × (held true (fraudulent_overlap window groups pair) t ≡ true)
  unfolding fraud_timelines
  fraud_timelines-held groups [] h = cc
  fraud_timelines-held groups (pair ∷ pairs) h =
      let split =
        kept (fraudulent_overlap window groups pair) (fraud_timelines window groups pairs) h in
      elim split [
        | inl here ↦ (pair, Memᴰ.head refl, here)
        | inr later ↦ let r = fraud_timelines-held groups pairs later in (r.0, Memᴰ.tail r.1, r.2)
      ]
