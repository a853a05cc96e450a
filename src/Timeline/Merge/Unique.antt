-- ===== src/Timeline/Merge/Unique.antt =====
-- A canonical timeline is determined by what it says of each instant.
use go_temporal_timeline.Prelude.{◌≤◌, ◌≡◌, ◌∙◌, sym, refl, true, [], ◌∷◌, arith}
use mathlib.Core.Path.{ap₂}
use native.Mathlib.Nat.{le_antisymm}
use go_temporal_timeline.GoTime.{Time}
use go_temporal_timeline.Timeline.Types.{BoolInterval, BoolTimeline}
use go_temporal_timeline.Timeline.Held.{
  held, IsProper, Separated, IsCanonical, held-Separated, Separated-start,
}

pub Separated-IsCanonical : (e : Time) (tl : BoolTimeline) → Separated e tl → IsCanonical tl
Separated-IsCanonical e [] s = tt
Separated-IsCanonical e (i ∷ is) s = (s.1, s.2)

held_start : (i : BoolInterval) (is : BoolTimeline) → IsProper i → held true (i ∷ is) i.start ≡ true
held_start i is p = ground (arith, p.is_true, p.nonempty)

first_start :
    (i : BoolInterval) (is : BoolTimeline) (t : Time)
    → IsCanonical (i ∷ is)
    → held true (i ∷ is) t ≡ true
    → i.start ≤ t
first_start i is t c h = ground (arith, Separated-start i.end t is c.1, c.0.nonempty)

module _ (i : BoolInterval) (is : BoolTimeline) (j : BoolInterval) (js : BoolTimeline)
    (ci : IsCanonical (i ∷ is)) (cj : IsCanonical (j ∷ js))
    (same : (t : Time) → held true (i ∷ is) t ≡ held true (j ∷ js) t) where
  starts_le : j.start ≤ i.start
  starts_le = first_start j js i.start cj (sym (same i.start) ∙ held_start i is ci.0)

  ends_le : i.start ≡ j.start → j.end ≤ i.end
  ends_le e = ground (
    arith,
    same i.end,
    held-Separated i.end i.end is ci.1,
    ci.0.is_true,
    ci.0.nonempty,
    cj.0.is_true,
    cj.0.nonempty,
  )

  tails_same : i.start ≡ j.start → i.end ≡ j.end → (t : Time) → held true is t ≡ held true js t
  tails_same e f t =
      ground (arith, same t, held-Separated i.end t is ci.1, held-Separated j.end t js cj.1)

IsProper-eq :
    (i j : BoolInterval) → IsProper i → IsProper j → i.start ≡ j.start → i.end ≡ j.end → i ≡ j
IsProper-eq i j p q e f = ground arith

-- Two canonical timelines that say the same of every instant are one list of intervals.
pub IsCanonical-eq :
    (xs ys : BoolTimeline)
    → IsCanonical xs
    → IsCanonical ys
    → ((t : Time) → held true xs t ≡ held true ys t)
    → xs ≡ ys
IsCanonical-eq [] [] cx cy same = refl
IsCanonical-eq [] (j ∷ js) cx cy same = absurd (ground (arith, same j.start, held_start j js cy.0))
IsCanonical-eq (i ∷ is) [] cx cy same = absurd (ground (arith, same i.start, held_start i is cx.0))
IsCanonical-eq (i ∷ is) (j ∷ js) cx cy same =
    let e : i.start ≡ j.start =
      le_antisymm (starts_le j js i is cy cx (λ t. sym (same t)))
        (starts_le i is j js cx cy same) in
    let f : i.end ≡ j.end =
      le_antisymm (ends_le j js i is cy cx (λ t. sym (same t)) (sym e))
        (ends_le i is j js cx cy same e) in
    ap₂ ◌∷◌ (IsProper-eq i j cx.0 cy.0 e f) (
      IsCanonical-eq is js (Separated-IsCanonical i.end is cx.1)
        (Separated-IsCanonical j.end js cy.1) (tails_same i is j js cx cy same e f))
