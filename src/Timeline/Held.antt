-- ===== src/Timeline/Held.antt =====
-- What a timeline says of an instant: the specification that the operators of
-- pkg/timeline/operators.go are held against. An interval covers its start and not its end.
use go_temporal_timeline.Prelude.{
  ◌≤◌, ◌<◌, ◌≡◌, refl, Bool, true, false, ◌&&◌, [], ◌∷◌, arith, ltb, leb, bool_eq, any,
}
use go_temporal_timeline.GoTime.{Time}
use go_temporal_timeline.Timeline.Types.{BoolInterval, BoolTimeline}

abbrev pub covers : BoolInterval → Time → Bool
covers i t = leb i.start t && ltb t i.end

-- The interval covers the instant and carries the value.
abbrev pub shows : Bool → Time → BoolInterval → Bool
shows v t i = bool_eq i.value v && covers i t

-- Some interval of that value covers the instant.
abbrev pub held : Bool → BoolTimeline → Time → Bool
held v tl t = any (shows v t) tl

-- An interval that is true and not empty.
pub record IsProper (i : BoolInterval) : Type 0 where
  pub is_true : i.value ≡ true
  pub nonempty : i.start < i.end

-- True, not empty, and each interval begins strictly after the one before it has ended.
abbrev pub Separated : Time → BoolTimeline → Type 0
Separated e [] = Unit
Separated e (i ∷ is) = (e < i.start) × IsProper i × Separated i.end is

abbrev pub IsCanonical : BoolTimeline → Type 0
IsCanonical [] = Unit
IsCanonical (i ∷ is) = IsProper i × Separated i.end is

-- Nothing is true up to the end of the interval before.
pub held-Separated :
    (e t : Time) (tl : BoolTimeline) → Separated e tl → t ≤ e → held true tl t ≡ false
held-Separated e t [] s h = refl
held-Separated e t (i ∷ is) s h =
    ground (arith, held-Separated i.end t is, s.0, s.1.is_true, s.1.nonempty, s.2)

-- An interval of a separated timeline starts after the end before it.
pub Separated-start :
    (e t : Time) (tl : BoolTimeline) → Separated e tl → held true tl t ≡ true → e < t
Separated-start e t [] s h = absurd (ground arith)
Separated-start e t (i ∷ is) s h =
    ground (arith, Separated-start i.end t is, s.0, s.1.is_true, s.1.nonempty, s.2)
