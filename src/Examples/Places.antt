-- ===== src/Examples/Places.antt =====
-- Spans and places: crates/ontixa-source/src/span.rs, crates/ontixa-memory/src/place.rs.
use ontixa.Prelude.{◌≤◌, ◌≡◌, ◌↔◌, ◌⊎◌, [], ◌∷◌, some, true, arith}
use ontixa.Source.Span.{Span, IsSpan, rel, abs, covering, abs-rel, covering-least}
use ontixa.Memory.Place.{Place, IsWithin, overlaps, overlaps_iff}

abbrev five_to_nine : Span
five_to_nine = record { start = 5; end = 9 }

abbrev seven_to_twelve : Span
seven_to_twelve = record { start = 7; end = 12 }

abs-rel_example : (t : Span) × (rel five_to_nine 4 ≡ some t) × (abs t 4 ≡ some five_to_nine)
abs-rel_example = abs-rel five_to_nine 4 (omega arith, omega arith) (omega arith)

covering-least_example :
    (u : Span) × (covering five_to_nine seven_to_twelve ≡ some u)
    × IsSpan u
    × ((u.start ≤ 5) × (u.start ≤ 7) × (9 ≤ u.end) × (12 ≤ u.end))
    × ((v : Span)
        → (v.start ≤ 5) × (v.start ≤ 7)
        → (9 ≤ v.end) × (12 ≤ v.end)
        → (v.start ≤ u.start) × (u.end ≤ v.end))
covering-least_example =
    covering-least five_to_nine seven_to_twelve (omega arith, omega arith)
      (omega arith, omega arith)

-- `x.f` and `x.f.g`
abbrev x_f : Place
x_f = record { base = 0; fields = 1 ∷ []; span = five_to_nine }

abbrev x_f_g : Place
x_f_g = record { base = 0; fields = 1 ∷ 2 ∷ []; span = seven_to_twelve }

overlaps_iff_example : (overlaps x_f x_f_g ≡ true) ↔ (IsWithin x_f x_f_g ⊎ IsWithin x_f_g x_f)
overlaps_iff_example = overlaps_iff x_f x_f_g
