-- ===== src/Source/Span.antt =====
-- Spans: crates/ontixa-source/src/span.rs. An offset is a number below 2 ^ 32; `none` is the panic of an
-- assertion or of an overflow check.
use ontixa.Prelude.{
  ℕ, ◌+◌, ◌-◌, ◌<◌, ◌≤◌, ◌≡◌, Bool, ◌&&◌, Option, none, some, leb, ltb, if◌then◌else◌, arith,
}

pub record Span : Type 0 where
  pub start : ℕ
  pub end : ℕ

abbrev pub offsets : ℕ
offsets = 4294967296

-- `Span::new`
unfoldable pub make : ℕ → ℕ → Option Span
make start end = if leb start end then some (record { start = start; end = end }) else none

unfoldable pub contains : Span → ℕ → Bool
contains s offset = leb s.start offset && ltb offset s.end

unfoldable pub rel : Span → ℕ → Option Span
unfolding make
rel s base =
    if leb base s.start && leb base s.end then make (s.start - base) (s.end - base) else none

unfoldable pub abs : Span → ℕ → Option Span
unfolding make
abs s base =
    if ltb (s.start + base) offsets && ltb (s.end + base) offsets
    then make (s.start + base) (s.end + base)
    else none

unfoldable pub covering : Span → Span → Option Span
unfolding make
covering s t =
    make (if ltb s.start t.start then s.start else t.start)
      (if ltb t.end s.end then s.end else t.end)

-- A span with its start not after its end, and its end an offset.
abbrev pub IsSpan : Span → Type 0
IsSpan s = (s.start ≤ s.end) × (s.end < offsets)

make-some : (a b : ℕ) → a ≤ b → make a b ≡ some (record { start = a; end = b })
unfolding make
make-some a b p = ground arith

-- A span with its start not after its end, and its end below 2 ^ 32, that is made relative to a base
-- not after its start comes back when it is made absolute.
pub abs-rel :
    (s : Span) (base : ℕ)
    → IsSpan s
    → base ≤ s.start
    → (t : Span) × (rel s base ≡ some t) × (abs t base ≡ some s)
unfolding rel abs
abs-rel s base (p, q) r =
    (record { start = s.start - base; end = s.end - base }, ground arith, ground arith)

-- For two spans with their starts not after their ends, the covering span exists and is such a span, it
-- starts no later and ends no earlier than both, and it lies in every span that does.
pub covering-least :
    (s t : Span)
    → IsSpan s
    → IsSpan t
    → (u : Span) × (covering s t ≡ some u)
      × IsSpan u
      × ((u.start ≤ s.start) × (u.start ≤ t.start) × (s.end ≤ u.end) × (t.end ≤ u.end))
      × ((v : Span)
          → (v.start ≤ s.start) × (v.start ≤ t.start)
          → (s.end ≤ v.end) × (t.end ≤ v.end)
          → (v.start ≤ u.start) × (u.end ≤ v.end))
unfolding covering
covering-least s t (p, p') (q, q') = (
  record {
    start = if ltb s.start t.start then s.start else t.start;
    end = if ltb t.end s.end then s.end else t.end;
  },
  ground arith,
  (ground arith, ground arith),
  (ground arith, ground arith, ground arith, ground arith),
  λ v a b. (ground arith, ground arith),
)
