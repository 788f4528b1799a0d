-- ===== src/Source/Position.antt =====
-- The line and column of an offset: `line_col` and `line_span` of crates/ontixa-source/src/file.rs.
use ontixa.Prelude.{
  ℕ, zero, suc, ◌+◌, ◌-◌, ◌≤◌, List, [], ◌∷◌, some, ◌≡◌, refl, ap, ◌∙◌, sym, length, get_elem?,
  take, drop, ltb, ◌==◌, Bool-cases, Option-cases, inl, inr, arith,
}
use ontixa.Source.Span.{Span, make}
use ontixa.Source.File.{
  LineCol, SourceFile, starts_from, new, binary_search, line_idx, get_range, count_chars,
  chars_or_zero, clamp, or_length, line_col, line_span, line_count, strip, start_line_col,
}
use ontixa.Source.Lines.{
  newlines, line_idx_lem, start-of, last_start, last_start-le, length-take_le, next-after,
  entry-newlines,
}

-- What `line_col` gives where the line of the offset starts.
unfoldable pub column_at : List ℕ → ℕ → ℕ → ℕ
column_at text start clamped = suc (chars_or_zero (get_range text start clamped))

line_end-after :
    (x start : ℕ) (text : List ℕ)
    → start ≤ x
    → start ≤ length text
    → start ≤ or_length (get_elem? (0 ∷ starts_from 0 text) (suc (newlines (take x text)))) text
line_end-after x start text h l =
    elim (Option-cases (get_elem? (starts_from 0 text) (newlines (take x text)))) [
      | inl q ↦ rw q l
      | inr (e, q) ↦ rw q (let z = next-after 0 x e text q in omega arith)
    ]

clamp-some :
    (x lo hi : ℕ)
    → lo ≤ x
    → lo ≤ hi
    → (c : ℕ) × (clamp x lo hi ≡ some c) × (lo ≤ c) × (c ≤ x) × (c ≤ hi) × (x ≤ hi → c ≡ x)
unfolding clamp
clamp-some x lo hi h l = elim (Bool-cases (ltb hi x)) [
  | inl q ↦ (hi, ground arith, omega arith, ground arith, omega arith, λ r. ground arith)
  | inr q ↦ (x, ground arith, h, omega arith, ground arith, λ r. refl)
]

line_col-from :
    (file : SourceFile) (x i start c : ℕ)
    → line_idx (binary_search x file.line_starts) ≡ i
    → get_elem? file.line_starts i ≡ some start
    → clamp x start (or_length (get_elem? file.line_starts (suc i)) file.text) ≡ some c
    → line_col file x ≡ some (record { line = suc i; column = column_at file.text start c })
unfolding line_col column_at
line_col-from file x i start c a b d = rw (a, b, line_col) (rw (a, d) (rw a refl))

-- What `line_col` returns at an offset.
pub position :
    (id x : ℕ) (text : List ℕ)
    → let start = last_start 0 0 (take x text) in
      (c : ℕ) × (line_col (new id text) x
        ≡ some (record { line = suc (newlines (take x text)); column = column_at text start c }))
      × (start ≤ c)
      × (c ≤ x)
      × (x ≤ length text → c ≡ x)
unfolding line_col new column_at
position id x text =
    let i = newlines (take x text) in
    let start = last_start 0 0 (take x text) in
    let e = line_idx_lem x text in
    let f = start-of 0 0 x text in
    let g = last_start-le 0 0 (take x text) (omega arith) in
    let l = length-take_le x text in
    let le_x : start ≤ x = omega arith in
    let hi = or_length (get_elem? (0 ∷ starts_from 0 text) (suc i)) text in
    let (c, d, p, q, r, s) =
      clamp-some x start hi le_x (line_end-after x start text le_x (omega arith)) in
    (
      c,
      line_col-from (new id text) x i start c e f d,
      p,
      q,
      λ h. s (line_end-after x x text (omega arith) h),
    )

length-starts_from : (k : ℕ) (text : List ℕ) → length (starts_from k text) ≡ newlines text
unfolding starts_from newlines
length-starts_from k [] = refl
length-starts_from k (b ∷ bs) = let ih = length-starts_from (suc k) bs in ground arith

newlines-take : (x : ℕ) (text : List ℕ) → newlines (take x text) ≤ newlines text
unfolding newlines
newlines-take zero text = omega arith
newlines-take (suc x) [] = omega arith
newlines-take (suc x) (b ∷ bs) = let ih = newlines-take x bs in ground arith

count_chars-take : (n : ℕ) (text : List ℕ) → count_chars (take n text) ≤ n
unfolding count_chars
count_chars-take zero text = omega arith
count_chars-take (suc n) [] = omega arith
count_chars-take (suc n) (b ∷ bs) = let ih = count_chars-take n bs in ground arith

column_at-le : (text : List ℕ) (start c : ℕ) → start ≤ c → column_at text start c ≤ suc c
unfolding column_at get_range
column_at-le text start c h =
    let z = count_chars-take (c - start) (drop start text) in
    elim (Option-cases (get_range text start c)) [
      | inl e ↦ rw e (omega arith)
      | inr (s, e) ↦
          let q : s ≡ take (c - start) (drop start text) = ground arith in rw (e, q) (omega arith)
    ]

-- For every offset `line_col` returns, with no panic: the line is the number of newlines before the
-- offset and one, it is a line of the file, and the column is at least one and at most the offset and
-- one.
pub line_col-line :
    (id x : ℕ) (text : List ℕ)
    → (at : LineCol) × (line_col (new id text) x ≡ some at)
      × (at.line ≡ suc (newlines (take x text)))
      × (at.line ≤ line_count (new id text))
      × (1 ≤ at.column)
      × (at.column ≤ suc x)
unfolding new line_count column_at
line_col-line id x text =
    let (c, e, p, q, r) = position id x text in
    let start = last_start 0 0 (take x text) in
    let n = length-starts_from 0 text in
    let t = newlines-take x text in
    (
      record { line = suc (newlines (take x text)); column = column_at text start c },
      e,
      refl,
      omega arith,
      omega arith,
      omega (arith, column_at-le text start c p),
    )

entry-le :
    (k i e : ℕ) (text : List ℕ) → get_elem? (starts_from k text) i ≡ some e → e ≤ k + length text
unfolding starts_from
entry-le k i e [] h = absurd (ground arith)
entry-le k zero e (b ∷ bs) h = elim (Bool-cases (b == 10)) [
  | inl q ↦ ground arith
  | inr q ↦ omega (arith, entry-le (suc k) zero e bs (rw q at h))
]
entry-le k (suc i) e (b ∷ bs) h = elim (Bool-cases (b == 10)) [
  | inl q ↦ omega (arith, entry-le (suc k) i e bs (rw q at h))
  | inr q ↦ omega (arith, entry-le (suc k) (suc i) e bs (rw q at h))
]

line_end-le :
    (i : ℕ) (text : List ℕ) → or_length (get_elem? (starts_from 0 text) i) text ≤ length text
line_end-le i text = elim (Option-cases (get_elem? (starts_from 0 text) i)) [
  | inl q ↦ rw q (omega arith)
  | inr (e, q) ↦ rw q (omega (arith, entry-le 0 i e text q))
]

strip-le : (text : List ℕ) (start end : ℕ) → strip text start end ≤ end
unfolding strip
strip-le text start end = ground arith

column_at-start : (text : List ℕ) (p : ℕ) → column_at text p p ≡ 1
unfolding column_at get_range count_chars
column_at-start text p =
    let e : p - p ≡ 0 = omega arith in
    elim (Option-cases (get_range text p p)) [
      | inl q ↦ rw q refl
      | inr (s, q) ↦ let r : s ≡ take (p - p) (drop p text) = ground arith in rw (q, r, e) refl
    ]

make_lem : (start end : ℕ) (s : Span) → make start end ≡ some s → (s.start ≡ start) × (s.end ≡ end)
unfolding make
make_lem start end s h = (ground arith, ground arith)

-- `line_col` at an entry of the index.
start-column :
    (id i p : ℕ) (text : List ℕ)
    → get_elem? (0 ∷ starts_from 0 text) i ≡ some p
    → line_col (new id text) p ≡ some (record { line = suc i; column = 1 })
start-column id i p text q =
    let (n, later, first) = entry-newlines 0 0 i p text q (omega arith) in
    let zero_less : p - 0 ≡ p = omega arith in
    let lines : newlines (take p text) ≡ i = rw zero_less at n in
    let (c, e, low, high, exact) = position id p text in
    let found_start : some (last_start 0 0 (take p text)) ≡ some p =
      sym (start-of 0 0 p text) ∙ (ap (λ k. get_elem? (0 ∷ starts_from 0 text) k) lines ∙ q) in
    let a : last_start 0 0 (take p text) ≡ p = ground arith in
    let b : c ≡ p = omega arith in e ∙ rw (lines, a, b, column_at-start text p) refl

-- The span of a line ends in the text, and `line_col` at its start gives the line back and column one.
pub line_span-line_col :
    (id n : ℕ) (text : List ℕ) (s : Span)
    → line_span (new id text) n ≡ some s
    → (start_line_col (new id text) s ≡ some (record { line = n; column = 1 }))
      × (s.end ≤ length text)
unfolding line_span new start_line_col make
line_span-line_col id zero text s h = absurd (ground arith)
line_span-line_col id (suc i) text s h =
    elim (Option-cases (get_elem? (0 ∷ starts_from 0 text) i)) [
      | inl q ↦ absurd (ground arith)
      | inr (p, q) ↦
          let hi = or_length (get_elem? (starts_from 0 text) i) text in
          let m : make p (strip text p hi) ≡ some s = rw q at h in
          let below = line_end-le i text in
          let short = strip-le text p hi in
          let (at_start, inside) = make_lem p (strip text p hi) s m in
          (rw at_start (start-column id i p text q), omega arith)
    ]
