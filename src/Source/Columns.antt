-- ===== src/Source/Columns.antt =====
-- The column is counted in characters: `line_col` of crates/ontixa-source/src/file.rs.
use ontixa.Prelude.{
  ℕ, zero, suc, ◌-◌, ◌≤◌, ◌<◌, true, false, List, [], ◌∷◌, some, ◌≡◌, refl, ◌∙◌, sym, subst, length,
  get_elem?, take, drop, leb, ◌==◌, if◌then◌else◌, Bool-cases, Option-cases, inl, inr, ◌⊎◌, arith,
}
use ontixa.Source.File.{new, get_range, count_chars, line_col, is_boundary, is_continuation}
use ontixa.Source.Lines.{newlines, newlines-newline, newlines-other, last_start, take-nil}
use ontixa.Source.Position.{column_at, position}
use ontixa.Syntax.Utf8.{Utf8, Within, Within-tail, within, ascii_tail}

-- What follows the last newline.
unfoldable pub last_line : List ℕ → List ℕ
unfolding newlines
last_line [] = []
last_line (b ∷ bs) = let rest = last_line bs in if newlines (b ∷ bs) == 0 then b ∷ bs else rest

last_line-all : (t : List ℕ) → newlines t ≡ 0 → last_line t ≡ t
unfolding last_line
last_line-all [] h = refl
last_line-all (b ∷ bs) h = ground arith

drop-sub : (b : ℕ) (bs : List ℕ) (x k : ℕ) → k < x → drop (x - k) (b ∷ bs) ≡ drop (x - suc k) bs
drop-sub b bs x k h = let e : x - k ≡ suc (x - suc k) = omega arith in rw e refl

from_zero : (k : ℕ) (bs : List ℕ) → newlines bs ≡ 0 → drop (suc k - suc k) bs ≡ last_line bs
from_zero k bs z = let e : suc k - suc k ≡ 0 = omega arith in rw e (sym (last_line-all bs z))

last_line-rest : (b : ℕ) (bs : List ℕ) → 0 < newlines (b ∷ bs) → last_line (b ∷ bs) ≡ last_line bs
unfolding last_line
last_line-rest b bs h = let e : (newlines (b ∷ bs) == 0) ≡ false = ground arith in rw e refl

last_start-newline :
    (s k b : ℕ) (bs : List ℕ)
    → (b == 10) ≡ true
    → last_start s k (b ∷ bs) ≡ last_start (suc k) (suc k) bs
unfolding last_start
last_start-newline s k b bs q = rw q refl

last_start-other :
    (s k b : ℕ) (bs : List ℕ)
    → (b == 10) ≡ false
    → last_start s k (b ∷ bs) ≡ last_start s (suc k) bs
unfolding last_start
last_start-other s k b bs q = rw q refl

-- The last line of a text is what follows where it starts.
IsLast : ℕ → ℕ → List ℕ → Type 0
IsLast k start t = (k < start) × (drop (start - k) t ≡ last_line t)

IsLast-cons :
    (k start b : ℕ) (bs : List ℕ)
    → k < start
    → drop (start - suc k) bs ≡ last_line bs
    → 0 < newlines (b ∷ bs)
    → IsLast k start (b ∷ bs)
unfolding IsLast
IsLast-cons k start b bs h e n = (h, drop-sub b bs start k h ∙ (e ∙ sym (last_line-rest b bs n)))

last_start-IsLast :
    (s k : ℕ) (t : List ℕ)
    → ((newlines t ≡ 0) × (last_start s k t ≡ s))
      ⊎ ((0 < newlines t) × IsLast k (last_start s k t) t)
unfolding newlines last_start IsLast
last_start-IsLast s k [] = inl (refl, refl)
last_start-IsLast s k (b ∷ bs) =
    elim (Bool-cases (b == 10))
      as (λ _.
        ((newlines (b ∷ bs) ≡ 0) × (last_start s k (b ∷ bs) ≡ s))
        ⊎ ((0 < newlines (b ∷ bs)) × IsLast k (last_start s k (b ∷ bs)) (b ∷ bs))) [
          | inl q ↦
              let n = newlines-newline b bs q in
              let one : 0 < newlines (b ∷ bs) = omega arith in
              elim (last_start-IsLast (suc k) (suc k) bs) [
                | inl (z, e) ↦
                    rw (last_start-newline s k b bs q, e)
                      (inr (one, IsLast-cons k (suc k) b bs (omega arith) (from_zero k bs z) one))
                | inr (z, (l, d)) ↦ rw (last_start-newline s k b bs q) (
                    inr
                      (one, IsLast-cons k (last_start (suc k) (suc k) bs) b bs (omega arith) d one))
              ]
          | inr q ↦
              let n = newlines-other b bs q in
              elim (last_start-IsLast s (suc k) bs) [
                | inl (z, e) ↦ inl (n ∙ z, last_start-other s k b bs q ∙ e)
                | inr (z, (l, d)) ↦ rw (last_start-other s k b bs q) (
                    inr (
                      omega arith,
                      IsLast-cons k (last_start s (suc k) bs) b bs (omega arith) d (omega arith),
                    ))
              ]
        ]

take-drop : (n x : ℕ) (t : List ℕ) → drop n (take x t) ≡ take (x - n) (drop n t)
take-drop zero x t = let e : x - 0 ≡ x = omega arith in rw e refl
take-drop (suc n) zero t = let e : 0 - suc n ≡ 0 = omega arith in rw e refl
take-drop (suc n) (suc x) [] = sym (take-nil (suc x - suc n))
take-drop (suc n) (suc x) (b ∷ bs) =
    let e : suc x - suc n ≡ x - n = omega arith in rw e (take-drop n x bs)

head-boundary : (b : ℕ) (bs : List ℕ) → Utf8 bs → is_boundary (b ∷ bs) 1 ≡ true
unfolding is_boundary is_continuation
head-boundary b [] h = refl
head-boundary b (c ∷ cs) (inl h) = ground arith
head-boundary b (c ∷ cs) (inr (inl h)) = ground arith
head-boundary b (c ∷ cs) (inr (inr (inl h))) = ground arith
head-boundary b (c ∷ cs) (inr (inr (inr h))) = ground arith

boundary-suc :
    (b i : ℕ) (bs : List ℕ) → is_boundary bs i ≡ true → 0 < i → is_boundary (b ∷ bs) (suc i) ≡ true
unfolding is_boundary is_continuation
boundary-suc b zero bs h p = absurd (omega arith)
boundary-suc b (suc i) bs h p = elim (Option-cases (get_elem? bs (suc i))) [
  | inl q ↦ ground arith
  | inr (c, q) ↦ ground arith
]

boundary-up :
    (b k start : ℕ) (bs : List ℕ)
    → suc k < start
    → is_boundary bs (start - suc k) ≡ true
    → is_boundary (b ∷ bs) (start - k) ≡ true
boundary-up b k start bs l h =
    let e : start - k ≡ suc (start - suc k) = omega arith in
    rw e (boundary-suc b (start - suc k) bs h (omega arith))

after_newline :
    (k b : ℕ) (bs : List ℕ)
    → (b == 10) ≡ true
    → Within (b ∷ bs)
    → is_boundary (b ∷ bs) (suc k - k) ≡ true
after_newline k b bs q u =
    let e : suc k - k ≡ 1 = omega arith in
    let c : b ≡ 10 = ground arith in rw e (head-boundary b bs (ascii_tail b bs u (omega arith)))

-- Where a line starts there is a character.
start-boundary :
    (s k x : ℕ) (text : List ℕ)
    → Within text
    → (last_start s k (take x text) ≡ s)
      ⊎ ((k < last_start s k (take x text))
          × (is_boundary text (last_start s k (take x text) - k) ≡ true))
unfolding last_start
start-boundary s k zero text u = inl refl
start-boundary s k (suc x) [] u = inl refl
start-boundary s k (suc x) (b ∷ bs) u = elim (Bool-cases (b == 10)) [
  | inl q ↦
      rw (last_start-newline s k b (take x bs) q)
        (elim (start-boundary (suc k) (suc k) x bs (Within-tail b bs u)) [
          | inl e ↦ inr (
            omega arith,
            subst (λ n. is_boundary (b ∷ bs) (n - k) ≡ true) (sym e) (after_newline k b bs q u),
          )
          | inr (l, h) ↦
              inr (omega arith, boundary-up b k (last_start (suc k) (suc k) (take x bs)) bs l h)
        ])
  | inr q ↦
      rw (last_start-other s k b (take x bs) q)
        (elim (start-boundary s (suc k) x bs (Within-tail b bs u)) [
          | inl e ↦ inl e
          | inr (l, h) ↦
              inr (omega arith, boundary-up b k (last_start s (suc k) (take x bs)) bs l h)
        ])
]

start-is_boundary :
    (x : ℕ) (text : List ℕ) → Utf8 text → is_boundary text (last_start 0 0 (take x text)) ≡ true
unfolding is_boundary
start-is_boundary x text u =
    let st = last_start 0 0 (take x text) in
    let e : st - 0 ≡ st = omega arith in
    elim (start-boundary 0 0 x text (within text u)) [
      | inl z ↦ rw z refl
      | inr (l, h) ↦ subst (λ n. is_boundary text n ≡ true) e h
    ]

drop-last_start : (t : List ℕ) → drop (last_start 0 0 t) t ≡ last_line t
unfolding IsLast
drop-last_start t =
    let e : last_start 0 0 t - 0 ≡ last_start 0 0 t = omega arith in
    elim (last_start-IsLast 0 0 t) [
      | inl (z, s) ↦ rw s (sym (last_line-all t z))
      | inr (z, (l, d)) ↦ subst (λ n. drop n t ≡ last_line t) e d
    ]

get_range-some :
    (text : List ℕ) (start end : ℕ)
    → start ≤ end
    → end ≤ length text
    → is_boundary text start ≡ true
    → is_boundary text end ≡ true
    → get_range text start end ≡ some (take (end - start) (drop start text))
unfolding get_range
get_range-some text start end p q a b =
    let c : leb start end ≡ true = ground arith in
    let d : leb end (length text) ≡ true = ground arith in rw (c, d, a, b) refl

-- Where a character starts at an offset of a well-formed text, the line is the number of newlines
-- before the offset and one, and the column is the number of characters between the last newline and
-- the offset, and one.
pub line_col-column :
    (id x : ℕ) (text : List ℕ)
    → Utf8 text
    → x ≤ length text
    → is_boundary text x ≡ true
    → line_col (new id text) x
      ≡ some (record {
        line = suc (newlines (take x text));
        column = suc (count_chars (last_line (take x text)));
      })
unfolding column_at
line_col-column id x text u h b =
    let (c, e, low, high, exact) = position id x text in
    let st = last_start 0 0 (take x text) in
    let le : st ≤ x = omega arith in
    let g = get_range-some text st x le h (start-is_boundary x text u) b in
    let s : take (x - st) (drop st text) ≡ last_line (take x text) =
      sym (take-drop st x text) ∙ drop-last_start (take x text) in
    e ∙ rw (exact h) (rw (g, s) refl)
