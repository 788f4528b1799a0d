-- ===== src/Source/Lines.antt =====
-- The line index finds the line of an offset: `line_col` and `line_span` of
-- crates/ontixa-source/src/file.rs.
use ontixa.Prelude.{
  ℕ, zero, suc, ◌+◌, ◌-◌, ◌≤◌, ◌<◌, true, false, List, [], ◌∷◌, some, ◌≡◌, refl, ap, length,
  get_elem?, take, ltb, ◌==◌, if◌then◌else◌, Bool-cases, inl, inr, arith,
}
use ontixa.Source.File.{
  starts_from, SearchResult, found, missing, next_result, binary_search, line_idx,
}

-- The number of newlines.
unfoldable pub newlines : List ℕ → ℕ
newlines [] = 0
newlines (b ∷ bs) = let rest = newlines bs in if b == 10 then suc rest else rest

-- The number of entries not after the value.
abbrev result_count : SearchResult → ℕ
result_count (found i) = suc i
result_count (missing i) = i

result_count-next : (p : SearchResult) → result_count (next_result p) ≡ suc (result_count p)
result_count-next (found i) = refl
result_count-next (missing i) = refl

line_idx-count : (p : SearchResult) → line_idx p ≡ result_count p - 1
line_idx-count (found i) = omega arith
line_idx-count (missing i) = refl

take-zero : (xs : List ℕ) (n : ℕ) → n ≡ 0 → take n xs ≡ []
take-zero xs zero p = refl
take-zero xs (suc n) p = absurd (omega arith)

pub take-nil : (n : ℕ) → take {A = ℕ} n [] ≡ []
take-nil zero = refl
take-nil (suc n) = refl

take-sub : (b : ℕ) (bs : List ℕ) (x k : ℕ) → k < x → take (x - k) (b ∷ bs) ≡ b ∷ take (x - suc k) bs
take-sub b bs x k h = let e : x - k ≡ suc (x - suc k) = omega arith in rw e refl

pub newlines-newline :
    (b : ℕ) (bs : List ℕ) → (b == 10) ≡ true → newlines (b ∷ bs) ≡ suc (newlines bs)
unfolding newlines
newlines-newline b bs h = rw h refl

pub newlines-other : (b : ℕ) (bs : List ℕ) → (b == 10) ≡ false → newlines (b ∷ bs) ≡ newlines bs
unfolding newlines
newlines-other b bs h = rw h refl

newlines-none : (x k : ℕ) (text : List ℕ) → x ≤ k → newlines (take (x - k) text) ≡ 0
unfolding newlines
newlines-none x k text h = rw (take-zero text (x - k) (omega arith)) refl

search-step :
    (x y : ℕ) (ys : List ℕ)
    → result_count (binary_search x (y ∷ ys))
      ≡ (if ltb x y then 0 else (if y == x then 1 else suc (result_count (binary_search x ys))))
unfolding binary_search
search-step x y ys = let e = result_count-next (binary_search x ys) in ground arith

search_lem :
    (x k : ℕ) (text : List ℕ)
    → result_count (binary_search x (starts_from k text)) ≡ newlines (take (x - k) text)
unfolding starts_from binary_search newlines
search_lem x k [] = rw (take-nil (x - k)) refl
search_lem x k (b ∷ bs) =
    let ih = search_lem x (suc k) bs in
    let z = newlines-none x (suc k) bs in
    elim (Bool-cases (b == 10))
      as (λ _.
        result_count (binary_search x (starts_from k (b ∷ bs)))
        ≡ newlines (take (x - k) (b ∷ bs))) [
          | inl e ↦ elim (Bool-cases (ltb k x)) [
            | inr l ↦
                let s = search-step x (suc k) (starts_from (suc k) bs) in
                rw (e, newlines-none x k (b ∷ bs) (ground arith)) (ground arith)
            | inl l ↦
                let s = search-step x (suc k) (starts_from (suc k) bs) in
                rw (e, take-sub b bs x k (ground arith), newlines-newline b (take (x - suc k) bs) e)
                  (ground arith)
          ]
          | inr e ↦ elim (Bool-cases (ltb k x)) [
            | inr l ↦ rw (e, newlines-none x k (b ∷ bs) (ground arith)) (ground arith)
            | inl l ↦
                rw (e, take-sub b bs x k (ground arith), newlines-other b (take (x - suc k) bs) e)
                  ih
          ]
        ]

pub line_idx_lem :
    (x : ℕ) (text : List ℕ)
    → line_idx (binary_search x (0 ∷ starts_from 0 text)) ≡ newlines (take x text)
line_idx_lem x text =
    let e : x - 0 ≡ x = omega arith in
    let a = line_idx-count (binary_search x (0 ∷ starts_from 0 text)) in
    let s = search-step x 0 (starts_from 0 text) in
    let r : result_count (binary_search x (starts_from 0 text)) ≡ newlines (take x text) =
      rw e at (search_lem x 0 text) in
    let z = newlines-none x 0 text in
    let z' : x ≤ 0 → newlines (take x text) ≡ 0 = λ h. rw e at (z h) in ground arith

-- Where the last line of a text starts that begins at `k` and belongs to the line that starts at `s`.
unfoldable pub last_start : ℕ → ℕ → List ℕ → ℕ
last_start s k [] = s
last_start s k (b ∷ bs) = if b == 10 then last_start (suc k) (suc k) bs else last_start s (suc k) bs

-- The line that an offset is in has its start in the index.
pub start-of :
    (s k x : ℕ) (text : List ℕ)
    → get_elem? (s ∷ starts_from k text) (newlines (take x text))
      ≡ some (last_start s k (take x text))
unfolding starts_from newlines last_start
start-of s k zero text = refl
start-of s k (suc x) [] = refl
start-of s k (suc x) (b ∷ bs) =
    elim (Bool-cases (b == 10))
      as (λ _.
        get_elem? (s ∷ starts_from k (b ∷ bs)) (newlines (take (suc x) (b ∷ bs)))
        ≡ some (last_start s k (take (suc x) (b ∷ bs)))) [
          | inl e ↦ rw e (start-of (suc k) (suc k) x bs)
          | inr e ↦ rw e (start-of s (suc k) x bs)
        ]

pub last_start-le : (s k : ℕ) (text : List ℕ) → s ≤ k → last_start s k text ≤ k + length text
unfolding last_start
last_start-le s k [] h = omega arith
last_start-le s k (b ∷ bs) h =
    let p = last_start-le (suc k) (suc k) bs in let q = last_start-le s (suc k) bs in ground arith

pub length-take_le :
    (x : ℕ) (text : List ℕ) → (length (take x text) ≤ x) × (length (take x text) ≤ length text)
length-take_le zero text = (omega arith, omega arith)
length-take_le (suc x) [] = (omega arith, omega arith)
length-take_le (suc x) (b ∷ bs) = let (p, q) = length-take_le x bs in (omega arith, omega arith)

-- The next line starts after the offset.
pub next-after :
    (k x e : ℕ) (text : List ℕ)
    → get_elem? (starts_from k text) (newlines (take x text)) ≡ some e
    → k + x < e
unfolding starts_from newlines
next-after k x e [] h = absurd (ground arith)
next-after k zero e (b ∷ bs) h = elim (Bool-cases (b == 10)) [
  | inl c ↦ ground arith
  | inr c ↦
      let first : get_elem? (starts_from (suc k) bs) 0 ≡ some e = ground arith in
      omega (arith, next-after (suc k) 0 e bs first)
]
next-after k (suc x) e (b ∷ bs) h = elim (Bool-cases (b == 10)) [
  | inl c ↦
      let later : get_elem? (starts_from (suc k) bs) (newlines (take x bs)) ≡ some e = rw c at h in
      omega (arith, next-after (suc k) x e bs later)
  | inr c ↦
      let later : get_elem? (starts_from (suc k) bs) (newlines (take x bs)) ≡ some e = rw c at h in
      omega (arith, next-after (suc k) x e bs later)
]

-- An entry of the index has as many newlines before it as lines.
pub entry-newlines :
    (s k i p : ℕ) (text : List ℕ)
    → get_elem? (s ∷ starts_from k text) i ≡ some p
    → s ≤ k
    → (newlines (take (p - k) text) ≡ i) × (0 < i → k < p) × (i ≡ 0 → p ≡ s)
unfolding starts_from newlines
entry-newlines s k zero p text h l =
    let e : p ≡ s = ground arith in
    (newlines-none p k text (omega arith), (λ q. absurd (omega arith)), (λ q. e))
entry-newlines s k (suc i) p [] h l = absurd (ground arith)
entry-newlines s k (suc i) p (b ∷ bs) h l = elim (Bool-cases (b == 10)) [
  | inl e ↦
      let (n, later, first) = entry-newlines (suc k) (suc k) i p bs (rw e at h) (omega arith) in
      let past : k < p = ground arith in
      (
        rw (take-sub b bs p k past, newlines-newline b (take (p - suc k) bs) e) (ap suc n),
        (λ q. past),
        (λ q. absurd (omega arith)),
      )
  | inr e ↦
      let (n, later, first) = entry-newlines s (suc k) (suc i) p bs (rw e at h) (omega arith) in
      let past : k < p = omega (arith, later (omega arith)) in
      (
        rw (take-sub b bs p k past, newlines-other b (take (p - suc k) bs) e) n,
        (λ q. past),
        (λ q. absurd (omega arith)),
      )
]
