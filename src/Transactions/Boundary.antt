-- ===== src/Transactions/Boundary.antt =====
-- Splicing keeps the character boundaries before the site: `replace_range` in `splice_sources` of
-- crates/ontixa-db/src/rename.rs.
use ontixa.Prelude.{
  ℕ, zero, suc, ◌≤◌, ◌<◌, Bool, true, not, List, [], ◌∷◌, ◌++◌, none, some, ◌≡◌, refl, sym, ap, ◌∙◌,
  subst, length, take, drop, get_elem?, ◌==◌, Bool-cases, Option-cases, inl, inr, get_elem?-some,
  get_elem?-append_length, length-take, arith,
}
use ontixa.Source.File.{is_boundary, is_continuation}
use ontixa.Syntax.Utf8.{Utf8}
use ontixa.Transactions.Splice.{Edit}

-- Both ends of the span stand between characters.
abbrev pub IsCut : List ℕ → Edit → Type 0
IsCut text e = (is_boundary text e.span.start ≡ true) × (is_boundary text e.span.end ≡ true)

-- The list does not start inside a character.
starts : List ℕ → Bool
starts [] = true
starts (b ∷ bs) = not (is_continuation b)

starts-Utf8 : (bs : List ℕ) → Utf8 bs → starts bs ≡ true
unfolding starts is_continuation
starts-Utf8 [] h = refl
starts-Utf8 (b ∷ bs) (inl h) = ground arith
starts-Utf8 (b ∷ bs) (inr (inl h)) = ground arith
starts-Utf8 (b ∷ bs) (inr (inr (inl h))) = ground arith
starts-Utf8 (b ∷ bs) (inr (inr (inr h))) = ground arith

starts-append : (xs ys : List ℕ) → starts xs ≡ true → starts ys ≡ true → starts (xs ++ ys) ≡ true
unfolding starts
starts-append [] ys h k = k
starts-append (x ∷ xs) ys h k = h

at_end : (xs : List ℕ) → get_elem? xs (length xs) ≡ none
at_end [] = refl
at_end (x ∷ xs) = at_end xs

append_nil : (xs : List ℕ) → xs ++ [] ≡ xs
append_nil [] = refl
append_nil (x ∷ xs) = ap (λ r. x ∷ r) (append_nil xs)

-- Where the second part does not start inside a character there is a boundary.
join-boundary : (xs ys : List ℕ) → starts ys ≡ true → is_boundary (xs ++ ys) (length xs) ≡ true
unfolding is_boundary starts
join-boundary xs [] h =
    let e = at_end xs in
    let whole : is_boundary xs (length xs) ≡ true = ground arith in
    subst (λ t. is_boundary t (length xs) ≡ true) (sym (append_nil xs)) whole
join-boundary xs (b ∷ bs) h = let e = get_elem?-append_length xs b bs in ground arith

boundary-drop :
    (text : List ℕ) (i : ℕ) → 0 < i → is_boundary text i ≡ true → starts (drop i text) ≡ true
unfolding is_boundary starts
boundary-drop text zero p h = absurd (omega arith)
boundary-drop [] (suc i) p h = refl
boundary-drop (b ∷ []) (suc zero) p h = refl
boundary-drop (b ∷ c ∷ bs) (suc zero) p h = ground arith
boundary-drop (b ∷ bs) (suc (suc i)) p h =
    boundary-drop bs (suc i) (omega arith) (elim (Option-cases (get_elem? bs (suc i))) [
      | inl q ↦ ground arith
      | inr (c, q) ↦ ground arith
    ])

get_elem?-before :
    (s i : ℕ) (text ys : List ℕ)
    → i < s
    → s ≤ length text
    → get_elem? (take s text ++ ys) i ≡ get_elem? text i
get_elem?-before zero i text ys p q = absurd (omega arith)
get_elem?-before (suc s) i [] ys p q = absurd (omega arith)
get_elem?-before (suc s) zero (b ∷ bs) ys p q = refl
get_elem?-before (suc s) (suc i) (b ∷ bs) ys p q =
    get_elem?-before s i bs ys (omega arith) (omega arith)

before-boundary :
    (s i : ℕ) (text ys : List ℕ)
    → i < s
    → s ≤ length text
    → is_boundary text i ≡ true
    → is_boundary (take s text ++ ys) i ≡ true
unfolding is_boundary
before-boundary s i text ys p q h =
    let (b, e) = get_elem?-some text i (omega arith) in
    let e' : get_elem? (take s text ++ ys) i ≡ some b = get_elem?-before s i text ys p q ∙ e in
    ground arith

-- A boundary at or before the start of a replaced range stays one.
pub spliced-boundary :
    (text r : List ℕ) (s e i : ℕ)
    → s ≤ e
    → e ≤ length text
    → is_boundary text e ≡ true
    → Utf8 r
    → i ≤ s
    → is_boundary text i ≡ true
    → is_boundary (take s text ++ (r ++ drop e text)) i ≡ true
spliced-boundary text r s e zero p q cut u l h = unfold is_boundary in refl
spliced-boundary text r s e (suc i) p q cut u l h = elim (Bool-cases (suc i == s)) [
  | inr n ↦ before-boundary s (suc i) text (r ++ drop e text) (ground arith) (omega arith) h
  | inl m ↦
      let same : length (take s text) ≡ suc i =
        length-take s text (omega arith) ∙ (let z : s ≡ suc i = ground arith in z) in
      subst (λ k. is_boundary (take s text ++ (r ++ drop e text)) k ≡ true) same
        (join-boundary (take s text) (r ++ drop e text) (
          starts-append r (drop e text) (starts-Utf8 r u) (boundary-drop text e (omega arith) cut)))
]
