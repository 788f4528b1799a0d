-- ===== src/Transactions/Weave.antt =====
-- Splicing replaces the sites and keeps the rest: `splice_sources` of crates/ontixa-db/src/rename.rs in
-- the order of `plan_patch`, crates/ontixa-db/src/patch.rs.
use ontixa.Prelude.{
  ℕ, zero, suc, ◌≤◌, true, false, List, [], ◌∷◌, ◌++◌, some, ◌≡◌, refl, sym, ap, ◌∙◌, subst, All,
  length, take, drop, leb, length-append, length-take, Bool-cases, inl, inr, arith,
}
use mathlib.Core.List.{append_assoc}
use ontixa.Source.Span.{Span}
use ontixa.Source.File.{is_boundary}
use ontixa.Syntax.Utf8.{Utf8}
use ontixa.Transactions.Boundary.{IsCut, spliced-boundary}
use ontixa.Transactions.Splice.{
  Edit, overlap, clear_of, check_overlap, splices_first, insert_edit, splice_order, replace_range,
  splice,
}

-- The text that edits in splice order ask for: what stands after a site stays, the site has its
-- replacement, and the rest of the edits applies to what stands before it.
unfoldable pub patched : List Edit → List ℕ → List ℕ
patched [] text = text
patched (e ∷ es) text = patched es (take e.span.start text) ++ (e.replace ++ drop e.span.end text)

-- A span within a text of some length.
abbrev pub IsInside : ℕ → Edit → Type 0
IsInside n e = (e.span.start ≤ e.span.end) × (e.span.end ≤ n)

-- Each edit ends where or before the ones that are spliced first begin.
abbrev pub IsApart : List Edit → Type 0
IsApart [] = Unit
IsApart (e ∷ es) = All (λ d. d.span.end ≤ e.span.start) es × IsApart es

-- A statement of every two edits of a list.
abbrev pub AllPairs : (Edit → Edit → Type 0) → List Edit → Type 0
AllPairs R [] = Unit
AllPairs R (e ∷ es) = All (R e) es × AllPairs R es

-- Of two edits at one offset, the one whose operation is not the later one is an insertion.
abbrev pub IsTieSafe : Edit → Edit → Type 0
IsTieSafe a b =
    (a.span.start ≡ b.span.start → a.op ≤ b.op → a.span.end ≡ a.span.start)
    × (a.span.start ≡ b.span.start → b.op ≤ a.op → b.span.end ≡ b.span.start)

take-append {ℓ} :
    {A : Type ℓ} (n : ℕ) (xs ys : List A) → n ≤ length xs → take n (xs ++ ys) ≡ take n xs
take-append zero xs ys h = refl
take-append (suc n) [] ys h = absurd (omega arith)
take-append (suc n) (x ∷ xs) ys h = ap (λ t. x ∷ t) (take-append n xs ys (omega arith))

drop-append {ℓ} :
    {A : Type ℓ} (n : ℕ) (xs ys : List A) → n ≤ length xs → drop n (xs ++ ys) ≡ drop n xs ++ ys
drop-append zero xs ys h = refl
drop-append (suc n) [] ys h = absurd (omega arith)
drop-append (suc n) (x ∷ xs) ys h = drop-append n xs ys (omega arith)

replace_range-some :
    (text : List ℕ) (s : Span) (r : List ℕ)
    → s.start ≤ s.end
    → s.end ≤ length text
    → is_boundary text s.start ≡ true
    → is_boundary text s.end ≡ true
    → replace_range text s r ≡ some (take s.start text ++ (r ++ drop s.end text))
unfolding replace_range
replace_range-some text s r p q a b =
    let c : leb s.start s.end ≡ true = ground arith in
    let d : leb s.end (length text) ≡ true = ground arith in rw (c, d) (rw (a, b) refl)

-- Edits within the first part of a text leave the second.
patched-append :
    (es : List Edit) (xs ys : List ℕ)
    → All (IsInside (length xs)) es
    → IsApart es
    → patched es (xs ++ ys) ≡ patched es xs ++ ys
unfolding patched
patched-append [] xs ys i a = refl
patched-append (e ∷ es) xs ys ((p, q), i) (h, a) =
    rw (take-append e.span.start xs ys (omega arith), drop-append e.span.end xs ys q)
      (simp append_assoc)

All-both :
    (n : ℕ) (k : ℕ) (es : List Edit)
    → k ≤ n
    → All (IsInside n) es
    → All (λ d. d.span.end ≤ k) es
    → All (IsInside k) es
All-both n k [] h i a = tt
All-both n k (e ∷ es) h ((p, q), i) (r, a) = ((p, r), All-both n k es h i a)

All-widen : (n k : ℕ) (es : List Edit) → n ≤ k → All (IsInside n) es → All (IsInside k) es
All-widen n k [] h i = tt
All-widen n k (e ∷ es) h ((p, q), i) = ((p, omega arith), All-widen n k es h i)

All-IsCut :
    (text r : List ℕ) (s e : ℕ)
    → s ≤ e
    → e ≤ length text
    → is_boundary text e ≡ true
    → Utf8 r
    → (es : List Edit) → All (IsInside s) es
    → All (IsCut text) es
    → All (IsCut (take s text ++ (r ++ drop e text))) es
All-IsCut text r s e p q b u [] i c = tt
All-IsCut text r s e p q b u (d ∷ ds) ((x, y), i) ((c, c'), cs) = (
  (
    spliced-boundary text r s e d.span.start p q b u (omega arith) c,
    spliced-boundary text r s e d.span.end p q b u y c',
  ),
  All-IsCut text r s e p q b u ds i cs,
)

-- The replacement is a text.
abbrev pub IsText : Edit → Type 0
IsText e = Utf8 e.replace

-- Edits that are apart and cut no character splice to the text that they ask for.
pub splice-patched :
    (es : List Edit) (text : List ℕ)
    → All (IsInside (length text)) es
    → All (IsCut text) es
    → All IsText es
    → IsApart es
    → splice es text ≡ some (patched es text)
unfolding splice patched
splice-patched [] text i c u a = refl
splice-patched (e ∷ es) text ((p, q), i) ((c, c'), cs) (u, us) (h, a) =
    let before = take e.span.start text in
    let after = e.replace ++ drop e.span.end text in
    let len : length before ≡ e.span.start = length-take e.span.start text (omega arith) in
    let near : All (IsInside e.span.start) es =
      All-both (length text) e.span.start es (omega arith) i h in
    let inner : All (IsInside (length before)) es =
      subst (λ n. All (IsInside n) es) (sym len) near in
    let outer : All (IsInside (length (before ++ after))) es =
      All-widen (length before) (length (before ++ after)) es
        (omega (arith, length-append before after)) inner in
    let cuts = All-IsCut text e.replace e.span.start e.span.end p q c' u es near cs in
    rw (replace_range-some text e.span e.replace p q c c', splice)
      (splice-patched es (before ++ after) outer cuts us a
        ∙ ap some (patched-append es before after inner a))

-- What `check_overlap` gives for two edits.
abbrev IsClear : Edit → Edit → Type 0
IsClear a b = overlap a b ≡ false

clear_of-All : (a : Edit) (es : List Edit) → clear_of a es ≡ true → All (IsClear a) es
unfolding clear_of
clear_of-All a [] h = tt
clear_of-All a (b ∷ bs) h = (ground arith, clear_of-All a bs (ground arith))

check_overlap-AllPairs : (es : List Edit) → check_overlap es ≡ true → AllPairs IsClear es
unfolding check_overlap
check_overlap-AllPairs [] h = tt
check_overlap-AllPairs (e ∷ es) h =
    (clear_of-All e es (ground arith), check_overlap-AllPairs es (ground arith))

-- Two edits of one file that may both be spliced.
abbrev IsSafe : Edit → Edit → Type 0
IsSafe a b = (a.file ≡ b.file) × IsClear a b × IsTieSafe a b

first-before :
    (a b : Edit)
    → IsSafe a b
    → a.span.start ≤ a.span.end
    → b.span.start ≤ b.span.end
    → splices_first a b ≡ true
    → (b.span.end ≤ a.span.start) × (b.span.start ≤ a.span.start)
unfolding overlap splices_first
first-before a b (f, c, (t, u)) p q h = ground arith

second-before :
    (a b : Edit)
    → IsSafe a b
    → a.span.start ≤ a.span.end
    → b.span.start ≤ b.span.end
    → splices_first a b ≡ false
    → a.span.end ≤ b.span.start
unfolding overlap splices_first
second-before a b (f, c, (t, u)) p q h = ground arith

insert_edit-All :
    (P : Edit → Type 0) (a : Edit) (es : List Edit) → P a → All P es → All P (insert_edit a es)
unfolding insert_edit
insert_edit-All P a [] p h = (p, tt)
insert_edit-All P a (b ∷ bs) p (q, h) = elim (Bool-cases (splices_first a b)) [
  | inl e ↦ rw (e, insert_edit) (p, (q, h))
  | inr e ↦ rw (e, insert_edit) (q, insert_edit-All P a bs p h)
]

splice_order-All : (P : Edit → Type 0) (es : List Edit) → All P es → All P (splice_order es)
unfolding splice_order
splice_order-All P [] h = tt
splice_order-All P (e ∷ es) (p, h) =
    insert_edit-All P e (splice_order es) p (splice_order-All P es h)

All-le :
    (k k' : ℕ) (es : List Edit)
    → k ≤ k'
    → All (λ d. d.span.end ≤ k) es
    → All (λ d. d.span.end ≤ k') es
All-le k k' [] p h = tt
All-le k k' (e ∷ es) p (q, h) = (omega arith, All-le k k' es p h)

insert_edit-IsApart :
    (n : ℕ) (a : Edit) (es : List Edit)
    → IsInside n a
    → All (IsInside n) es
    → All (IsSafe a) es
    → IsApart es
    → IsApart (insert_edit a es)
unfolding insert_edit
insert_edit-IsApart n a [] i j s h = (tt, tt)
insert_edit-IsApart n a (b ∷ bs) i (j, js) (s, ss) (h, hs) = elim (Bool-cases (splices_first a b)) [
  | inl e ↦
      let (p, q) = first-before a b s i.0 j.0 e in
      rw (e, insert_edit) ((p, All-le b.span.start a.span.start bs q h), (h, hs))
  | inr e ↦
      rw (e, insert_edit)
        (
          insert_edit-All (λ d. d.span.end ≤ b.span.start) a bs (second-before a b s i.0 j.0 e) h,
          insert_edit-IsApart n a bs i js ss hs,
        )
]

splice_order-IsApart :
    (n : ℕ) (es : List Edit) → All (IsInside n) es → AllPairs IsSafe es → IsApart (splice_order es)
unfolding splice_order
splice_order-IsApart n [] i s = tt
splice_order-IsApart n (e ∷ es) (i, is') (s, ss) =
    insert_edit-IsApart n e (splice_order es) i (splice_order-All (IsInside n) es is')
      (splice_order-All (IsSafe e) es s) (splice_order-IsApart n es is' ss)

All-three :
    (f : ℕ) (a : Edit) (es : List Edit)
    → a.file ≡ f
    → All (λ e. e.file ≡ f) es
    → All (IsClear a) es
    → All (IsTieSafe a) es
    → All (IsSafe a) es
All-three f a [] p q r s = tt
All-three f a (e ∷ es) p (q, qs) (r, rs) (s, ss) = ((p ∙ sym q, r, s), All-three f a es p qs rs ss)

AllPairs-three :
    (f : ℕ) (es : List Edit)
    → All (λ e. e.file ≡ f) es
    → AllPairs IsClear es
    → AllPairs IsTieSafe es
    → AllPairs IsSafe es
AllPairs-three f [] p q r = tt
AllPairs-three f (e ∷ es) (p, ps) (q, qs) (r, rs) =
    (All-three f e es p ps q r, AllPairs-three f es ps qs rs)

-- Edits of one file that lie in its text, cut none of its characters, have texts as replacements, pass
-- `check_overlap` and, at one offset, are insertions but for the one of the latest operation, splice
-- without a panic to the text that they ask for: each site has its replacement and what stands between
-- the sites stays.
pub splice-check_overlap :
    (f : ℕ) (es : List Edit) (text : List ℕ)
    → All (λ e. e.file ≡ f) es
    → All (IsInside (length text)) es
    → All (IsCut text) es
    → All IsText es
    → check_overlap es ≡ true
    → AllPairs IsTieSafe es
    → splice (splice_order es) text ≡ some (patched (splice_order es) text)
splice-check_overlap f es text same inside cuts texts clear ties =
    splice-patched (splice_order es) text (splice_order-All (IsInside (length text)) es inside)
      (splice_order-All (IsCut text) es cuts) (splice_order-All IsText es texts)
      (splice_order-IsApart (length text) es inside
        (AllPairs-three f es same (check_overlap-AllPairs es clear) ties))
