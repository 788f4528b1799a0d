-- ===== src/Syntax/Dispatch.antt =====
-- Punctuation, and the dispatch of the lexer on the byte at hand.
use ontixa.Prelude.{
  ℕ, suc, ◌≤◌, ◌<◌, ◌≡◌, refl, sym, ap, subst, inl, inr, Bool, true, false, ◌&&◌, List, [], ◌∷◌,
  some, length, drop, All, ◌==◌, ==_iff, Bool-cases, Option-cases, if◌then◌else◌, arith,
}
use ontixa.Syntax.Kinds.{SyntaxKind}
use ontixa.Syntax.Lexer.{
  Lexeme, is_digit, utf8_len, at, Arm, arms, pick, find_arm, punctuation, dispatch, line_comment,
  block_comment,
}
use ontixa.Syntax.Utf8.{Utf8, Within, within, ascii_tail}
use ontixa.Syntax.Scan.{
  Fits, at_head, whitespace-Fits, line_comment-Fits, block_comment-Fits, number-Fits, ident-Fits,
}
use ontixa.Syntax.Quoted.{string-Fits, char_lit-Fits}

abbrev ArmOk : Arm → Type 0
ArmOk a = (a.first < 0x80) × All (λ x. x.0 < 0x80) a.seconds

arms_ok : All ArmOk arms
unfolding arms
arms_ok = omega arith

find_arm-ok :
    (b : ℕ) (table : List Arm) (a : Arm)
    → All ArmOk table
    → find_arm b table ≡ some a
    → (a.first ≡ b) × ArmOk a
unfolding find_arm
find_arm-ok b [] a ok h = absurd (ground arith)
find_arm-ok b (x ∷ more) a (ok, oks) h = elim (Bool-cases (b == x.first)) [
  | inl hit ↦
      let same : some x ≡ some a = rw (hit, find_arm) at h in
      let e : x ≡ a = ground arith in
      subst (λ y. (y.first ≡ b) × ArmOk y) e (sym ((==_iff _ _).0 hit), ok)
  | inr miss ↦ find_arm-ok b more a oks (rw (miss, find_arm) at h)
]

-- A pick passes one byte or two ASCII bytes.
pick-fits :
    (b : ℕ) (r : List ℕ) (seconds : List (ℕ × SyntaxKind)) (alone : SyntaxKind)
    → Utf8 r
    → All (λ x. x.0 < 0x80) seconds
    → (let n = (pick (b ∷ r) seconds alone).1 in
        (0 < n) × (n ≤ suc (length r)) × Utf8 (drop n (b ∷ r)))
unfolding pick
pick-fits b r [] alone u ok = (omega arith, omega arith, u)
pick-fits b r ((c, k) ∷ more) alone u (ascii, ok) = elim (Bool-cases (at (b ∷ r) 1 c)) [
  | inl hit ↦
      let (t, p) = at_head r c (unfold at in hit) in
      let len : length r ≡ suc (length t) = ap length p in
      rw (hit, pick)
        (
          omega arith,
          omega arith,
          subst (λ x. Utf8 (drop 1 x)) (sym p) (ascii_tail c t (subst Within p (within r u)) ascii),
        )
  | inr miss ↦ rw (miss, pick) (pick-fits b r more alone u ok)
]

-- The length that the lead byte announces is that of the character.
utf8_len-fits :
    (b : ℕ) (r : List ℕ)
    → Utf8 (b ∷ r)
    → (0 < utf8_len b) × (utf8_len b ≤ suc (length r)) × Utf8 (drop (utf8_len b) (b ∷ r))
unfolding utf8_len
utf8_len-fits b r (inl h) =
    let e : utf8_len b ≡ 1 = ground arith in rw e (omega arith, omega arith, h.1)
utf8_len-fits b (c ∷ r) (inr (inl h)) =
    let e : utf8_len b ≡ 2 = ground arith in rw e (omega arith, omega arith, h.2.2)
utf8_len-fits b (c ∷ d ∷ r) (inr (inr (inl h))) =
    let e : utf8_len b ≡ 3 = ground arith in rw e (omega arith, omega arith, h.2.2.2)
utf8_len-fits b (c ∷ d ∷ f ∷ r) (inr (inr (inr h))) =
    let e : utf8_len b ≡ 4 = ground arith in rw e (omega arith, omega arith, h.1.2.2.2)
utf8_len-fits b [] (inr (inl h)) = absurd (h.2)
utf8_len-fits b [] (inr (inr (inl h))) = absurd (h.2)
utf8_len-fits b (c ∷ []) (inr (inr (inl h))) = absurd (h.2.2)
utf8_len-fits b [] (inr (inr (inr h))) = absurd (h.1)
utf8_len-fits b (c ∷ []) (inr (inr (inr h))) = absurd (h.1.2)
utf8_len-fits b (c ∷ d ∷ []) (inr (inr (inr h))) = absurd (h.1.2.2)

punctuation-Fits :
    (start b : ℕ) (r : List ℕ) → Utf8 (b ∷ r) → Fits start (b ∷ r) (punctuation start b (b ∷ r))
unfolding punctuation
punctuation-Fits start b r h = elim (Option-cases (find_arm b arms)) [
  | inl unknown ↦
      let (pos, le, u) = utf8_len-fits b r h in
      rw (unknown, punctuation)
        (record { progress = pos; bounded = le; boundary = u; spans = (omega arith, tt) })
  | inr (a, found) ↦
      let (first, (ascii, oks)) = find_arm-ok b arms a arms_ok found in
      let (pos, le, u) =
        pick-fits b r a.seconds a.alone (ascii_tail b r (within (b ∷ r) h) (omega arith)) oks in
      rw (found, punctuation) (record { progress = pos; bounded = le; boundary = u; spans = tt })
]

-- Two bytes at hand.
second :
    (start b c : ℕ) (r : List ℕ) (x : ℕ → List ℕ → Lexeme)
    → Utf8 (b ∷ r)
    → at (b ∷ r) 1 c ≡ true
    → ((t : List ℕ) → Utf8 (b ∷ c ∷ t) → Fits start (b ∷ c ∷ t) (x start (b ∷ c ∷ t)))
    → Fits start (b ∷ r) (x start (b ∷ r))
second start b c r x h p k =
    let (t, e) = at_head r c (unfold at in p) in
    subst (λ y. Fits start (b ∷ y) (x start (b ∷ y))) (sym e) (k t (subst (λ y. Utf8 (b ∷ y)) e h))

and_right : (x y : Bool) → (x && y) ≡ true → y ≡ true
and_right x y h = ground arith

digit_ascii : (b : ℕ) → is_digit b ≡ true → b < 0x80
unfolding is_digit
digit_ascii b h = ground arith

if-Fits :
    (start : ℕ) (rest : List ℕ) (test : Bool) (x y : Lexeme)
    → (test ≡ true → Fits start rest x)
    → (test ≡ false → Fits start rest y)
    → Fits start rest (if test then x else y)
if-Fits start rest true x y hx hy = hx refl
if-Fits start rest false x y hx hy = hy refl

-- Whatever the byte, the handler that is chosen passes whole characters, one at least, and stays
-- in the input.
pub dispatch-Fits :
    (start b : ℕ) (r : List ℕ) → Utf8 (b ∷ r) → Fits start (b ∷ r) (dispatch start b (b ∷ r))
unfolding dispatch
dispatch-Fits start b r h =
    if-Fits start (b ∷ r) _ _ _ (λ s. whitespace-Fits start b r h s)
      λ _.
        if-Fits start (b ∷ r) _ _ _
          (λ (s : (b == b'/' && at (b ∷ r) 1 b'/') ≡ true).
            second start b b'/' r (λ _ y. line_comment y) h (and_right _ _ s)
              (λ t u. line_comment-Fits start b b'/' t u))
          λ _.
            if-Fits start (b ∷ r) _ _ _
              (λ (s : (b == b'/' && at (b ∷ r) 1 b'*') ≡ true).
                second start b b'*' r block_comment h (and_right _ _ s)
                  (λ t u. block_comment-Fits start b b'*' t u))
              λ _.
                if-Fits start (b ∷ r) _ _ _
                  (λ (s : is_digit b ≡ true). number-Fits start b r h (digit_ascii b s))
                  λ _.
                    if-Fits start (b ∷ r) _ _ _ (λ (s : (b == 34) ≡ true). string-Fits start b r h)
                      λ _.
                        if-Fits start (b ∷ r) _ _ _
                          (λ (s : (b == 39) ≡ true). char_lit-Fits start b r h)
                          λ _.
                            if-Fits start (b ∷ r) _ _ _ (λ s. ident-Fits start b r h s)
                              λ _. punctuation-Fits start b r h
