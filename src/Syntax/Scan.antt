-- ===== src/Syntax/Scan.antt =====
-- Each handler of the lexer passes whole characters, one at least, and stays in the input.
use ontixa.Prelude.{
  ℕ, zero, suc, ◌+◌, ◌≤◌, ◌<◌, ◌≡◌, refl, sym, ap, ◌∙◌, subst, inl, inr, Bool, true, not, ◌&&◌,
  ◌||◌, List, [], ◌∷◌, length, length-drop, drop, drop-add, All, ◌==◌, Bool-cases, arith,
}
use ontixa.Syntax.Lexer.{
  Diagnostic, Lexeme, is_digit, is_ident_start, is_ident_continue, is_space, is_digit_or_underscore,
  at, test_at, run_len, whitespace, line_comment, block_loop, block_comment, digits, fraction,
  exponent, number, ident_or_keyword, is_exponent_mark, is_sign,
}
use ontixa.Syntax.Utf8.{
  Utf8, Within, within, Within-tail, ascii_tail, run_len-le, run_len-Utf8, run_len-until,
}

-- A span inside the part of the input from `start` on, of `n` bytes.
abbrev pub SpanIn : ℕ → ℕ → Diagnostic → Type 0
SpanIn start n d = (start ≤ d.start) × (d.start ≤ d.end) × (d.end ≤ start + n)

pub record Fits (start : ℕ) (rest : List ℕ) (x : Lexeme) : Type 0 where
  pub progress : 0 < x.len
  pub bounded : x.len ≤ length rest
  pub boundary : Utf8 (drop x.len rest)
  pub spans : All (SpanIn start (length rest)) x.diags

pub at_head : (r : List ℕ) (c : ℕ) → at r 0 c ≡ true → (t : List ℕ) × (r ≡ c ∷ t)
unfolding at
at_head [] c h = absurd (ground arith)
at_head (b ∷ r) c h = (r, ap (λ x. x ∷ r) (ground arith))

at_tail : (b : ℕ) (r : List ℕ) (n c : ℕ) → at (b ∷ r) (suc n) c ≡ at r n c
unfolding at
at_tail b r n c = refl

pub whitespace-Fits :
    (start b : ℕ) (r : List ℕ)
    → Utf8 (b ∷ r)
    → is_space b ≡ true
    → Fits start (b ∷ r) (whitespace (b ∷ r))
unfolding whitespace
whitespace-Fits start b r h s = record {
  progress = rw (s, run_len) (omega arith);
  bounded = run_len-le is_space (b ∷ r);
  boundary = run_len-Utf8 is_space (λ c p. unfold is_space in ground arith) (b ∷ r) h;
  spans = tt;
}

-- A position between two characters of the rest.
abbrev Pos : List ℕ → ℕ → Type 0
Pos rest n = (n ≤ length rest) × Utf8 (drop n rest)

test_at-drop :
    (p : ℕ → Bool) (rest : List ℕ) (n : ℕ)
    → test_at p rest n ≡ true
    → (b : ℕ) × (t : List ℕ) × (drop n rest ≡ b ∷ t) × (p b ≡ true)
unfolding test_at
test_at-drop p [] n h = absurd (ground arith)
test_at-drop p (b ∷ r) zero h = (b, r, refl, h)
test_at-drop p (b ∷ r) (suc n) h = test_at-drop p r n h

at-test_at : (rest : List ℕ) (n c : ℕ) → at rest n c ≡ test_at (λ b. b == c) rest n
unfolding at test_at
at-test_at rest n c = refl

drop_next : (rest : List ℕ) (n b : ℕ) (t : List ℕ) → drop n rest ≡ b ∷ t → drop (n + 1) rest ≡ t
drop_next rest n b t p = drop-add n 1 rest ∙ ap (drop 1) p

Pos-next :
    (rest : List ℕ) (n b : ℕ) (t : List ℕ)
    → Pos rest n
    → drop n rest ≡ b ∷ t
    → b < 0x80
    → Pos rest (n + 1)
Pos-next rest n b t (le, u) p ascii =
    let len : length (drop n rest) ≡ suc (length t) = ap length p in
    (
      omega (arith, length-drop n rest),
      rw (drop_next rest n b t p) (ascii_tail b t (0, subst Utf8 p u) ascii),
    )

Pos-run :
    (p : ℕ → Bool)
    → ((b : ℕ) → p b ≡ true → b < 0x80)
    → (rest : List ℕ) (n : ℕ) → Pos rest n
    → Pos rest (n + run_len p (drop n rest))
Pos-run p ascii rest n (le, u) = (
  omega (arith, run_len-le p (drop n rest), length-drop n rest),
  rw (drop-add n (run_len p (drop n rest)) rest) (run_len-Utf8 p ascii (drop n rest) u),
)

digit_ascii : (b : ℕ) → is_digit_or_underscore b ≡ true → b < 0x80
unfolding is_digit_or_underscore
digit_ascii b h = ground arith

Pos-digits : (rest : List ℕ) (n : ℕ) → Pos rest n → Pos rest (n + digits (drop n rest))
unfolding digits
Pos-digits rest n h = Pos-run is_digit_or_underscore digit_ascii rest n h

Pos-fraction : (rest : List ℕ) (n : ℕ) → Pos rest n → Pos rest (n + fraction rest n)
unfolding fraction
Pos-fraction rest n h = elim (Bool-cases (at rest n b'.' && test_at is_digit rest (n + 1))) [
  | inl hit ↦
      let point : test_at (λ b. b == b'.') rest n ≡ true =
        sym (at-test_at rest n b'.') ∙ ground arith in
      let (b, t, p, q) = test_at-drop (λ b. b == b'.') rest n point in
      let next = Pos-next rest n b t h p (ground arith) in
      rw (hit, fraction) (subst (Pos rest) (omega arith) (Pos-digits rest (n + 1) next))
  | inr miss ↦ rw (miss, fraction) (subst (Pos rest) (let e : n ≡ n + 0 = omega arith in e) h)
]

sign_ascii : (b : ℕ) → is_sign b ≡ true → b < 0x80
unfolding is_sign
sign_ascii b h = ground arith

mark_ascii : (b : ℕ) → is_exponent_mark b ≡ true → b < 0x80
unfolding is_exponent_mark
mark_ascii b h = ground arith

Pos-exponent : (rest : List ℕ) (n : ℕ) → Pos rest n → Pos rest (n + exponent rest n)
unfolding exponent
Pos-exponent rest n h =
    elim (Bool-cases (
      test_at is_exponent_mark rest n
      && (test_at is_digit rest (n + 1)
          || test_at is_sign rest (n + 1) && test_at is_digit rest (n + 2)))) [
            | inl hit ↦
                let (b, t, p, q) = test_at-drop is_exponent_mark rest n (ground arith) in
                let next = Pos-next rest n b t h p (mark_ascii b q) in
                elim (Bool-cases (test_at is_sign rest (n + 1))) [
                  | inl sign ↦
                      let (c, u, p', q') = test_at-drop is_sign rest (n + 1) sign in
                      let after : Pos rest (n + 2) =
                        subst (Pos rest) (omega arith)
                          (Pos-next rest (n + 1) c u next p' (sign_ascii c q')) in
                      rw (hit, exponent)
                        (rw sign (subst (Pos rest) (omega arith) (Pos-digits rest (n + 2) after)))
                  | inr unsigned ↦
                      rw (hit, exponent)
                        (rw unsigned
                          (subst (Pos rest) (omega arith) (Pos-digits rest (n + 1) next)))
                ]
            | inr miss ↦
                rw (miss, exponent) (subst (Pos rest) (let e : n ≡ n + 0 = omega arith in e) h)
          ]

pub number-Fits :
    (start b : ℕ) (r : List ℕ) → Utf8 (b ∷ r) → b < 0x80 → Fits start (b ∷ r) (number (b ∷ r))
unfolding number
number-Fits start b r h ascii =
    let first : Pos (b ∷ r) 1 = (omega arith, ascii_tail b r (within (b ∷ r) h) ascii) in
    let whole = Pos-digits (b ∷ r) 1 first in
    let n = 1 + digits (drop 1 (b ∷ r)) in
    let frac = Pos-fraction (b ∷ r) n whole in
    let ex = Pos-exponent (b ∷ r) (n + fraction (b ∷ r) n) frac in
    record { progress = omega arith; bounded = ex.0; boundary = ex.1; spans = tt }

pub line_comment-Fits :
    (start b c : ℕ) (r : List ℕ)
    → Utf8 (b ∷ c ∷ r)
    → Fits start (b ∷ c ∷ r) (line_comment (b ∷ c ∷ r))
unfolding line_comment
line_comment-Fits start b c r h =
    let after = Within-tail c r (Within-tail b (c ∷ r) (within (b ∷ c ∷ r) h)) in
    let p : ℕ → Bool = λ x. not (x == 10) in
    record {
      progress = omega arith;
      bounded = omega (arith, run_len-le p r);
      boundary =
          rw (drop-add 2 (run_len p r) (b ∷ c ∷ r)) (run_len-until p (λ x q. ground arith) r after);
      spans = tt;
    }

block_loop-fits :
    (r : List ℕ) → Within r → ((block_loop r).0 ≤ length r) × Utf8 (drop (block_loop r).0 r)
unfolding block_loop
block_loop-fits [] h = (omega arith, tt)
block_loop-fits (b ∷ r) h = elim (Bool-cases (b == b'*' && at r 0 b'/')) [
  | inl hit ↦
      let (t, p) = at_head r b'/' (ground arith) in
      let after : Utf8 t = ascii_tail b'/' t (subst Within p (Within-tail b r h)) (omega arith) in
      let len : length r ≡ suc (length t) = ap length p in
      rw (hit, block_loop) (omega arith, subst (λ x. Utf8 (drop 1 x)) (sym p) after)
  | inr miss ↦
      let (le, u) = block_loop-fits r (Within-tail b r h) in rw (miss, block_loop) (omega arith, u)
]

pub block_comment-Fits :
    (start b c : ℕ) (r : List ℕ)
    → Utf8 (b ∷ c ∷ r)
    → Fits start (b ∷ c ∷ r) (block_comment start (b ∷ c ∷ r))
unfolding block_comment
block_comment-Fits start b c r h =
    let (le, u) =
      block_loop-fits r (Within-tail c r (Within-tail b (c ∷ r) (within (b ∷ c ∷ r) h))) in
    record {
      progress = omega arith;
      bounded = omega arith;
      boundary = rw (drop-add 2 (block_loop r).0 (b ∷ c ∷ r)) u;
      spans = elim (Bool-cases (block_loop r).1) [
        | inl closed ↦ rw closed tt
        | inr unclosed ↦ rw unclosed (omega arith, tt)
      ];
    }

pub ident-Fits :
    (start b : ℕ) (r : List ℕ)
    → Utf8 (b ∷ r)
    → is_ident_start b ≡ true
    → Fits start (b ∷ r) (ident_or_keyword (b ∷ r))
unfolding ident_or_keyword is_ident_start
ident-Fits start b r h s =
    let first : is_ident_continue b ≡ true = ground arith in
    record {
      progress = rw (first, run_len) (omega arith);
      bounded = run_len-le is_ident_continue (b ∷ r);
      boundary =
          run_len-Utf8 is_ident_continue (λ c p. unfold is_ident_continue in ground arith) (b ∷ r)
            h;
      spans = tt;
    }
