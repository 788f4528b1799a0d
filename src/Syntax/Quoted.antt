-- ===== src/Syntax/Quoted.antt =====
-- The loops of string and character literals end between characters, with their spans in place.
use ontixa.Prelude.{
  ℕ, ◌+◌, ◌≤◌, ◌<◌, ◌≡◌, refl, ◌⊎◌, inl, inr, List, [], ◌∷◌, length, drop, drop-add, All,
  All-append, Bool-cases, arith,
}
use ontixa.Syntax.Kinds
use ontixa.Syntax.Lexer.{
  Diagnostic, inside, stop, close, escape, plain, Inside, unterminated, bad_escape, is_escape,
  quoted_loop, string, char_lit,
}
use ontixa.Syntax.Utf8.{Utf8, Within, within, Within-tail, ascii_tail, ascii_here}
use ontixa.Syntax.Scan.{Fits}

-- A span between two offsets.
abbrev SpanTo : ℕ → ℕ → Diagnostic → Type 0
SpanTo start end d = (start ≤ d.start) × (d.start ≤ d.end) × (d.end ≤ end)

SpanTo-mono :
    (start m n : ℕ) (ds : List Diagnostic)
    → m ≤ n
    → All (SpanTo start m) ds
    → All (SpanTo start n) ds
SpanTo-mono start m n [] le h = tt
SpanTo-mono start m n (d ∷ ds) le (h, hs) = (omega arith, SpanTo-mono start m n ds le hs)

Inside-cases : (i : Inside) → (i ≡ stop) ⊎ (i ≡ close) ⊎ (i ≡ escape) ⊎ (i ≡ plain)
Inside-cases stop = inl refl
Inside-cases close = inr (inl refl)
Inside-cases escape = inr (inr (inl refl))
Inside-cases plain = inr (inr (inr refl))

stop_newline : (quote b : ℕ) → inside quote b ≡ stop → b ≡ 10
unfolding inside
stop_newline quote b h = ground arith

close_quote : (quote b : ℕ) → inside quote b ≡ close → b ≡ quote
unfolding inside
close_quote quote b h = ground arith

bad_escape-spans :
    (start pos end c : ℕ) → start ≤ pos → pos + 2 ≤ end → All (SpanTo start end) (bad_escape pos c)
unfolding bad_escape
bad_escape-spans start pos end c le h = elim (Bool-cases (is_escape c)) [
  | inl known ↦ rw (known, bad_escape) tt
  | inr unknown ↦ rw (unknown, bad_escape) (omega arith, tt)
]

-- What the loop promises at `pos`, in the literal that began at `start`.
abbrev Passes : ℕ → ℕ → List ℕ → ℕ × List Diagnostic → Type 0
Passes start pos r x =
    (x.0 ≤ length r) × Utf8 (drop x.0 r) × All (SpanTo start (pos + length r)) x.1

quoted_loop-Passes :
    (quote start : ℕ)
    → quote < 0x80
    → (r : List ℕ) (pos : ℕ) → start ≤ pos
    → Within r
    → Passes start pos r (quoted_loop quote start r pos)
unfolding quoted_loop unterminated
quoted_loop-Passes quote start q [] pos le h = (omega arith, tt, (omega arith, tt))
quoted_loop-Passes quote start q (b ∷ []) pos le h = elim (Inside-cases (inside quote b)) [
  | inl i ↦
      let newline = stop_newline quote b i in
      rw (i, quoted_loop) (omega arith, ascii_here b [] h (omega arith), (omega arith, tt))
  | inr (inl i) ↦ rw (i, quoted_loop) (omega arith, tt, tt)
  | inr (inr (inl i)) ↦ rw (i, quoted_loop) (omega arith, tt, (omega arith, tt))
  | inr (inr (inr i)) ↦ rw (i, quoted_loop) (omega arith, tt, (omega arith, tt))
]
quoted_loop-Passes quote start q (b ∷ c ∷ r) pos le h = elim (Inside-cases (inside quote b)) [
  | inl i ↦
      let newline = stop_newline quote b i in
      rw (i, quoted_loop) (omega arith, ascii_here b (c ∷ r) h (omega arith), (omega arith, tt))
  | inr (inl i) ↦
      let closing = close_quote quote b i in
      rw (i, quoted_loop) (omega arith, ascii_tail b (c ∷ r) h (omega arith), tt)
  | inr (inr (inl i)) ↦
      let (le', u, s) =
        quoted_loop-Passes quote start q r (pos + 2) (omega arith)
          (Within-tail c r (Within-tail b (c ∷ r) h)) in
      rw (i, quoted_loop)
        (
          omega arith,
          rw (drop-add 2 (quoted_loop quote start r (pos + 2)).0 (b ∷ c ∷ r)) u,
          All-append (SpanTo start (pos + length (b ∷ c ∷ r))) (bad_escape pos c) _
              (bad_escape-spans start pos _ c le (omega arith))
              (SpanTo-mono start _ _ _ (omega arith) s),
        )
  | inr (inr (inr i)) ↦
      let (le', u, s) =
        quoted_loop-Passes quote start q (c ∷ r) (pos + 1) (omega arith)
          (Within-tail b (c ∷ r) h) in
      rw (i, quoted_loop)
        (
          omega arith,
          rw (drop-add 1 (quoted_loop quote start (c ∷ r) (pos + 1)).0 (b ∷ c ∷ r)) u,
          SpanTo-mono start _ _ _ (omega arith) s,
        )
]

quoted-Fits :
    (quote start b : ℕ) (r : List ℕ) (kind : Kinds.SyntaxKind)
    → quote < 0x80
    → Utf8 (b ∷ r)
    → (let x = quoted_loop quote start r (start + 1) in
        Fits start (b ∷ r) (record { kind = kind; len = 1 + x.0; diags = x.1 }))
quoted-Fits quote start b r kind q h =
    let (le, u, s) =
      quoted_loop-Passes quote start q r (start + 1) (omega arith)
        (Within-tail b r (within (b ∷ r) h)) in
    record {
      progress = omega arith;
      bounded = omega arith;
      boundary = rw (drop-add 1 (quoted_loop quote start r (start + 1)).0 (b ∷ r)) u;
      spans = SpanTo-mono start _ _ _ (omega arith) s;
    }

pub string-Fits :
    (start b : ℕ) (r : List ℕ) → Utf8 (b ∷ r) → Fits start (b ∷ r) (string start (b ∷ r))
unfolding string
string-Fits start b r h = quoted-Fits 34 start b r Kinds.string (omega arith) h

pub char_lit-Fits :
    (start b : ℕ) (r : List ℕ) → Utf8 (b ∷ r) → Fits start (b ∷ r) (char_lit start (b ∷ r))
unfolding char_lit
char_lit-Fits start b r h = quoted-Fits 39 start b r Kinds.char (omega arith) h
