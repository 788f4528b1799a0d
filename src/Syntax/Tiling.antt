-- ===== src/Syntax/Tiling.antt =====
-- The tokens of a source tile it, at character boundaries, and spell it out again.
use ontixa.Prelude.{
  ℕ, zero, suc, ◌+◌, ◌-◌, ◌≤◌, ◌<◌, ◌≡◌, refl, sym, ap, ◌∙◌, subst, false, List, [], ◌∷◌, ◌++◌,
  length, length-drop, take, drop, drop-add, All, All-append, ◌==◌, arith,
}
use ontixa.Syntax.Lexer.{
  Diagnostic, Token, Lexer, Lexeme, dispatch, emit, round, run, lex, token_text,
}
use ontixa.Syntax.Utf8.{Utf8}
use ontixa.Syntax.Scan.{Fits, SpanIn}
use ontixa.Syntax.Dispatch.{dispatch-Fits}

-- The tokens cover the bytes from `a` up to `b` without gap or overlap, none is empty, and each
-- begins at a character boundary.
abbrev pub Tiles : List ℕ → ℕ → List Token → ℕ → Type 0
Tiles src a [] b = a ≡ b
Tiles src a (t ∷ ts) b =
    (t.start ≡ a) × (t.start < t.end) × Utf8 (drop t.start src) × Tiles src t.end ts b

Tiles-push :
    (src : List ℕ) (a : ℕ) (ts : List Token) (t : Token)
    → Tiles src a ts t.start
    → t.start < t.end
    → Utf8 (drop t.start src)
    → Tiles src a (ts ++ t ∷ []) t.end
Tiles-push src a [] t h lt u = (sym h, lt, u, refl)
Tiles-push src a (x ∷ ts) t (p, l, v, h) lt u = (p, l, v, Tiles-push src x.end ts t h lt u)

-- What holds of the lexer of `src` between two rounds.
pub record Scanned (src : List ℕ) (s : Lexer) : Type 0 where
  pub at_pos : s.rest ≡ drop s.pos src
  pub total : s.pos + length s.rest ≡ length src
  pub boundary : Utf8 s.rest
  pub tiles : Tiles src 0 s.tokens s.pos
  pub spans : All (SpanIn 0 (length src)) s.diags

SpanIn-shift :
    (start n total : ℕ) (ds : List Diagnostic)
    → start + n ≤ total
    → All (SpanIn start n) ds
    → All (SpanIn 0 total) ds
SpanIn-shift start n total [] le h = tt
SpanIn-shift start n total (d ∷ ds) le (h, hs) = (omega arith, SpanIn-shift start n total ds le hs)

emit-Scanned :
    (src : List ℕ) (s : Lexer) (x : Lexeme)
    → Scanned src s
    → Fits s.pos s.rest x
    → Scanned src (emit x s)
unfolding emit
emit-Scanned src s x h f = record {
  at_pos = ap (drop x.len) h.at_pos ∙ sym (drop-add s.pos x.len src);
  total = omega (arith, length-drop x.len s.rest, f.bounded, h.total);
  boundary = f.boundary;
  tiles =
      Tiles-push src 0 s.tokens (record { kind = x.kind; start = s.pos; end = s.pos + x.len })
        h.tiles (omega (arith, f.progress)) (subst Utf8 h.at_pos h.boundary);
  spans =
      All-append (SpanIn 0 (length src)) s.diags x.diags h.spans
        (SpanIn-shift s.pos (length s.rest) (length src) x.diags (omega (arith, h.total)) f.spans);
}

moved : (a n : ℕ) → 0 < n → (a + n == a) ≡ false
moved a n h = ground arith

-- A round makes progress without its guard.
round-Scanned :
    (src : List ℕ) (s : Lexer) (b : ℕ) (r : List ℕ)
    → s.rest ≡ b ∷ r
    → Scanned src s
    → Scanned src (round b s) × (length (round b s).rest < length s.rest)
unfolding round emit
round-Scanned src s b r p h =
    let u : Utf8 (b ∷ r) = subst Utf8 p h.boundary in
    let f : Fits s.pos s.rest (dispatch s.pos b s.rest) =
      subst (λ y. Fits s.pos y (dispatch s.pos b y)) (sym p) (dispatch-Fits s.pos b r u) in
    let x = dispatch s.pos b s.rest in
    rw (moved s.pos x.len f.progress, round)
      (emit-Scanned src s x h f, omega (arith, f.progress, f.bounded, length-drop x.len s.rest))

run-Scanned :
    (src : List ℕ) (fuel : ℕ) (s : Lexer) (rest : List ℕ)
    → s.rest ≡ rest
    → length rest ≤ fuel
    → Scanned src s
    → Scanned src (run fuel s) × ((run fuel s).rest ≡ [])
unfolding run
run-Scanned src zero s [] p le h = (h, p)
run-Scanned src zero s (b ∷ r) p le h = absurd (omega arith)
run-Scanned src (suc fuel) s [] p le h = rw (p, run) (h, p)
run-Scanned src (suc fuel) s (b ∷ r) p le h =
    let (h', lt) = round-Scanned src s b r p h in
    let len : length s.rest ≡ suc (length r) = ap length p in
    rw (p, run) (run-Scanned src fuel (round b s) (round b s).rest refl (omega arith) h')

-- On a well-formed source the lexer comes to the end of the input, its tokens tile the source with
-- no gap, no overlap and no empty token, each begins at a character boundary, and every
-- diagnostic's span lies in the source with its start not after its end.
pub lex-Tiles :
    (src : List ℕ)
    → Utf8 src
    → ((lex src).rest ≡ [])
      × Tiles src 0 (lex src).tokens (length src)
      × All (SpanIn 0 (length src)) (lex src).diags
unfolding lex
lex-Tiles src u =
    let start : Scanned src (record { rest = src; pos = 0; tokens = []; diags = [] }) = record {
      at_pos = refl;
      total = omega arith;
      boundary = u;
      tiles = refl;
      spans = tt;
    } in
    let (h, done) = run-Scanned src (length src) _ src refl (omega arith) start in
    let end : (run (length src) (record { rest = src; pos = 0; tokens = []; diags = [] })).pos
        ≡ length src =
      omega (arith, h.total, ap length done) in
    (done, subst (Tiles src 0 _) end h.tiles, h.spans)

take-drop :
    (m n : ℕ) (xs : List ℕ) → m ≤ length xs → take m xs ++ take n (drop m xs) ≡ take (m + n) xs
take-drop zero n xs le = ap (λ k. take k xs) (let e : n ≡ 0 + n = omega arith in e)
take-drop (suc m) n [] le = absurd (omega arith)
take-drop (suc m) n (x ∷ xs) le =
    ap (λ y. x ∷ y) (take-drop m n xs (omega arith))
    ∙ ap (λ k. take k (x ∷ xs)) (let e : suc (m + n) ≡ suc m + n = omega arith in e)

pub texts : List ℕ → List Token → List ℕ
texts src [] = []
texts src (t ∷ ts) = token_text src t ++ texts src ts

Tiles-le : (src : List ℕ) (a : ℕ) (ts : List Token) (b : ℕ) → Tiles src a ts b → a ≤ b
Tiles-le src a [] b h = omega arith
Tiles-le src a (t ∷ ts) b (p, l, u, h) = omega (arith, Tiles-le src t.end ts b h)

texts-Tiles :
    (src : List ℕ) (a : ℕ) (ts : List Token) (b : ℕ)
    → Tiles src a ts b
    → b ≤ length src
    → texts src ts ≡ take (b - a) (drop a src)
unfolding texts token_text
texts-Tiles src a [] b h le = ap (λ k. take k (drop a src)) (let e : 0 ≡ b - a = omega arith in e)
texts-Tiles src a (t ∷ ts) b (p, l, u, h) le =
    let end_le = Tiles-le src t.end ts b h in
    let n = t.end - t.start in
    let m = b - t.end in
    let ih : texts src ts ≡ take m (drop t.end src) = texts-Tiles src t.end ts b h le in
    let e₁ : t.end ≡ t.start + n = omega arith in
    let e₂ : n + m ≡ b - a = omega arith in
    ap (λ y. take n (drop t.start src) ++ y)
      (ih ∙ ap (take m) (ap (λ k. drop k src) e₁ ∙ drop-add t.start n src))
    ∙ (take-drop n m (drop t.start src) (omega (arith, length-drop t.start src))
        ∙ (ap (λ k. take k (drop t.start src)) e₂ ∙ ap (λ k. take (b - a) (drop k src)) p))

take-all : (xs : List ℕ) → take (length xs) xs ≡ xs
take-all [] = refl
take-all (x ∷ xs) = ap (λ y. x ∷ y) (take-all xs)

-- On a well-formed source the texts of the tokens, one after the other, are the source.
pub lex_lossless : (src : List ℕ) → Utf8 src → texts src (lex src).tokens ≡ src
lex_lossless src u =
    let (_, tiles, _) = lex-Tiles src u in
    texts-Tiles src 0 (lex src).tokens (length src) tiles (omega arith)
    ∙ (ap (λ k. take k src) (let e : length src - 0 ≡ length src = omega arith in e) ∙ take-all src)
