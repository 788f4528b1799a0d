-- ===== src/Syntax/Lexer.antt =====
-- The lexer: crates/ontixa-syntax/src/lexer.rs. A source is its list of bytes, and the state holds
-- `rest`, the bytes from `pos` on. A handler of the source moves `pos` and pushes one token; here it
-- returns the token's kind, the number of bytes passed and the diagnostics emitted, and `emit` does
-- the move and the push. Of a diagnostic the code and the primary span are kept.
use ontixa.Prelude.{
  ℕ, zero, suc, ◌+◌, ◌-◌, Bool, true, false, not, ◌&&◌, ◌||◌, List, [], ◌∷◌, ◌++◌, Option, none,
  some, leb, ltb, ◌==◌, if◌then◌else◌, length, get_elem?, take, drop,
}
use ontixa.Syntax.Kinds.{SyntaxKind, keyword_kind}
use ontixa.Syntax.Kinds

pub data Code : Type 0 where
  parse unterminated_string unterminated_comment unexpected_character : Code

pub record Diagnostic : Type 0 where
  pub code : Code
  pub start : ℕ
  pub end : ℕ

pub record Token : Type 0 where
  pub kind : SyntaxKind
  pub start : ℕ
  pub end : ℕ

pub record Lexer : Type 0 where
  pub rest : List ℕ
  pub pos : ℕ
  pub tokens : List Token
  pub diags : List Diagnostic

-- What a handler found at the head of the input.
pub record Lexeme : Type 0 where
  pub kind : SyntaxKind
  pub len : ℕ
  pub diags : List Diagnostic

unfoldable pub is_digit : ℕ → Bool
is_digit b = leb b'0' b && leb b b'9'

unfoldable pub is_alphabetic : ℕ → Bool
is_alphabetic b = leb b'a' b && leb b b'z' || leb b'A' b && leb b b'Z'

unfoldable pub is_ident_start : ℕ → Bool
unfolding is_alphabetic
is_ident_start b = is_alphabetic b || b == b'_'

unfoldable pub is_ident_continue : ℕ → Bool
unfolding is_alphabetic is_digit
is_ident_continue b = is_alphabetic b || is_digit b || b == b'_'

unfoldable pub is_space : ℕ → Bool
is_space b = b == 32 || b == 9 || b == 10 || b == 13

unfoldable pub is_digit_or_underscore : ℕ → Bool
unfolding is_digit
is_digit_or_underscore b = is_digit b || b == b'_'

unfoldable pub utf8_len : ℕ → ℕ
utf8_len b = if ltb b 0x80 then 1 else if ltb b 0xE0 then 2 else if ltb b 0xF0 then 3 else 4

-- `self.peek(n) == Some(byte)`, and a test of the byte at `n`.
unfoldable pub at : List ℕ → ℕ → ℕ → Bool
at rest n byte = elim (get_elem? rest n) [ none ↦ false | some b ↦ b == byte ]

unfoldable pub test_at : (ℕ → Bool) → List ℕ → ℕ → Bool
test_at p rest n = elim (get_elem? rest n) [ none ↦ false | some b ↦ p b ]

-- `while p(self.peek(0)) { self.pos += 1; }`: the number of rounds.
unfoldable pub run_len : (ℕ → Bool) → List ℕ → ℕ
run_len p [] = 0
run_len p (b ∷ r) = let n = run_len p r in if p b then suc n else 0

unfoldable pub whitespace : List ℕ → Lexeme
unfolding run_len is_space
whitespace rest = record { kind = Kinds.whitespace; len = run_len is_space rest; diags = [] }

unfoldable pub line_comment : List ℕ → Lexeme
unfolding run_len
line_comment rest = record {
  kind = Kinds.comment;
  len = 2 + run_len (λ b. not (b == 10)) (drop 2 rest);
  diags = [];
}

-- The loop of `block_comment`: the bytes passed, and whether `*/` was found.
unfoldable pub block_loop : List ℕ → ℕ × Bool
unfolding at
block_loop [] = (0, false)
block_loop (b ∷ r) =
    let (n, closed) = block_loop r in
    if b == b'*' && at r 0 b'/' then (2, true) else (suc n, closed)

unfoldable pub block_comment : ℕ → List ℕ → Lexeme
unfolding block_loop
block_comment start rest =
    let (n, closed) = block_loop (drop 2 rest) in
    record {
      kind = Kinds.comment;
      len = 2 + n;
      diags =
          if closed
          then []
          else record { code = unterminated_comment; start = start; end = start + (2 + n) } ∷ [];
    }

unfoldable pub digits : List ℕ → ℕ
unfolding run_len is_digit_or_underscore
digits rest = run_len is_digit_or_underscore rest

-- The fraction at `n`: a point and a digit, and the digits after them.
unfoldable pub fraction : List ℕ → ℕ → ℕ
unfolding at test_at digits is_digit
fraction rest n =
    if at rest n b'.' && test_at is_digit rest (n + 1) then 1 + digits (drop (n + 1) rest) else 0

unfoldable pub is_exponent_mark : ℕ → Bool
is_exponent_mark b = b == b'e' || b == b'E'

unfoldable pub is_sign : ℕ → Bool
is_sign b = b == b'+' || b == b'-'

unfoldable pub exponent : List ℕ → ℕ → ℕ
unfolding test_at digits is_digit is_exponent_mark is_sign
exponent rest n =
    let sign = test_at is_sign rest (n + 1) in
    let digit = test_at is_digit rest (n + 1) in
    let m : ℕ = if sign then 2 else 1 in
    if test_at is_exponent_mark rest n && (digit || sign && test_at is_digit rest (n + 2))
    then m + digits (drop (n + m) rest)
    else 0

unfoldable pub number : List ℕ → Lexeme
unfolding digits fraction exponent
number rest =
    let n = 1 + digits (drop 1 rest) in
    let f = fraction rest n in
    let e = exponent rest (n + f) in
    record {
      kind = if f == 0 && e == 0 then Kinds.int_number else Kinds.float_number;
      len = n + f + e;
      diags = [];
    }

unfoldable pub is_escape : ℕ → Bool
is_escape b = b == b'n' || b == b't' || b == b'r' || b == b'0' || b == 92 || b == 34 || b == 39

-- What a byte means inside a literal that `quote` closes.
pub data Inside : Type 0 where
  stop close escape plain : Inside

unfoldable pub inside : ℕ → ℕ → Inside
inside quote b =
    if b == 10 then stop else if b == quote then close else if b == 92 then escape else plain

unfoldable pub unterminated : ℕ → ℕ → Diagnostic
unterminated start pos = record { code = unterminated_string; start = start; end = pos }

unfoldable pub bad_escape : ℕ → ℕ → List Diagnostic
unfolding is_escape
bad_escape pos b =
    if is_escape b then [] else record { code = parse; start = pos; end = pos + 2 } ∷ []

-- The loop of `string` and of `char_lit`, at `pos` in the literal that began at `start`: the bytes
-- passed and the diagnostics.
unfoldable pub quoted_loop : ℕ → ℕ → List ℕ → ℕ → ℕ × List Diagnostic
unfolding inside unterminated bad_escape
quoted_loop quote start [] pos = (0, unterminated start pos ∷ [])
quoted_loop quote start (b ∷ []) pos = elim (inside quote b) [
  | stop ↦ (0, unterminated start pos ∷ [])
  | close ↦ (1, [])
  | escape ↦ (1, unterminated start (pos + 1) ∷ [])
  | plain ↦ (1, unterminated start (pos + 1) ∷ [])
]
quoted_loop quote start (b ∷ c ∷ r) pos = elim (inside quote b) [
  | stop ↦ (0, unterminated start pos ∷ [])
  | close ↦ (1, [])
  | escape ↦ let (n, ds) = quoted_loop quote start r (pos + 2) in (2 + n, bad_escape pos c ++ ds)
  | plain ↦ let (n, ds) = quoted_loop quote start (c ∷ r) (pos + 1) in (1 + n, ds)
]

unfoldable pub string : ℕ → List ℕ → Lexeme
unfolding quoted_loop
string start rest =
    let (n, ds) = quoted_loop 34 start (drop 1 rest) (start + 1) in
    record { kind = Kinds.string; len = 1 + n; diags = ds }

unfoldable pub char_lit : ℕ → List ℕ → Lexeme
unfolding quoted_loop
char_lit start rest =
    let (n, ds) = quoted_loop 39 start (drop 1 rest) (start + 1) in
    record { kind = Kinds.char; len = 1 + n; diags = ds }

unfoldable pub ident_or_keyword : List ℕ → Lexeme
unfolding run_len is_ident_continue keyword_kind
ident_or_keyword rest =
    let n = run_len is_ident_continue rest in
    record {
      kind = elim (keyword_kind (take n rest)) [ none ↦ Kinds.ident | some k ↦ k ];
      len = n;
      diags = [];
    }

-- One arm of the `match` in `punctuation`: the first byte, the second bytes that it tests for in
-- order, and the kind of the byte alone.
pub record Arm : Type 0 where
  pub first : ℕ
  pub seconds : List (ℕ × SyntaxKind)
  pub alone : SyntaxKind

single : ℕ → SyntaxKind → Arm
single b k = record { first = b; seconds = []; alone = k }

double : ℕ → ℕ → SyntaxKind → SyntaxKind → Arm
double b c k' k = record { first = b; seconds = (c, k') ∷ []; alone = k }

triple : ℕ → ℕ → SyntaxKind → ℕ → SyntaxKind → SyntaxKind → Arm
triple b c k' d k'' k = record { first = b; seconds = (c, k') ∷ (d, k'') ∷ []; alone = k }

unfoldable pub arms : List Arm
unfolding single double triple
arms =
    single b'(' Kinds.l_paren
    ∷ single b')' Kinds.r_paren
    ∷ single b'{' Kinds.l_brace
    ∷ single b'}' Kinds.r_brace
    ∷ single b'[' Kinds.l_bracket
    ∷ single b']' Kinds.r_bracket
    ∷ single b',' Kinds.comma
    ∷ single b';' Kinds.semicolon
    ∷ single b'?' Kinds.question
    ∷ single b'@' Kinds.at
    ∷ single b'#' Kinds.pound
    ∷ single b'~' Kinds.tilde
    ∷ single b'^' Kinds.caret
    ∷ double b':' b':' Kinds.colon2 Kinds.colon
    ∷ double b'.' b'.' Kinds.dot2 Kinds.dot
    ∷ triple b'-' b'>' Kinds.arrow b'=' Kinds.minus_eq Kinds.minus
    ∷ triple b'=' b'=' Kinds.eq2 b'>' Kinds.fat_arrow Kinds.eq
    ∷ double b'!' b'=' Kinds.neq Kinds.not
    ∷ triple b'<' b'=' Kinds.le b'<' Kinds.shl Kinds.lt
    ∷ triple b'>' b'=' Kinds.ge b'>' Kinds.shr Kinds.gt
    ∷ double b'+' b'=' Kinds.plus_eq Kinds.plus
    ∷ double b'*' b'=' Kinds.star_eq Kinds.star
    ∷ double b'/' b'=' Kinds.slash_eq Kinds.slash
    ∷ double b'%' b'=' Kinds.percent_eq Kinds.percent
    ∷ double b'&' b'&' Kinds.and2 Kinds.amp
    ∷ double b'|' b'|' Kinds.or2 Kinds.pipe
    ∷ []

-- The `if at(1, ..)` chain of an arm.
unfoldable pub pick : List ℕ → List (ℕ × SyntaxKind) → SyntaxKind → SyntaxKind × ℕ
unfolding at
pick rest [] alone = (alone, 1)
pick rest ((c, k) ∷ more) alone = if at rest 1 c then (k, 2) else pick rest more alone

unfoldable pub find_arm : ℕ → List Arm → Option Arm
find_arm b [] = none
find_arm b (a ∷ more) = if b == a.first then some a else find_arm b more

unfoldable pub punctuation : ℕ → ℕ → List ℕ → Lexeme
unfolding arms pick find_arm utf8_len
punctuation start b rest = elim (find_arm b arms) [
  | some a ↦ let (k, n) = pick rest a.seconds a.alone in record { kind = k; len = n; diags = [] }
  | none ↦ record {
    kind = Kinds.error_token;
    len = utf8_len b;
    diags = record { code = unexpected_character; start = start; end = start + utf8_len b } ∷ [];
  }
]

-- The dispatch of `run` on the byte at `pos`.
unfoldable pub dispatch : ℕ → ℕ → List ℕ → Lexeme
unfolding is_space at is_digit is_ident_start whitespace line_comment block_comment number string
    char_lit ident_or_keyword punctuation
dispatch start b rest =
    if is_space b
    then whitespace rest
    else (if b == b'/' && at rest 1 b'/'
        then line_comment rest
        else (if b == b'/' && at rest 1 b'*'
            then block_comment start rest
            else (if is_digit b
                then number rest
                else (if b == 34
                    then string start rest
                    else (if b == 39
                        then char_lit start rest
                        else (if is_ident_start b
                            then ident_or_keyword rest
                            else punctuation start b rest))))))

-- `self.pos += len` and `self.push(kind, start)`.
unfoldable pub emit : Lexeme → Lexer → Lexer
emit x s = record {
  rest = drop x.len s.rest;
  pos = s.pos + x.len;
  tokens = s.tokens ++ record { kind = x.kind; start = s.pos; end = s.pos + x.len } ∷ [];
  diags = s.diags ++ x.diags;
}

-- One round of `run`, with its guard against a round that makes no progress.
unfoldable pub round : ℕ → Lexer → Lexer
unfolding dispatch emit
round b s =
    let s' = emit (dispatch s.pos b s.rest) s in
    if s'.pos == s.pos then record s' { rest = drop 1 s'.rest; pos = s'.pos + 1 } else s'

-- `while self.pos < self.bytes.len()`, on fuel.
unfoldable pub run : ℕ → Lexer → Lexer
unfolding round
run zero s = s
run (suc fuel) s = elim s.rest [ [] ↦ s | b ∷ r ↦ run fuel (round b s) ]

-- Each round passes a byte at least, so the number of bytes is enough fuel.
unfoldable pub lex : List ℕ → Lexer
unfolding run
lex src = run (length src) (record { rest = src; pos = 0; tokens = []; diags = [] })

unfoldable pub token_text : List ℕ → Token → List ℕ
token_text src t = take (t.end - t.start) (drop t.start src)
