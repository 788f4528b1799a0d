-- ===== src/Examples/Text.antt =====
-- The lexer on a short source: crates/ontixa-syntax/src/lexer.rs.
use ontixa.Prelude.{◌↔◌, ℕ, ◌≡◌, List, [], ◌∷◌, some, length, All, inl, arith}
use ontixa.Syntax.Kinds.{fn_kw, keyword_kind, kind_from_raw, kind_to_raw}
use ontixa.Syntax.Lexer.{lex}
use ontixa.Syntax.Scan.{SpanIn}
use ontixa.Syntax.Utf8.{Utf8}
use ontixa.Syntax.Tiling.{Tiles, texts, lex-Tiles, lex_lossless}
use ontixa.Syntax.Raw.{kind_from_raw-kind_to_raw, Named, keyword_kind-describe}

-- `fn "`
abbrev sample : List ℕ
sample = 102 ∷ 110 ∷ 32 ∷ 34 ∷ []

sample-Utf8 : Utf8 sample
sample-Utf8 = (inl (omega arith, inl (omega arith, inl (omega arith, inl (omega arith, tt)))))

lex-Tiles_example :
    ((lex sample).rest ≡ [])
    × Tiles sample 0 (lex sample).tokens (length sample)
    × All (SpanIn 0 (length sample)) (lex sample).diags
lex-Tiles_example = lex-Tiles sample sample-Utf8

lex_lossless_example : texts sample (lex sample).tokens ≡ sample
lex_lossless_example = lex_lossless sample sample-Utf8

kind_from_raw-kind_to_raw_example : kind_from_raw (kind_to_raw fn_kw) ≡ fn_kw
kind_from_raw-kind_to_raw_example = kind_from_raw-kind_to_raw fn_kw

keyword_kind-describe_example :
    (keyword_kind (102 ∷ 110 ∷ []) ≡ some fn_kw) ↔ Named (102 ∷ 110 ∷ []) fn_kw
keyword_kind-describe_example = keyword_kind-describe (102 ∷ 110 ∷ []) fn_kw
