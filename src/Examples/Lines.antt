-- ===== src/Examples/Lines.antt =====
-- The line index on a short text: crates/ontixa-source/src/file.rs.
use ontixa.Prelude.{
  ℕ, suc, ◌≤◌, ◌≡◌, refl, true, List, [], ◌∷◌, none, some, length, take, inl, inr, arith,
}
use ontixa.Source.File.{
  LineCol, new, count_chars, is_boundary, line_col, start_line_col, line_span, line_text,
  line_count,
}
use ontixa.Source.Lines.{newlines}
use ontixa.Source.Position.{line_col-line, line_span-line_col}
use ontixa.Source.Columns.{last_line, line_col-column}

-- Two lines with `\r\n` between them, and a character of two bytes in the second.
abbrev two_lines : List ℕ
two_lines = 97 ∷ 13 ∷ 10 ∷ 98 ∷ 195 ∷ 169 ∷ 99 ∷ []

first_line : line_text (new 0 two_lines) 1 ≡ some (97 ∷ [])
unfolding line_text new
first_line = refl

second_line : line_text (new 0 two_lines) 2 ≡ some (98 ∷ 195 ∷ 169 ∷ 99 ∷ [])
unfolding line_text new
second_line = refl

no_third_line : line_text (new 0 two_lines) 3 ≡ none
unfolding line_text new
no_third_line = refl

past_the_end : line_col (new 0 two_lines) 50 ≡ some (record { line = 2; column = 4 })
unfolding line_col new
past_the_end = refl

line_col-line_example :
    (at : LineCol) × (line_col (new 0 two_lines) 4 ≡ some at)
    × (at.line ≡ suc (newlines (take 4 two_lines)))
    × (at.line ≤ line_count (new 0 two_lines))
    × (1 ≤ at.column)
    × (at.column ≤ 5)
line_col-line_example = line_col-line 0 4 two_lines

second_span : line_span (new 0 two_lines) 2 ≡ some (record { start = 3; end = 7 })
unfolding line_span new
second_span = refl

line_span-line_col_example :
    (start_line_col (new 0 two_lines) (record { start = 3; end = 7 })
      ≡ some (record { line = 2; column = 1 }))
    × (7 ≤ length two_lines)
line_span-line_col_example =
    line_span-line_col 0 2 two_lines (record { start = 3; end = 7 }) second_span

at_boundary : is_boundary two_lines 6 ≡ true
unfolding is_boundary
at_boundary = refl

line_col-column_example :
    line_col (new 0 two_lines) 6
    ≡ some (record {
      line = suc (newlines (take 6 two_lines));
      column = suc (count_chars (last_line (take 6 two_lines)));
    })
line_col-column_example =
    line_col-column 0 6 two_lines
      (inl (
        omega arith,
        inl (
          omega arith,
          inl (
            omega arith,
            inl (
              omega arith,
              inr (
                  inl
                    (omega arith, omega arith, (omega arith, omega arith, inl (omega arith, tt)))),
            ),
          ),
        ),
      ))
      (omega arith) at_boundary
