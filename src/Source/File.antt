-- ===== src/Source/File.antt =====
-- A source file with its line index: crates/ontixa-source/src/file.rs.
-- A text is its list of bytes, well-formed UTF-8 as a `&str` is; a character starts at each byte that
-- is no continuation byte. A panic is `none`. The name and the path do not enter any operation.
use ontixa.Prelude.{
  ℕ, zero, suc, ◌-◌, Bool, false, not, ◌&&◌, ◌||◌, List, [], ◌∷◌, Option, none, some, length,
  get_elem?, take, drop, ltb, leb, ◌==◌, if◌then◌else◌,
}
use ontixa.Source.Span.{Span, make}

pub record LineCol : Type 0 where
  pub line : ℕ
  pub column : ℕ

pub record SourceFile : Type 0 where
  pub id : ℕ
  pub text : List ℕ
  pub line_starts : List ℕ

-- The loop of `SourceFile::new` from byte `idx` on.
unfoldable pub starts_from : ℕ → List ℕ → List ℕ
starts_from idx [] = []
starts_from idx (b ∷ bs) =
    let rest = starts_from (suc idx) bs in if b == 10 then suc idx ∷ rest else rest

unfoldable pub new : ℕ → List ℕ → SourceFile
unfolding starts_from
new id text = record { id = id; text = text; line_starts = 0 ∷ starts_from 0 text }

-- `Result` of `binary_search`: the place of the value, or the place where it belongs.
pub data SearchResult : Type 0 where
  found missing : ℕ → SearchResult

abbrev pub next_result : SearchResult → SearchResult
next_result (found i) = found (suc i)
next_result (missing i) = missing (suc i)

-- `binary_search`, on a list that is sorted.
unfoldable pub binary_search : ℕ → List ℕ → SearchResult
binary_search x [] = missing 0
binary_search x (y ∷ ys) =
    let rest = binary_search x ys in
    if y == x then found 0 else (if ltb x y then missing 0 else next_result rest)

abbrev pub line_idx : SearchResult → ℕ
line_idx (found i) = i
line_idx (missing i) = i - 1

unfoldable pub is_continuation : ℕ → Bool
is_continuation b = leb 128 b && ltb b 192

-- `is_char_boundary`
unfoldable pub is_boundary : List ℕ → ℕ → Bool
unfolding is_continuation
is_boundary text i =
    i == 0 || elim (get_elem? text i) [ none ↦ i == length text | some b ↦ not (is_continuation b) ]

-- `str::get` on a range.
unfoldable pub get_range : List ℕ → ℕ → ℕ → Option (List ℕ)
unfolding is_boundary
get_range text start end =
    if leb start end && (leb end (length text) && (is_boundary text start && is_boundary text end))
    then some (take (end - start) (drop start text))
    else none

-- `chars().count()`
unfoldable pub count_chars : List ℕ → ℕ
unfolding is_continuation
count_chars [] = 0
count_chars (b ∷ bs) = if is_continuation b then count_chars bs else suc (count_chars bs)

-- `map_or(0, ..)`
abbrev pub chars_or_zero : Option (List ℕ) → ℕ
chars_or_zero none = 0
chars_or_zero (some s) = count_chars s

-- `Ord::clamp`, which asserts that the bounds are in order.
unfoldable pub clamp : ℕ → ℕ → ℕ → Option ℕ
clamp x lo hi =
    if leb lo hi then some (if ltb x lo then lo else (if ltb hi x then hi else x)) else none

abbrev pub or_length : Option ℕ → List ℕ → ℕ
or_length none text = length text
or_length (some e) text = e

unfoldable pub slice : SourceFile → Span → Option (List ℕ)
unfolding get_range
slice file span = get_range file.text span.start span.end

unfoldable pub line_col : SourceFile → ℕ → Option LineCol
unfolding binary_search clamp get_range count_chars
line_col file offset =
    let i = line_idx (binary_search offset file.line_starts) in
    elim (get_elem? file.line_starts i) [
      | none ↦ none
      | some start ↦
          elim (clamp offset start (or_length (get_elem? file.line_starts (suc i)) file.text)) [
            | none ↦ none
            | some clamped ↦ some (record {
              line = suc i;
              column = suc (chars_or_zero (get_range file.text start clamped));
            })
          ]
    ]

unfoldable pub start_line_col : SourceFile → Span → Option LineCol
unfolding line_col
start_line_col file span = line_col file span.start

unfoldable pub is_byte : Option ℕ → ℕ → Bool
is_byte none c = false
is_byte (some b) c = b == c

-- The test before an `end -= 1`.
unfoldable pub ends_with : List ℕ → ℕ → ℕ → ℕ → Bool
unfolding is_byte
ends_with text start end c = ltb start end && is_byte (get_elem? text (end - 1)) c

-- The newline and a `\r` before it do not belong to the line.
unfoldable pub strip : List ℕ → ℕ → ℕ → ℕ
unfolding ends_with
strip text start end =
    if ends_with text start end 10
    then (if ends_with text start (end - 1) 13 then end - 2 else end - 1)
    else end

-- `none` also where the line starts out of the index, which the guard excludes, or where `Span::new`
-- would panic.
unfoldable pub line_span : SourceFile → ℕ → Option Span
unfolding strip make
line_span file zero = none
line_span file (suc i) = elim (get_elem? file.line_starts i) [
  | none ↦ none
  | some start ↦
      make start (strip file.text start (or_length (get_elem? file.line_starts (suc i)) file.text))
]

unfoldable pub line_text : SourceFile → ℕ → Option (List ℕ)
unfolding line_span slice
line_text file line = elim (line_span file line) [ none ↦ none | some span ↦ slice file span ]

unfoldable pub line_count : SourceFile → ℕ
line_count file = length file.line_starts
