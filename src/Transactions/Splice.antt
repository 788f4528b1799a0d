-- ===== src/Transactions/Splice.antt =====
-- The edits of a transaction and their splicing: `PatchEdit`, `check_overlap` and the splice order of
-- `plan_patch` in crates/ontixa-db/src/patch.rs, `splice_sources` of crates/ontixa-db/src/rename.rs.
-- A text is its list of bytes. `replace_range` panics on a range that is not in the text and on one
-- whose ends are not character boundaries, here `none`. The sort is stable, as an insertion sort is.
-- A group of `by_file` is the edits of one file, in order.
use ontixa.Prelude.{
  ℕ, suc, Bool, true, not, ◌&&◌, ◌||◌, List, [], ◌∷◌, ◌++◌, Option, none, some, length, take, drop,
  ltb, leb, ◌==◌, if◌then◌else◌,
}
use ontixa.Source.Span.{Span}
use ontixa.Source.File.{is_boundary}

pub record Edit : Type 0 where
  pub file : ℕ
  pub span : Span
  pub replace : List ℕ
  pub op : ℕ
  pub expected : List ℕ

-- The condition of `check_overlap` for two edits.
unfoldable pub overlap : Edit → Edit → Bool
overlap a b = a.file == b.file && (ltb a.span.start b.span.end && ltb b.span.start a.span.end)

unfoldable pub clear_of : Edit → List Edit → Bool
unfolding overlap
clear_of a [] = true
clear_of a (b ∷ bs) = not (overlap a b) && clear_of a bs

-- Whether `check_overlap` returns `Ok`.
unfoldable pub check_overlap : List Edit → Bool
unfolding clear_of
check_overlap [] = true
check_overlap (e ∷ es) = clear_of e es && check_overlap es

-- The comparison of the splice order says that the first edit does not come after the second.
unfoldable pub splices_first : Edit → Edit → Bool
splices_first a b = ltb b.span.start a.span.start || (a.span.start == b.span.start && leb b.op a.op)

unfoldable pub insert_edit : Edit → List Edit → List Edit
unfolding splices_first
insert_edit a [] = a ∷ []
insert_edit a (b ∷ bs) = if splices_first a b then a ∷ b ∷ bs else b ∷ insert_edit a bs

-- `sort_by`
unfoldable pub splice_order : List Edit → List Edit
unfolding insert_edit
splice_order [] = []
splice_order (e ∷ es) = insert_edit e (splice_order es)

-- `String::replace_range`
unfoldable pub replace_range : List ℕ → Span → List ℕ → Option (List ℕ)
unfolding is_boundary
replace_range text span r =
    if leb span.start span.end
      && (leb span.end (length text) && (is_boundary text span.start && is_boundary text span.end))
    then some (take span.start text ++ (r ++ drop span.end text))
    else none

-- The edits of one file, one after the other.
unfoldable pub splice : List Edit → List ℕ → Option (List ℕ)
unfolding replace_range
splice [] text = some text
splice (e ∷ es) text = elim (replace_range text e.span e.replace) [
  | none ↦ none
  | some text' ↦ splice es text'
]

-- `by_file.entry(e.file)`
unfoldable pub edits_of : ℕ → List Edit → List Edit
edits_of f [] = []
edits_of f (e ∷ es) = if e.file == f then e ∷ edits_of f es else edits_of f es

abbrev pub or_none : Option (List ℕ) → Option (List (ℕ × List ℕ)) → ℕ → Option (List (ℕ × List ℕ))
or_none none rest f = none
or_none (some t) none f = none
or_none (some t) (some rest) f = some ((f, t) ∷ rest)

-- The post-edit texts of the files from the `f`-th on that have edits, in order.
unfoldable pub splice_from : ℕ → List (List ℕ) → List Edit → Option (List (ℕ × List ℕ))
unfolding edits_of splice splice_order
splice_from f [] es = some []
splice_from f (text ∷ texts) es =
    let rest = splice_from (suc f) texts es in
    elim (edits_of f es) [
      | [] ↦ rest
      | e ∷ more ↦ or_none (splice (splice_order (e ∷ more)) text) rest f
    ]

-- `splice_sources` in the order of a patch.
unfoldable pub splice_sources : List (List ℕ) → List Edit → Option (List (ℕ × List ℕ))
unfolding splice_from
splice_sources texts es = splice_from 0 texts es
