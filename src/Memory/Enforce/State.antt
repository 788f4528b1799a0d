-- ===== src/Memory/Enforce/State.antt =====
-- The state of the enforcement walk: `BindingState`, `merge`, `use_var`, `assign_place` and the loans
-- of `Enforcer` in crates/ontixa-memory/src/analyze.rs, with `Loan` of crates/ontixa-memory/src/place.rs.
-- A diagnostic is its code, its primary span and its labels; the texts are left out. The map from
-- symbols is a function.
use ontixa.Prelude.{
  ℕ, Bool, true, false, not, ◌&&◌, ◌||◌, List, [], ◌∷◌, ◌++◌, Option, none, some, if◌then◌else◌,
}
use ontixa.Source.Span.{Span}
use ontixa.Types.Ty.{Ty, is_copy}
use ontixa.Hir.{HirPlace, HirBody, Name, TypeTables}
use ontixa.Memory.Place.{Place, overlaps}
use ontixa.Memory.Facts.{Ctx, update}

pub data Init : Type 0 where
  init maybe_init never : Init

pub data Moved : Type 0 where
  unmoved : Moved
  maybe_moved moved : Span → Moved

pub record BindingState : Type 0 where
  pub init : Init
  pub moved : Moved

abbrev pub live : BindingState
live = record { init = Init.init; moved = unmoved }

abbrev pub blank : BindingState
blank = record { init = never; moved = unmoved }

pub data Code : Type 0 where
  uninitialized use_after_move immutable_assignment mutable_borrow_of_immutable : Code
  borrow_conflict move_while_borrowed : Code

pub record Diagnostic : Type 0 where
  pub code : Code
  pub primary : Span
  pub labels : List Span

pub data LoanKind : Type 0 where
  shared mut : LoanKind

-- `Region::Call`
pub data Region : Type 0 where
  call : ℕ → Region

pub record Loan : Type 0 where
  pub place : Place
  pub kind : LoanKind
  pub at : Span
  pub region : Region

abbrev pub States : Type 0
States = ℕ → Option BindingState

pub record Enforcer : Type 0 where
  pub state : States
  pub loans : List Loan
  pub diags : List Diagnostic

abbrev pub report : Code → Span → List Span → Enforcer → Enforcer
report code at labels s = record s {
  diags = s.diags ++ record { code = code; primary = at; labels = labels } ∷ [];
}

unfoldable pub join_init : Init → Init → Init
join_init Init.init Init.init = Init.init
join_init never never = never
join_init _ _ = maybe_init

unfoldable pub join_moved : Moved → Moved → Moved
join_moved unmoved unmoved = unmoved
join_moved (moved s) (moved t) = moved s
join_moved (maybe_moved s) _ = maybe_moved s
join_moved (moved s) (maybe_moved t) = maybe_moved t
join_moved (moved s) unmoved = maybe_moved s
join_moved unmoved (maybe_moved t) = maybe_moved t
join_moved unmoved (moved t) = maybe_moved t

abbrev pub join_state : BindingState → BindingState → BindingState
join_state a b = record { init = join_init a.init b.init; moved = join_moved a.moved b.moved }

abbrev pub join_entry : Option BindingState → Option BindingState → Option BindingState
join_entry none b = b
join_entry (some a) none = some a
join_entry (some a) (some b) = some (join_state a b)

unfoldable pub merge : States → States → States
unfolding join_init join_moved
merge a b sym = join_entry (a sym) (b sym)

-- `or_insert`
abbrev pub or_blank : Option BindingState → BindingState
or_blank none = blank
or_blank (some b) = b

abbrev pub set_state : ℕ → BindingState → Enforcer → Enforcer
set_state sym b s = record s { state = update s.state sym (some b) }

-- The first report of `use_var`.
unfoldable pub check_init : Init → Span → Enforcer → Enforcer
check_init Init.init at s = s
check_init maybe_init at s = report uninitialized at [] s
check_init never at s = report uninitialized at [] s

-- The second.
unfoldable pub check_moved : Moved → Span → Enforcer → Enforcer
check_moved unmoved at s = s
check_moved (maybe_moved from) at s = report use_after_move at (from ∷ []) s
check_moved (moved from) at s = report use_after_move at (from ∷ []) s

-- A move takes the value.
unfoldable pub taken : Ctx → Bool → Span → BindingState → BindingState
taken Ctx.move false at b = record b { moved = moved at }
taken _ _ at b = b

abbrev pub type_of : Option Ty → Ty
type_of none = Ty.poison
type_of (some t) = t

unfoldable pub starts_shared : LoanKind → Bool
starts_shared shared = true
starts_shared mut = false

-- The first loan that conflicts.
unfoldable pub find_conflict : Place → LoanKind → List Loan → Option Loan
unfolding starts_shared overlaps
find_conflict p kind [] = none
find_conflict p kind (l ∷ ls) =
    if overlaps l.place p && (not (starts_shared l.kind) || not (starts_shared kind))
    then some l
    else find_conflict p kind ls

unfoldable pub add_loan : Place → LoanKind → Region → Enforcer → Enforcer
unfolding find_conflict
add_loan p kind region s = elim (find_conflict p kind s.loans) [
  | some l ↦ report borrow_conflict p.span (l.at ∷ []) s
  | none ↦ record s {
    loans = s.loans ++ record { place = p; kind = kind; at = p.span; region = region } ∷ [];
  }
]

unfoldable pub find_overlap : Place → List Loan → Option Loan
unfolding overlaps
find_overlap p [] = none
find_overlap p (l ∷ ls) = if overlaps l.place p then some l else find_overlap p ls

unfoldable pub check_move_loans : Place → Enforcer → Enforcer
unfolding find_overlap
check_move_loans p s = elim (find_overlap p s.loans) [
  | none ↦ s
  | some l ↦ report move_while_borrowed p.span (l.at ∷ []) s
]

unfoldable pub is_untouched : Init → Moved → Bool
is_untouched never unmoved = true
is_untouched _ _ = false

-- No fields, and a binding that never held a value.
unfoldable pub is_first_init : List Name → BindingState → Bool
unfolding is_untouched
is_first_init [] b = is_untouched b.init b.moved
is_first_init (f ∷ fs) b = false

module _ (tables : TypeTables) (b : HirBody) where
  unfoldable pub use_var : ℕ → Span → Ctx → Enforcer → Enforcer
  unfolding check_init check_moved taken
  use_var sym at ctx s =
      let entry = or_blank (s.state sym) in
      let checked = check_moved entry.moved at (check_init entry.init at s) in
      set_state sym (taken ctx (is_copy (type_of (tables.local_types sym))) at entry) checked

  -- The check of an assignment that needs `mut`.
  unfoldable pub check_assign : HirPlace → Enforcer → Enforcer
  unfolding is_first_init
  check_assign p s =
      let sym = b.symbol p.base in
      if not sym.mutable && not (is_first_init p.fields (or_blank (s.state p.base)))
      then report immutable_assignment p.span (sym.span ∷ []) s
      else s

  -- What the assignment writes.
  unfoldable pub write_place : List Name → ℕ → Span → Enforcer → Enforcer
  unfolding use_var
  write_place [] base at s = set_state base live s
  write_place (f ∷ fs) base at s =
      let used = use_var base at Ctx.read s in
      set_state base (record (or_blank (used.state base)) { init = Init.init }) used

  unfoldable pub assign_place : HirPlace → Enforcer → Enforcer
  unfolding check_assign write_place
  assign_place p s = write_place p.fields p.base p.span (check_assign p s)

  -- The check of a mutable borrow.
  unfoldable pub check_mutable : Place → Enforcer → Enforcer
  check_mutable p s =
      let sym = b.symbol p.base in
      if sym.mutable then s else report mutable_borrow_of_immutable p.span (sym.span ∷ []) s
