-- ===== src/Types/Check/State.antt =====
-- The state of the type checker and its monad: `Checker`, `set_ty`, `unify` and the reports of
-- crates/ontixa-types/src/check.rs.
-- `TypeTables` are the fields `types`, `local_types` and `slots`. The checker fills in the field index
-- of a `Field` node, or makes it a `Len` node: `resolved` has what it wrote. A diagnostic is its code
-- and its span; `UnreachableArm` is the one warning, all else is an error. A panic sets `panicked`, and
-- what follows in the model does not count.
use ontixa.Prelude.{ℕ, Bool, true, List, [], ◌∷◌, ◌++◌, Option, some, if◌then◌else◌}
use ontixa.Source.Span.{Span}
use ontixa.Types.Ty.{Ty, same_ty, compatible}
use ontixa.Memory.Facts.{update}

pub data Code : Type 0 where
  type_mismatch missing_return cannot_infer internal unsupported_operation unknown_field : Code
  not_a_struct literal_overflow arg_count duplicate_field missing_field non_exhaustive : Code
  unreachable_arm : Code

pub record Diagnostic : Type 0 where
  pub code : Code
  pub primary : Span

pub data Resolution : Type 0 where
  is_len_node : Resolution
  field_at : Option ℕ → Resolution

pub record Checker : Type 0 where
  pub locals : ℕ → Option Ty
  pub types : ℕ → Ty
  pub local_types : ℕ → Option Ty
  pub slots : ℕ → Option (List ℕ)
  pub resolved : ℕ → Option Resolution
  pub diags : List Diagnostic
  pub panicked : Bool

abbrev pub M : Type 0 → Type 0
M A = Checker → A × Checker

infixl 5 ◌>>=◌ ◌>>◌
unfoldable pub ◌>>=◌ : {A B : Type 0} → M A → (A → M B) → M B
(m >>= k) s = let (a, t) = m s in k a t

unfoldable pub ◌>>◌ : {A B : Type 0} → M A → M B → M B
(m >> n) s = let (a, t) = m s in n t

unfoldable pub pure : {A : Type 0} → A → M A
pure a s = (a, s)

-- `diags.push`
unfoldable pub report : Code → Span → M (Unit {0})
report code at s = (tt, record s { diags = s.diags ++ record { code = code; primary = at } ∷ [] })

-- A failed `expect` or an index out of range; the value does not matter.
unfoldable pub crash : {A : Type 0} → A → M A
crash a s = (a, record s { panicked = true })

unfoldable pub set_ty : ℕ → Ty → M Ty
set_ty id ty s = (ty, record s { types = update s.types id ty })

unfoldable pub get_local : ℕ → M (Option Ty)
get_local sym s = (s.locals sym, s)

unfoldable pub get_types : M (ℕ → Ty)
get_types s = (s.types, s)

-- `locals.insert` and `local_types.insert`
unfoldable pub bind_local : ℕ → Ty → M (Unit {0})
bind_local sym ty s = (
  tt,
  record s {
    locals = update s.locals sym (some ty);
    local_types = update s.local_types sym (some ty);
  },
)

unfoldable pub resolve_node : ℕ → Resolution → M (Unit {0})
resolve_node id r s = (tt, record s { resolved = update s.resolved id (some r) })

unfoldable pub set_slots : ℕ → List ℕ → M (Unit {0})
set_slots id slots s = (tt, record s { slots = update s.slots id (some slots) })

-- A report with `Ty::Poison` as the result.
unfoldable pub fail : Code → Span → M Ty
unfolding ◌>>◌ report pure
fail code at = report code at >> pure Ty.poison

unfoldable pub unify : Ty → Ty → Span → M Ty
unfolding same_ty compatible pure fail
unify actual expected at =
    if compatible expected actual
    then pure (if same_ty expected Ty.poison then actual else expected)
    else fail type_mismatch at
