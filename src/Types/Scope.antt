-- ===== src/Types/Scope.antt =====
-- What the type checker reads of a workspace: the definitions of `ModuleScope`, and the interner, with `DefKind`,
-- `DataShape`, `VariantDef` and `FieldDef` of crates/ontixa-hir/src/hir.rs. The symbols of fields and
-- variants, which only name them in messages, are left out.
use ontixa.Prelude.{ℕ, Bool, true, false, List, [], ◌∷◌, Option, none, some, get_elem?}
use ontixa.Source.Interner.{Interner, resolve}
use ontixa.Syntax.Kinds.{bytes_eq}
use ontixa.Types.Ty.{TypeRef}
use ontixa.Hir.{FnSig}

pub record FieldDef : Type 0 where
  pub ty : TypeRef
  pub index : ℕ

pub record VariantDef : Type 0 where
  pub payload : List TypeRef
  pub index : ℕ

pub record DataShape : Type 0 where
  pub fields : List FieldDef
  pub field_index : ℕ → Option ℕ
  pub variants : List VariantDef

pub data DefKind : Type 0 where
  function : FnSig → DefKind
  data_def : DataShape → DefKind

pub record ModuleScope : Type 0 where
  pub defs : List DefKind
  pub interner : Interner

unfoldable pub is_enum : DataShape → Bool
is_enum s = elim s.variants [ [] ↦ false | v ∷ vs ↦ true ]

abbrev as_function : Option DefKind → Option FnSig
as_function (some (function s)) = some s
as_function (some (data_def s)) = none
as_function none = none

abbrev as_data : Option DefKind → Option DataShape
as_data (some (function s)) = none
as_data (some (data_def s)) = some s
as_data none = none

-- `ModuleScope::fn_sig`. An id out of range, a panic in the code, has no signature either: every caller
-- panics at `none`.
unfoldable pub scope_sig : ModuleScope → ℕ → Option FnSig
scope_sig m d = as_function (get_elem? m.defs d)

-- `ModuleScope::data_shape`
unfoldable pub data_shape : ModuleScope → ℕ → Option DataShape
data_shape m d = as_data (get_elem? m.defs d)

-- `interner.resolve(name) == "len"`. An id that the interner did not give, a panic in the code, is
-- another name.
unfoldable pub is_len : ModuleScope → ℕ → Bool
unfolding resolve
is_len m name = elim (resolve name m.interner) [
  | none ↦ false
  | some text ↦ bytes_eq text (b'l' ∷ b'e' ∷ b'n' ∷ [])
]
