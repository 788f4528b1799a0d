-- ===== src/Types/Ty.antt =====
-- Semantic types: crates/ontixa-types/src/ty.rs, with the resolved references `TypeRef` and `ElemRef`
-- of crates/ontixa-hir/src/hir.rs.
use native.Mathlib.Decide.{ℕ_discrete}
use ontixa.Prelude.{ℕ, Bool, true, false, ◌||◌, Option, none, some}

pub data ElemRef : Type 0 where
  bool i8 i16 i32 i64 isize u8 u16 u32 u64 usize f32 f64 str char : ElemRef
  struct : ℕ → ElemRef

pub data ElemTy : Type 0 where
  bool i8 i16 i32 i64 isize u8 u16 u32 u64 usize f32 f64 str char : ElemTy
  struct : ℕ → ElemTy

pub data TypeRef : Type 0 where
  bool i8 i16 i32 i64 isize u8 u16 u32 u64 usize f32 f64 str char unit poison : TypeRef
  struct : ℕ → TypeRef
  array : ElemRef → TypeRef

pub data Ty : Type 0 where
  bool i8 i16 i32 i64 isize u8 u16 u32 u64 usize f32 f64 str char unit poison : Ty
  struct : ℕ → Ty
  array : ElemTy → Ty

unfoldable pub ElemTy-discrete : Discrete ElemTy
ElemTy-discrete = hlevel ℕ_discrete

unfoldable pub Ty-discrete : Discrete Ty
Ty-discrete = hlevel (ℕ_discrete, ElemTy-discrete)

-- `ElemTy::ty`
unfoldable pub ty : ElemTy → Ty
ty ElemTy.bool = Ty.bool
ty ElemTy.i8 = Ty.i8
ty ElemTy.i16 = Ty.i16
ty ElemTy.i32 = Ty.i32
ty ElemTy.i64 = Ty.i64
ty ElemTy.isize = Ty.isize
ty ElemTy.u8 = Ty.u8
ty ElemTy.u16 = Ty.u16
ty ElemTy.u32 = Ty.u32
ty ElemTy.u64 = Ty.u64
ty ElemTy.usize = Ty.usize
ty ElemTy.f32 = Ty.f32
ty ElemTy.f64 = Ty.f64
ty ElemTy.str = Ty.str
ty ElemTy.char = Ty.char
ty (ElemTy.struct d) = Ty.struct d

-- `ElemTy::from_ref`
unfoldable pub elem_from_ref : ElemRef → ElemTy
elem_from_ref ElemRef.bool = ElemTy.bool
elem_from_ref ElemRef.i8 = ElemTy.i8
elem_from_ref ElemRef.i16 = ElemTy.i16
elem_from_ref ElemRef.i32 = ElemTy.i32
elem_from_ref ElemRef.i64 = ElemTy.i64
elem_from_ref ElemRef.isize = ElemTy.isize
elem_from_ref ElemRef.u8 = ElemTy.u8
elem_from_ref ElemRef.u16 = ElemTy.u16
elem_from_ref ElemRef.u32 = ElemTy.u32
elem_from_ref ElemRef.u64 = ElemTy.u64
elem_from_ref ElemRef.usize = ElemTy.usize
elem_from_ref ElemRef.f32 = ElemTy.f32
elem_from_ref ElemRef.f64 = ElemTy.f64
elem_from_ref ElemRef.str = ElemTy.str
elem_from_ref ElemRef.char = ElemTy.char
elem_from_ref (ElemRef.struct d) = ElemTy.struct d

-- `Ty::from_ref`
unfoldable pub from_ref : TypeRef → Ty
unfolding elem_from_ref
from_ref TypeRef.bool = Ty.bool
from_ref TypeRef.i8 = Ty.i8
from_ref TypeRef.i16 = Ty.i16
from_ref TypeRef.i32 = Ty.i32
from_ref TypeRef.i64 = Ty.i64
from_ref TypeRef.isize = Ty.isize
from_ref TypeRef.u8 = Ty.u8
from_ref TypeRef.u16 = Ty.u16
from_ref TypeRef.u32 = Ty.u32
from_ref TypeRef.u64 = Ty.u64
from_ref TypeRef.usize = Ty.usize
from_ref TypeRef.f32 = Ty.f32
from_ref TypeRef.f64 = Ty.f64
from_ref TypeRef.str = Ty.str
from_ref TypeRef.char = Ty.char
from_ref (TypeRef.struct d) = Ty.struct d
from_ref TypeRef.unit = Ty.unit
from_ref TypeRef.poison = Ty.poison
from_ref (TypeRef.array e) = Ty.array (elem_from_ref e)

unfoldable pub elem : Ty → Option ElemTy
elem Ty.bool = some ElemTy.bool
elem Ty.i8 = some ElemTy.i8
elem Ty.i16 = some ElemTy.i16
elem Ty.i32 = some ElemTy.i32
elem Ty.i64 = some ElemTy.i64
elem Ty.isize = some ElemTy.isize
elem Ty.u8 = some ElemTy.u8
elem Ty.u16 = some ElemTy.u16
elem Ty.u32 = some ElemTy.u32
elem Ty.u64 = some ElemTy.u64
elem Ty.usize = some ElemTy.usize
elem Ty.f32 = some ElemTy.f32
elem Ty.f64 = some ElemTy.f64
elem Ty.str = some ElemTy.str
elem Ty.char = some ElemTy.char
elem (Ty.struct d) = some (ElemTy.struct d)
elem Ty.unit = none
elem (Ty.array e) = none
elem Ty.poison = none

unfoldable pub is_integer : Ty → Bool
is_integer Ty.i8 = true
is_integer Ty.i16 = true
is_integer Ty.i32 = true
is_integer Ty.i64 = true
is_integer Ty.isize = true
is_integer Ty.u8 = true
is_integer Ty.u16 = true
is_integer Ty.u32 = true
is_integer Ty.u64 = true
is_integer Ty.usize = true
is_integer _ = false

unfoldable pub is_numeric : Ty → Bool
unfolding is_integer
is_numeric Ty.f32 = true
is_numeric Ty.f64 = true
is_numeric t = is_integer t

unfoldable pub is_copy : Ty → Bool
is_copy (Ty.struct d) = false
is_copy (Ty.array e) = false
is_copy Ty.poison = false
is_copy _ = true

-- `==` of `#[derive(PartialEq)]`
unfoldable pub same_ty : Ty → Ty → Bool
same_ty s t = elim (Ty-discrete s t) [ yes p ↦ true | no p ↦ false ]

unfoldable pub compatible : Ty → Ty → Bool
unfolding same_ty
compatible s t = same_ty s Ty.poison || same_ty t Ty.poison || same_ty s t

-- `ElemRef::of`
unfoldable pub elem_ref : TypeRef → Option ElemRef
elem_ref TypeRef.bool = some ElemRef.bool
elem_ref TypeRef.i8 = some ElemRef.i8
elem_ref TypeRef.i16 = some ElemRef.i16
elem_ref TypeRef.i32 = some ElemRef.i32
elem_ref TypeRef.i64 = some ElemRef.i64
elem_ref TypeRef.isize = some ElemRef.isize
elem_ref TypeRef.u8 = some ElemRef.u8
elem_ref TypeRef.u16 = some ElemRef.u16
elem_ref TypeRef.u32 = some ElemRef.u32
elem_ref TypeRef.u64 = some ElemRef.u64
elem_ref TypeRef.usize = some ElemRef.usize
elem_ref TypeRef.f32 = some ElemRef.f32
elem_ref TypeRef.f64 = some ElemRef.f64
elem_ref TypeRef.str = some ElemRef.str
elem_ref TypeRef.char = some ElemRef.char
elem_ref (TypeRef.struct d) = some (ElemRef.struct d)
elem_ref TypeRef.unit = none
elem_ref (TypeRef.array e) = none
elem_ref TypeRef.poison = none
