-- ===== src/Interp/Exec/Read.antt =====
-- Reading places and operands, and the values that need no call: `cell`, `operand`, `int_operand` and
-- parts of `rvalue` of crates/ontixa-interpreter/src/interp.rs.
use ontixa.Prelude.{
  ℕ, zero, suc, ◌-◌, ◌||◌, List, [], ◌∷◌, Option, none, some, length, get_elem?, set, take, drop,
  ltb, if◌then◌else◌,
}
use ontixa.Prelude.Int.{ℤ, pos, negsuc}
use ontixa.Mir.{Place, Const, Operand, const, place}
use ontixa.Interp.Value.{
  Floats, Value, M, ◌>>=◌, pure, fail, get_or_fail, each, load, alloc, deep_clone, int, str, bool,
  struct, variant, array, hole, bad_local, moved_projection, non_struct_projection, bad_field,
  hole_read, non_integer_bound, bad_len, bad_index, out_of_bounds, bad_slice, slice_bounds,
  struct_field_index, payload_index, payload_of_non_variant,
}

module _ (F : Floats) where
  -- The cell after one projection.
  unfoldable pub project : ℕ → ℕ → M F ℕ
  unfolding load
  project c f = do
    v ← load F c
    elim v [
      | hole ↦ fail moved_projection
      | struct d fields ↦ get_or_fail bad_field (get_elem? fields f)
      | _ ↦ fail non_struct_projection
    ]

  unfoldable pub project_all : ℕ → List ℕ → M F ℕ
  unfolding project
  project_all c [] = pure c
  project_all c (f ∷ fs) = do c' ← project c f; project_all c' fs

  unfoldable pub cell : List ℕ → Place → M F ℕ
  unfolding project_all
  cell locals p = do c ← get_or_fail bad_local (get_elem? locals p.local); project_all c p.proj

  unfoldable pub constant : Const F.Float → Value F
  constant (Const.int z) = int z
  constant (Const.float x) = Value.float x
  constant (Const.str s) = str s
  constant (Const.char c) = Value.char c
  constant (Const.bool b) = bool b
  constant Const.unit = Value.unit

  unfoldable pub not_hole : Value F → M F (Value F)
  not_hole hole = fail hole_read
  not_hole v = pure v

  unfoldable pub operand : List ℕ → Operand F.Float → M F (Value F)
  unfolding constant cell load not_hole
  operand locals (const c) = pure (constant c)
  operand locals (place p) = do c ← cell locals p; v ← load F c; not_hole v

  unfoldable pub int_operand : List ℕ → Operand F.Float → M F ℤ
  unfolding operand
  int_operand locals op = do
    v ← operand locals op
    elim v [ int i ↦ pure i | _ ↦ fail non_integer_bound ]

  -- `i < 0 || i >= len`, and the element otherwise.
  unfoldable pub element : {A : Type 0} → List A → ℤ → M F A
  element xs (pos i) = get_or_fail out_of_bounds (get_elem? xs i)
  element xs (negsuc i) = fail out_of_bounds

  unfoldable pub index_value : Value F → Value F → M F (Value F)
  unfolding element load
  index_value (str s) (int i) = do c ← element s i; pure (str (c ∷ []))
  index_value (array elems) (int i) = do c ← element elems i; load F c
  index_value _ _ = fail bad_index

  -- A bound that is left out has a default.
  unfoldable pub bound : List ℕ → Option (Operand F.Float) → ℤ → M F ℤ
  unfolding int_operand
  bound locals none default = pure default
  bound locals (some op) default = int_operand locals op

  -- `lo < 0 || hi < lo || hi > len` traps; otherwise the elements from `lo` up to `hi`.
  unfoldable pub slice_list : {A : Type 0} → List A → ℤ → ℤ → M F (List A)
  slice_list xs (pos lo) (pos hi) =
      if ltb hi lo || ltb (length xs) hi
      then fail slice_bounds
      else pure (take (hi - lo) (drop lo xs))
  slice_list xs _ _ = fail slice_bounds

  -- `Rc::new(RefCell::new(c.borrow().clone()))`
  unfoldable pub copy_cell : ℕ → M F ℕ
  unfolding load alloc
  copy_cell c = do v ← load F c; alloc F v

  unfoldable pub slice_value :
      List ℕ → Value F → Option (Operand F.Float) → Option (Operand F.Float) → M F (Value F)
  unfolding bound slice_list copy_cell each
  slice_value locals (str s) lo hi = do
    l ← bound locals lo (pos 0)
    h ← bound locals hi (pos (length s))
    out ← slice_list s l h
    pure (str out)
  slice_value locals (array elems) lo hi = do
    l ← bound locals lo (pos 0)
    h ← bound locals hi (pos (length elems))
    cells ← slice_list elems l h
    fresh ← each copy_cell cells
    pure (array fresh)
  slice_value locals _ lo hi = fail bad_slice

  -- An operand in a new cell.
  unfoldable pub operand_cell : List ℕ → Operand F.Float → M F ℕ
  unfolding operand alloc
  operand_cell locals op = do v ← operand locals op; alloc F v

  -- `(0..n).map(..Hole..)`
  unfoldable pub holes : ℕ → M F (List ℕ)
  unfolding alloc
  holes zero = pure []
  holes (suc n) = do c ← alloc F hole; cs ← holes n; pure (c ∷ cs)

  -- The loop over the fields of a struct literal.
  unfoldable pub fill : List ℕ → List (ℕ × Operand F.Float) → List ℕ → M F (List ℕ)
  unfolding operand alloc
  fill locals [] cells = pure cells
  fill locals ((idx, op) ∷ fields) cells = do
    v ← operand locals op
    slot ← get_or_fail struct_field_index (get_elem? cells idx)
    c ← alloc F v
    fill locals fields (set cells idx c)

  unfoldable pub payload_value : ℕ → Value F → ℕ → M F (Value F)
  unfolding load deep_clone
  payload_value fuel (variant d tag payload) index = do
    c ← get_or_fail payload_index (get_elem? payload index)
    v ← load F c
    deep_clone F fuel v
  payload_value fuel _ index = fail payload_of_non_variant

  unfoldable pub length_value : Value F → M F (Value F)
  length_value (str s) = pure (int (pos (length s)))
  length_value (array elems) = pure (int (pos (length elems)))
  length_value _ = fail bad_len
