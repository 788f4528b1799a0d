-- ===== src/Interp/Value.antt =====
-- Values and storage: crates/ontixa-interpreter/src/value.rs. A `Cell` is the address of a value in
-- the heap, so that a cell that two places share is one address. Cells are never freed.
use ontixa.Prelude.{
  ℕ, zero, suc, Bool, true, false, ◌&&◌, List, [], ◌∷◌, ◌++◌, Option, none, some, length, get_elem?,
  set, ◌==◌, if◌then◌else◌,
}
use ontixa.Prelude.Int.{ℤ}
use ontixa.Syntax.Kinds.{bytes_eq}

-- `f64` with the operations that the interpreter uses, as an interface. Tests may fail on NaN.
pub record Floats : Type 1 where
  pub Float : Type 0
  pub neg : Float → Float
  pub add : Float → Float → Float
  pub sub : Float → Float → Float
  pub mul : Float → Float → Float
  pub div : Float → Float → Float
  pub rem : Float → Float → Float
  pub eq : Float → Float → Bool
  pub lt : Float → Float → Bool
  pub le : Float → Float → Bool

-- The reasons of a `RuntimeError::Trap`.
pub data Trap : Type 0 where
  no_body arg_count bad_block non_bool_branch non_variant_match non_exhaustive : Trap
  bad_local moved_projection non_struct_projection bad_field hole_read non_integer_bound : Trap
  bad_unary bad_binary division_by_zero remainder_by_zero bad_len bad_index out_of_bounds : Trap
  bad_slice slice_bounds struct_field_index payload_index payload_of_non_variant : Trap
  moved_argument contract_violated : Trap

module _ (F : Floats) where
  pub data Value : Type 0 where
    int : ℤ → Value
    float : F.Float → Value
    str : List ℕ → Value
    char : ℕ → Value
    bool : Bool → Value
    unit : Value
    struct : ℕ → List ℕ → Value
    variant : ℕ → ℕ → List ℕ → Value
    array : List ℕ → Value
    hole : Value

  abbrev pub Heap : Type 0
  Heap = List Value

-- How an evaluation ends: with a value and the heap, by a trap, by a Rust panic (arithmetic beyond
-- `i128`, with overflow checks on), or out of fuel.
pub data Outcome (H A : Type 0) : Type 0 where
  done : A → H → Outcome H A
  trap : Trap → Outcome H A
  panic : Outcome H A
  starved : Outcome H A

abbrev pub M : Floats → Type 0 → Type 0
M F A = Heap F → Outcome (Heap F) A

infixl 5 ◌>>=◌ ◌>>◌
abbrev pub ◌>>=◌ : {H A B : Type 0} → (H → Outcome H A) → (A → H → Outcome H B) → H → Outcome H B
◌>>=◌ m f h = elim (m h) [
  | done a h' ↦ f a h'
  | trap t ↦ trap t
  | panic ↦ panic
  | starved ↦ starved
]

abbrev pub ◌>>◌ : {H B : Type 0} → (H → Outcome H (Unit {0})) → (H → Outcome H B) → H → Outcome H B
m >> k = m >>= λ _. k

abbrev pub pure : {H A : Type 0} → A → H → Outcome H A
pure a h = done a h

abbrev pub starve : {H A : Type 0} → H → Outcome H A
starve h = starved

abbrev pub fail : {H A : Type 0} → Trap → H → Outcome H A
fail t h = trap t

-- `ok_or_else`
abbrev pub get_or_fail : {H A : Type 0} → Trap → Option A → H → Outcome H A
get_or_fail t none h = trap t
get_or_fail t (some a) h = done a h

-- `for x in xs { out.push(f(x)?) }`
unfoldable pub each : {H A B : Type 0} → (A → H → Outcome H B) → List A → H → Outcome H (List B)
each f [] = pure []
each f (x ∷ xs) = do y ← f x; ys ← each f xs; pure (y ∷ ys)

module _ (F : Floats) where
  -- `c.borrow()`. A cell is alive as long as it is named; an address that is not in the heap reads
  -- as a hole.
  unfoldable pub load : ℕ → M F (Value F)
  load c h = elim (get_elem? h c) [ none ↦ done hole h | some v ↦ done v h ]

  -- `*c.borrow_mut() = v`
  unfoldable pub store : ℕ → Value F → M F (Unit {0})
  store c v h = done tt (set h c v)

  -- `Rc::new(RefCell::new(v))`
  unfoldable pub alloc : Value F → M F ℕ
  alloc v h = done (length h) (h ++ v ∷ [])

  -- A value graph may be deep, so the copy and the comparison take fuel.
  unfoldable pub clone_cell : (Value F → M F (Value F)) → ℕ → M F ℕ
  unfolding load alloc
  clone_cell clone c = do v ← load c; v' ← clone v; alloc v'

  unfoldable pub deep_clone : ℕ → Value F → M F (Value F)
  unfolding clone_cell each
  deep_clone zero v = starve
  deep_clone (suc n) (struct d cells) = do
    cells' ← each (clone_cell (deep_clone n)) cells
    pure (struct d cells')
  deep_clone (suc n) (variant d tag payload) = do
    payload' ← each (clone_cell (deep_clone n)) payload
    pure (variant d tag payload')
  deep_clone (suc n) (array elems) = do
    elems' ← each (clone_cell (deep_clone n)) elems
    pure (array elems')
  deep_clone (suc n) v = pure v

  unfoldable pub bool_eq : Bool → Bool → Bool
  bool_eq true b = b
  bool_eq false b = if b then false else true

  unfoldable pub int_eq : ℤ → ℤ → Bool
  int_eq (ℤ.pos a) (ℤ.pos b) = a == b
  int_eq (ℤ.negsuc a) (ℤ.negsuc b) = a == b
  int_eq _ _ = false

  unfoldable pub values_eq : Value F → Value F → Bool
  unfolding int_eq bool_eq
  values_eq (int x) (int y) = int_eq x y
  values_eq (float x) (float y) = F.eq x y
  values_eq (str x) (str y) = bytes_eq x y
  values_eq (char x) (char y) = x == y
  values_eq (bool x) (bool y) = bool_eq x y
  values_eq unit unit = true
  values_eq _ _ = false

  -- `x.iter().zip(y.iter()).all(..)` behind the test of the lengths.
  unfoldable pub all_eq : (Value F → Value F → M F Bool) → List ℕ → List ℕ → M F Bool
  unfolding load
  all_eq eq (c ∷ cs) (d ∷ ds) = do
    x ← load c
    y ← load d
    b ← eq x y
    elim b [ true ↦ all_eq eq cs ds | false ↦ pure false ]
  all_eq eq _ _ = pure true

  unfoldable pub cells_eq : (Value F → Value F → M F Bool) → List ℕ → List ℕ → M F Bool
  unfolding all_eq
  cells_eq eq cs ds = if length cs == length ds then all_eq eq cs ds else pure false

  unfoldable pub deep_eq : ℕ → Value F → Value F → M F Bool
  unfolding cells_eq values_eq
  deep_eq zero a b = starve
  deep_eq (suc n) (struct da fa) (struct db fb) =
      if da == db then cells_eq (deep_eq n) fa fb else pure false
  deep_eq (suc n) (array ea) (array eb) = cells_eq (deep_eq n) ea eb
  deep_eq (suc n) (variant da ta pa) (variant db tb pb) =
      if da == db && ta == tb then cells_eq (deep_eq n) pa pb else pure false
  deep_eq (suc n) a b = pure (values_eq a b)
