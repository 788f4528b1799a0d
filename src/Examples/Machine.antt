-- ===== src/Examples/Machine.antt =====
-- The interpreter on a two-parameter function: crates/ontixa-interpreter/src/interp.rs.
use ontixa.Prelude.{
  ℕ, ◌+◌, ◌==◌, ltb, leb, ◌≡◌, refl, List, [], ◌∷◌, Option, none, some, All, map, get_elem?,
}
use ontixa.Prelude.Int.{pos}
use ontixa.Mir.{
  Operand, MirModule, ParamBehavior, bare, consumes_arg, const, place, Const, Terminator,
}
use ontixa.Interp.Value.{Floats, Value, Heap, M, done, trap, int, hole, hole_read}
use ontixa.Interp.Exec.{Passed, operand, pass_all, all_consumed, all_shared, call_value, call}
use ontixa.Interp.Oracle.{Moved, Unchanged, behavior_at, call_value-contract, call_value-moved}
use ontixa.Interp.Lent.{Reaches, Snapshot, call_value-borrowed}

abbrev whole : Floats
whole = record {
  Float = ℕ;
  neg = λ x. x;
  add = λ x y. x + y;
  sub = λ x y. x;
  mul = λ x y. x;
  div = λ x y. x;
  rem = λ x y. x;
  eq = λ x y. x == y;
  lt = λ x y. ltb x y;
  le = λ x y. leb x y;
}

-- `fn seven(a, b) { 7 }`
abbrev seven : MirModule ℕ
seven = record {
  fns =
      some (record {
        params = 2;
        locals = 2;
        blocks = (record { stmts = []; term = Terminator.return (const (Const.int (pos 7))) }) ∷ [];
      })
      ∷ [];
}

abbrev no_data : ℕ → Option ℕ
no_data d = none

abbrev two_cells : Heap whole
two_cells = int (pos 3) ∷ int (pos 4) ∷ []

abbrev call_seven : ℕ → List ℕ → M whole (Value whole)
call_seven = call whole no_data seven 5

abbrev both : List (Operand ℕ)
both = place (bare 0) ∷ place (bare 1) ∷ []

abbrev lent_and_moved : List ParamBehavior
lent_and_moved = ParamBehavior.borrow ∷ ParamBehavior.move ∷ []

abbrev after_call : Heap whole
after_call = int (pos 3) ∷ hole ∷ int (pos 4) ∷ []

seven_returns :
    call_value whole no_data 5 call_seven (0 ∷ 1 ∷ []) 0 both lent_and_moved two_cells
    ≡ done (int (pos 7)) after_call
unfolding call_value call bare
seven_returns = refl

call_value-contract_example :
    (xs : List (Passed whole)) × (h₁ : Heap whole) × (h₂ : Heap whole) × (pass_all whole 5
        (0 ∷ 1 ∷ [])
        lent_and_moved
        both
        two_cells
      ≡ done xs h₁)
    × (call_seven 0 (map (λ (x : Passed whole). x.cell) xs) h₁ ≡ done (int (pos 7)) h₂)
    × All (Moved whole after_call) (all_consumed whole xs)
    × All (Unchanged whole 5 after_call) (all_shared whole xs)
call_value-contract_example =
    call_value-contract whole no_data 5 call_seven (0 ∷ 1 ∷ []) 0 both lent_and_moved two_cells
      (int (pos 7)) after_call seven_returns

call_value-moved_example : operand whole (0 ∷ 1 ∷ []) (place (bare 1)) after_call ≡ trap hole_read
call_value-moved_example =
    call_value-moved whole no_data 5 call_seven (0 ∷ 1 ∷ []) 0 both lent_and_moved 1 1 two_cells
      (int (pos 7)) after_call seven_returns refl (unfold behavior_at consumes_arg in refl)

call_value-borrowed_example :
    (c : ℕ) × (before : Value whole) × (at_pass : Heap whole) × (get_elem? (0 ∷ 1 ∷ []) 0 ≡ some c)
    × Reaches whole 5 (0 ∷ 1 ∷ []) lent_and_moved both 0 two_cells at_pass
    × Snapshot whole 5 c before at_pass
    × Unchanged whole 5 after_call (c, before)
call_value-borrowed_example =
    call_value-borrowed whole no_data 5 call_seven (0 ∷ 1 ∷ []) 0 both lent_and_moved 0 0 two_cells
      (int (pos 7)) after_call seven_returns refl (unfold behavior_at in refl)
