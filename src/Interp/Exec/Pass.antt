-- ===== src/Interp/Exec/Pass.antt =====
-- Passing arguments under a contract, and the checks after the call: the `Call` case of `rvalue` in
-- crates/ontixa-interpreter/src/interp.rs.
use ontixa.Prelude.{ℕ, Bool, true, false, List, [], ◌∷◌, ◌++◌}
use ontixa.Mir.{Place, Operand, ParamBehavior, place}
use ontixa.Interp.Value.{
  Floats, Value, M, ◌>>=◌, ◌>>◌, pure, fail, load, store, alloc, deep_clone, deep_eq, hole,
  moved_argument, contract_violated,
}
use ontixa.Interp.Exec.Read.{cell, operand_cell}

module _ (F : Floats) where
  -- How one argument is passed: the cell for the callee, the shared cell with its snapshot, the
  -- consumed cell.
  pub record Passed : Type 0 where
    pub cell : ℕ
    pub shared : List (ℕ × Value F)
    pub consumed : List ℕ

  unfoldable pub lend : ℕ → List ℕ → Place → M F Passed
  unfolding cell load deep_clone
  lend fuel locals p = do
    c ← cell F locals p
    v ← load F c
    before ← deep_clone F fuel v
    pure (record { cell = c; shared = (c, before) ∷ []; consumed = [] })

  unfoldable pub lend_mut : List ℕ → Place → M F Passed
  unfolding cell
  lend_mut locals p = do c ← cell F locals p; pure (record { cell = c; shared = []; consumed = [] })

  unfoldable pub still_owned : Value F → M F (Value F)
  still_owned hole = fail moved_argument
  still_owned v = pure v

  unfoldable pub give : List ℕ → Place → M F Passed
  unfolding cell load still_owned alloc
  give locals p = do
    c ← cell F locals p
    v ← load F c
    w ← still_owned v
    fresh ← alloc F w
    pure (record { cell = fresh; shared = []; consumed = c ∷ [] })

  unfoldable pub by_value : List ℕ → Operand F.Float → M F Passed
  unfolding operand_cell
  by_value locals op = do
    c ← operand_cell F locals op
    pure (record { cell = c; shared = []; consumed = [] })

  unfoldable pub pass : ℕ → List ℕ → ParamBehavior → Operand F.Float → M F Passed
  unfolding lend lend_mut give by_value
  pass fuel locals ParamBehavior.borrow (place p) = lend fuel locals p
  pass fuel locals ParamBehavior.borrow_mut (place p) = lend_mut locals p
  pass fuel locals ParamBehavior.move (place p) = give locals p
  pass fuel locals ParamBehavior.escape (place p) = give locals p
  pass fuel locals ParamBehavior.unknown (place p) = give locals p
  pass fuel locals _ op = by_value locals op

  -- The loop over the arguments. A contract that is too short reads as `Unknown`.
  unfoldable pub pass_all :
      ℕ → List ℕ → List ParamBehavior → List (Operand F.Float) → M F (List Passed)
  unfolding pass
  pass_all fuel locals contract [] = pure []
  pass_all fuel locals [] (op ∷ ops) = do
    x ← pass fuel locals ParamBehavior.unknown op
    xs ← pass_all fuel locals [] ops
    pure (x ∷ xs)
  pass_all fuel locals (b ∷ bs) (op ∷ ops) = do
    x ← pass fuel locals b op
    xs ← pass_all fuel locals bs ops
    pure (x ∷ xs)

  unfoldable pub all_consumed : List Passed → List ℕ
  all_consumed [] = []
  all_consumed (x ∷ xs) = x.consumed ++ all_consumed xs

  unfoldable pub all_shared : List Passed → List (ℕ × Value F)
  all_shared [] = []
  all_shared (x ∷ xs) = x.shared ++ all_shared xs

  -- `for c in consumed { *c = Hole }`
  unfoldable pub poison : List ℕ → M F (Unit {0})
  unfolding store
  poison [] = pure tt
  poison (c ∷ cs) = do store F c hole; poison cs

  unfoldable pub require : Bool → M F (Unit {0})
  require true = pure tt
  require false = fail contract_violated

  -- The oracle: a shared cell holds what it held before the call.
  unfoldable pub check_shared : ℕ → List (ℕ × Value F) → M F (Unit {0})
  unfolding load deep_eq require
  check_shared fuel [] = pure tt
  check_shared fuel ((c, before) ∷ rest) = do
    now ← load F c
    same ← deep_eq F fuel now before
    require same
    check_shared fuel rest
