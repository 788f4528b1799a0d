-- ===== src/Interp/Exec.antt =====
-- MIR execution: crates/ontixa-interpreter/src/interp.rs. The Rust stack and the block loop are
-- recursion on fuel.
mod Read
mod Pass
unfoldable pub use Read.*
unfoldable pub use Pass.*
use ontixa.Prelude.{
  ℕ, zero, suc, ◌-◌, Bool, true, false, ◌||◌, List, [], ◌∷◌, ◌++◌, Option, none, some, length,
  get_elem?, set, take, drop, map, ltb, ◌==◌, if◌then◌else◌,
}
use ontixa.Prelude.Int.{ℤ, pos, negsuc}
use ontixa.Mir.{
  Place, Const, Operand, Rvalue, MirStmt, Terminator, MirBody, MirModule, ParamBehavior, body,
  const, place, assign, eval,
}
use ontixa.Interp.Value.{
  Floats, Value, M, ◌>>=◌, ◌>>◌, pure, fail, starve, get_or_fail, each, load, store, alloc,
  deep_clone, deep_eq, int, str, bool, struct, variant, array, hole, no_body, arg_count, bad_block,
  non_bool_branch, non_variant_match, non_exhaustive, bad_local, moved_projection,
  non_struct_projection, bad_field, hole_read, non_integer_bound, bad_len, bad_index, out_of_bounds,
  bad_slice, slice_bounds, struct_field_index, payload_index, payload_of_non_variant,
  moved_argument, contract_violated,
}
use ontixa.Interp.Arith.{binary, unary}

module _ (F : Floats) where
  -- The rest takes `call`, and the number of fields of each `data` definition, `none` for unknown.
  module _ (shape : ℕ → Option ℕ) (fuel : ℕ) (call : ℕ → List ℕ → M F (Value F)) where
    unfoldable pub call_value :
        List ℕ → ℕ → List (Operand F.Float) → List ParamBehavior → M F (Value F)
    unfolding pass_all all_consumed all_shared poison check_shared
    call_value locals def args contract = do
      passed ← pass_all F fuel locals contract args
      v ← call def (map (λ (x : Passed F). x.cell) passed)
      poison F (all_consumed F passed)
      check_shared F fuel (all_shared F passed)
      pure v

    unfoldable pub rvalue : List ℕ → Rvalue F.Float → M F (Value F)
    unfolding operand operand_cell index_value slice_value holes fill payload_value length_value
        call_value each binary unary deep_clone
    rvalue locals (Rvalue.use_of op) = operand F locals op
    rvalue locals (Rvalue.unary op a) = do v ← operand F locals a; unary F op v
    rvalue locals (Rvalue.binary op a b) = do
      l ← operand F locals a
      r ← operand F locals b
      binary F op l r
    rvalue locals (Rvalue.len a) = do v ← operand F locals a; length_value F v
    rvalue locals (Rvalue.index a i) = do
      s ← operand F locals a
      k ← operand F locals i
      index_value F s k
    rvalue locals (Rvalue.array_lit elems) = do
      cells ← each (operand_cell F locals) elems
      pure (array cells)
    rvalue locals (Rvalue.slice a lo hi) = do v ← operand F locals a; slice_value F locals v lo hi
    rvalue locals (Rvalue.struct_lit def fields) = do
      cells ← holes F (elim (shape def) [ none ↦ length fields | some n ↦ n ])
      cells' ← fill F locals fields cells
      pure (struct def cells')
    rvalue locals (Rvalue.variant_lit def tag args) = do
      payload ← each (operand_cell F locals) args
      pure (variant def tag payload)
    rvalue locals (Rvalue.variant_payload a index) = do
      v ← operand F locals a
      payload_value F fuel v index
    rvalue locals (Rvalue.duplicate a) = do v ← operand F locals a; deep_clone F fuel v
    rvalue locals (Rvalue.call def args contract) = call_value locals def args contract

    unfoldable pub statement : List ℕ → MirStmt F.Float → M F (Unit {0})
    unfolding rvalue cell store
    statement locals (assign dst val) = do v ← rvalue locals val; c ← cell F locals dst; store F c v
    statement locals (eval val) = do v ← rvalue locals val; pure tt

    unfoldable pub statements : List ℕ → List (MirStmt F.Float) → M F (Unit {0})
    unfolding statement
    statements locals [] = pure tt
    statements locals (s ∷ ss) = do statement locals s; statements locals ss

  -- How a block ends: with the value returned, or at the next block.
  pub data Exit : Type 0 where
    returned : Value F → Exit
    jump : ℕ → Exit

  unfoldable pub find_target : ℕ → List (ℕ × ℕ) → Option ℕ
  find_target tag [] = none
  find_target tag ((d, b) ∷ arms) = if d == tag then some b else find_target tag arms

  unfoldable pub select : List (ℕ × ℕ) → Option ℕ → Value F → M F Exit
  unfolding find_target
  select arms default (variant d tag payload) = elim (find_target tag arms) [
    | some b ↦ pure (jump b)
    | none ↦ elim default [ some b ↦ pure (jump b) | none ↦ fail non_exhaustive ]
  ]
  select arms default _ = fail non_variant_match

  unfoldable pub decide : ℕ → ℕ → Value F → M F Exit
  decide yes_block no_block (bool true) = pure (jump yes_block)
  decide yes_block no_block (bool false) = pure (jump no_block)
  decide yes_block no_block _ = fail non_bool_branch

  unfoldable pub terminator : List ℕ → Terminator F.Float → M F Exit
  unfolding operand select decide
  terminator locals (Terminator.return op) = do v ← operand F locals op; pure (returned v)
  terminator locals (Terminator.goto b) = pure (jump b)
  terminator locals (Terminator.branch c b b') = do v ← operand F locals c; decide b b' v
  terminator locals (Terminator.match s arms default) = do
    v ← operand F locals s
    select arms default v

  module _ (shape : ℕ → Option ℕ) (mir : MirModule F.Float) where
    -- `resize_with`, and the entry block.
    unfoldable pub start :
        (MirBody F.Float → List ℕ → ℕ → M F (Value F)) → MirBody F.Float → List ℕ → M F (Value F)
    unfolding holes
    start enter b args = do
      fresh ← holes F (b.locals - length args)
      enter b (take b.locals (args ++ fresh)) 0

    -- `call` around the block loop `enter`: the lookup, the arity check, the locals.
    unfoldable pub invoke :
        (MirBody F.Float → List ℕ → ℕ → M F (Value F)) → ℕ → List ℕ → M F (Value F)
    unfolding start body
    invoke enter def args = do
      b ← get_or_fail no_body (body mir def)
      if length args == b.params then start enter b args else fail arg_count

    -- The block loop: each round spends one unit of fuel, and so does each nested call.
    unfoldable pub exec : ℕ → MirBody F.Float → List ℕ → ℕ → M F (Value F)
    unfolding statements terminator invoke
    exec zero b locals pc = starve
    exec (suc n) b locals pc = do
      block ← get_or_fail bad_block (get_elem? b.blocks pc)
      statements shape n (invoke (exec n)) locals block.stmts
      exit ← terminator locals block.term
      elim exit [ returned v ↦ pure v | jump pc' ↦ exec n b locals pc' ]

    unfoldable pub call : ℕ → ℕ → List ℕ → M F (Value F)
    unfolding exec invoke
    call fuel def args = invoke (exec fuel) def args
