-- ===== src/Examples/Ownership.antt =====
-- The ownership pass on a module of two functions, `fn eat(p: P) { let q = p; }` and
-- `fn main(a: P) { eat(a); }`.
use ontixa.Prelude.{
  ℕ, zero, suc, Bool, true, false, List, [], ◌∷◌, Option, none, some, ◌≡◌, ◌≢◌, refl, subst, ◌==◌,
  if◌then◌else◌, arith,
}
use ontixa.Source.Span.{Span}
use ontixa.Types.Ty.{Ty, TypeRef, is_copy, from_ref}
use ontixa.Mir.{ParamBehavior}
use ontixa.Hir.{
  HirExpr, HirExprKind, HirBody, HirModule, FnSig, ParamDef, Def, Symbol, TypeTables, node, nil,
  cons, absent, present, done, let_then, expr_then, fn_sig, body,
}
use ontixa.Memory.Facts.{Ctx, collect_facts}
use ontixa.Memory.Order.{rank, Under, UnderAll, level}
use ontixa.Memory.Walk.{WellTyped, Fits}
use ontixa.Memory.Contracts.{ParamBehavior-discrete, Oracle, tables_of, calls}
use ontixa.Memory.Derive.{IsTyped, copies, collect_facts-Under}
use ontixa.Memory.Locality.{collect_facts-local}
use ontixa.Memory.Fixpoint.{enough, IsLeastFixpoint}
use ontixa.Memory.Enforce.State.{Diagnostic}
use ontixa.Memory.Enforce.Paths.{Spot, wrong, run, WellScoped}
use ontixa.Memory.Infer.{OwnershipTables, default_oracle, infer_ownership}
use ontixa.Memory.Accepted.{
  IsEntry, param_scope, no_scope, infer_ownership-IsLeastFixpoint, infer_ownership-safe,
}

abbrev here : Span
here = record { start = 3; end = 4 }

abbrev parameter : ParamDef
parameter = record { symbol = 0; name = 7; mutable = false; ty = TypeRef.struct 5; span = here }

abbrev signature : FnSig
signature = record { params = parameter ∷ []; ret = TypeRef.unit }

abbrev use_of_p : HirExpr
use_of_p = node 0 here (HirExprKind.var 0)

abbrev symbols : ℕ → Symbol
symbols x = record { name = x; mutable = false; span = here }

abbrev eat_body : HirBody
eat_body = record {
  root = node 1 here (HirExprKind.block (let_then 1 none (present use_of_p) here done) absent);
  symbol = symbols;
}

abbrev main_body : HirBody
main_body = record {
  root = node 1 here (
      HirExprKind.block (expr_then (node 2 here (HirExprKind.call 0 (cons use_of_p nil))) true done)
        absent);
  symbol = symbols;
}

abbrev types_of_p : TypeTables
types_of_p = record {
  ty_of = λ i. if i == 0 then Ty.struct 5 else Ty.unit;
  local_types = λ x. some (Ty.struct 5);
}

abbrev define : ℕ → Def
define n = record { key = record { root = 0; file = 0; name = n }; sig = some signature }

abbrev two_functions : HirModule
two_functions = record {
  root = 0;
  envs = λ f. none;
  defs = define 1 ∷ define 2 ∷ [];
  bodies = some eat_body ∷ some main_body ∷ [];
  types = some types_of_p ∷ some types_of_p ∷ [];
}

two_functions-IsTyped : IsTyped two_functions
unfolding body fn_sig tables_of WellTyped copies is_copy from_ref
two_functions-IsTyped = record { typed = typed; signed = signed }
  where
    typed :
        (f : ℕ) (b : HirBody)
        → body two_functions f ≡ some b
        → WellTyped (tables_of two_functions f) (copies two_functions) b.root
    typed zero b e =
        let q : eat_body ≡ b = cc in
        subst (λ x. WellTyped (tables_of two_functions zero) (copies two_functions) x.root) q
          ((tt, tt), tt)
    typed (suc zero) b e =
        let q : main_body ≡ b = cc in
        subst (λ x. WellTyped (tables_of two_functions 1) (copies two_functions) x.root) q
          (((λ c. refl, tt, tt), tt), tt)
    typed (suc (suc f)) b e = absurd (ground arith)

    signed :
        (f : ℕ) (b : HirBody)
        → body two_functions f ≡ some b
        → (s : FnSig) × (fn_sig two_functions f ≡ some s)
    signed zero b e = (signature, refl)
    signed (suc zero) b e = (signature, refl)
    signed (suc (suc f)) b e = absurd (ground arith)

infer_ownership-IsLeastFixpoint_example :
    (t : OwnershipTables) × (o : Oracle) × (ds : List (ℕ × Diagnostic)) × (infer_ownership
        two_functions none
        (enough two_functions)
        1
        default_oracle
      ≡ some (t, o, ds))
    × IsLeastFixpoint two_functions t.param_behaviors
infer_ownership-IsLeastFixpoint_example =
    infer_ownership-IsLeastFixpoint two_functions (enough two_functions) 0 two_functions-IsTyped
      (omega arith)

-- What the pass returns.
abbrev Answer : Type 0
Answer = Option (OwnershipTables × Oracle × List (ℕ × Diagnostic))

abbrev answer : Answer
answer = infer_ownership two_functions none 50 1 default_oracle

abbrev tables_in : Answer → OwnershipTables
tables_in none = record { param_behaviors = λ d. none; summaries = λ d. none }
tables_in (some (t, o, ds)) = t

abbrev oracle_in : Answer → Oracle
oracle_in none = default_oracle
oracle_in (some (t, o, ds)) = o

answer_eq : answer ≡ some (tables_in answer, oracle_in answer, [])
unfolding infer_ownership ParamBehavior-discrete from_ref
answer_eq = refl

-- `eat` moves its argument, and so does `main`.
contract_test : (tables_in answer).param_behaviors 1 ≡ some (ParamBehavior.move ∷ [])
unfolding infer_ownership ParamBehavior-discrete from_ref
contract_test = refl

abbrev all_held : Spot
all_held = record { holds = λ x. true; choices = [] }

signature_eq : fn_sig two_functions 1 ≡ some signature
unfolding fn_sig
signature_eq = refl

main_body_eq : body two_functions 1 ≡ some main_body
unfolding body
main_body_eq = refl

main_scoped : WellScoped (param_scope signature.params no_scope) main_body.root
unfolding WellScoped param_scope
main_scoped = (((refl, tt), tt), tt)

all-IsEntry : IsEntry signature.params all_held
all-IsEntry x h = refl

infer_ownership-safe_example :
    run
      (tables_of two_functions 1)
      (tables_in answer).param_behaviors
      main_body.root
      Ctx.move
      all_held
    ≢ wrong
infer_ownership-safe_example =
    infer_ownership-safe two_functions none 50 1 default_oracle (oracle_in answer)
      (tables_in answer) 1 signature main_body all_held answer_eq signature_eq main_body_eq
      main_scoped all-IsEntry

-- `eat` borrows or moves its argument.
abbrev borrows : ℕ → List ParamBehavior
borrows d = ParamBehavior.borrow ∷ []

abbrev moves : ℕ → List ParamBehavior
moves d = ParamBehavior.move ∷ []

abbrev not_copied : ℕ → List Bool
not_copied d = false ∷ []

borrows-moves : (d : ℕ) → UnderAll (borrows d) (moves d)
unfolding rank
borrows-moves d = ((omega arith, λ h. omega arith), tt)

borrows-Fits : (d : ℕ) → Fits (not_copied d) (borrows d)
borrows-Fits d = (λ e. absurd (ground arith), tt)

main_body-WellTyped : WellTyped types_of_p not_copied main_body.root
unfolding WellTyped is_copy
main_body-WellTyped = (((λ c. refl, tt, tt), tt), tt)

collect_facts-Under_example :
    Under
      (level ((collect_facts main_body types_of_p borrows signature).facts 0))
      (level ((collect_facts main_body types_of_p moves signature).facts 0))
collect_facts-Under_example =
    collect_facts-Under main_body types_of_p not_copied borrows moves signature borrows-moves
      borrows-Fits main_body-WellTyped 0

-- A view that knows `eat` only.
abbrev moves_eat : ℕ → List ParamBehavior
moves_eat d = if 0 == d then ParamBehavior.move ∷ [] else []

agree : (g : ℕ) → calls g main_body.root ≡ true → moves g ≡ moves_eat g
unfolding calls
agree g h = ground arith

collect_facts-local_example :
    collect_facts main_body types_of_p moves signature
    ≡ collect_facts main_body types_of_p moves_eat signature
collect_facts-local_example =
    collect_facts-local main_body types_of_p moves moves_eat signature agree
