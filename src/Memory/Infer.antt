-- ===== src/Memory/Infer.antt =====
-- The whole pass: `infer_ownership` of crates/ontixa-memory/src/analyze.rs.
-- The diagnostics of the enforcement carry the definition that `tag_origin_from` gives them. A default
-- oracle has no memos and no contracts of an earlier run.
use ontixa.Prelude.{
  ℕ, zero, suc, ◌+◌, Bool, true, false, not, List, [], ◌∷◌, ◌++◌, map, Option, none, some, ◌==◌,
  if◌then◌else◌,
}
use ontixa.Db.Query.{DefKey, DefKey-discrete}
use ontixa.Hir.{HirBody, HirModule, FileEnv, FnSig, ParamDef, Def, fn_sig, body}
use ontixa.Memory.Facts.{Ctx, ParamSummary, update}
use ontixa.Memory.Contracts.{
  ContractTable, FactStamps, FactsEntry, Oracle, Round, tables_of, fixpoint_round,
}
use ontixa.Memory.Enforce.State.{Diagnostic, Enforcer}
use ontixa.Memory.Enforce.Walk.{Step, skip, ◌▸◌, set_live, eval}

pub record OwnershipTables : Type 0 where
  pub param_behaviors : ContractTable
  pub summaries : ℕ → Option (ℕ → ParamSummary)

abbrev pub default_oracle : Oracle
default_oracle = record {
  prev_contracts = λ root. none;
  facts = [];
  last_collected = 0;
  last_reused = 0;
  last_rounds = 0;
}

-- `oracle.facts.remove(&def)`
unfoldable pub remove_key : DefKey → List (DefKey × FactsEntry) → List (DefKey × FactsEntry)
unfolding DefKey-discrete
remove_key k [] = []
remove_key k ((j, e) ∷ rest) = elim (DefKey-discrete j k) [
  | yes p ↦ remove_key k rest
  | no p ↦ (j, e) ∷ remove_key k rest
]

unfoldable pub remove_all : List DefKey → List (DefKey × FactsEntry) → List (DefKey × FactsEntry)
unfolding remove_key
remove_all [] facts = facts
remove_all (k ∷ ks) facts = remove_all ks (remove_key k facts)

-- What a round leaves in the oracle.
abbrev pub after_round : Oracle → Round → Oracle
after_round o s = record o { facts = s.facts; last_collected = s.collected; last_reused = s.reused }

abbrev pub or_no_contracts : Option ContractTable → ContractTable
or_no_contracts none = λ g. none
or_no_contracts (some c) = c

-- `or_else`
abbrev pub or_else : Option ℕ → Option ℕ → Option ℕ
or_else none y = y
or_else (some x) y = some x

abbrev pub define_of : Option FileEnv → ℕ → Option ℕ
define_of none name = none
define_of (some e) name = or_else (e.fns name) (e.datas name)

abbrev pub is_fn : HirModule → Option ℕ → Bool
is_fn m none = false
is_fn m (some d) = elim (fn_sig m d) [ none ↦ false | some s ↦ true ]

-- The memos of this root whose definition is no longer a function go.
unfoldable pub retain : HirModule → List (DefKey × FactsEntry) → List (DefKey × FactsEntry)
unfolding fn_sig
retain m [] = []
retain m ((k, e) ∷ rest) =
    let kept = retain m rest in
    if not (k.root == m.root)
    then (k, e) ∷ kept
    else (if is_fn m (define_of (m.envs k.file) k.name) then (k, e) ∷ kept else kept)

-- Every parameter holds a value.
unfoldable pub enter_params : List ParamDef → Step
enter_params [] = skip
enter_params (p ∷ ps) = set_live p.symbol ▸ enter_params ps

abbrev pub first_step : Enforcer
first_step = record { state = λ sym. none; loans = []; diags = [] }

unfoldable pub enforce_body : HirModule → ContractTable → ℕ → FnSig → HirBody → List Diagnostic
unfolding enter_params eval tables_of
enforce_body m contracts d sig b =
    (eval (tables_of m d) contracts b b.root Ctx.move (enter_params sig.params first_step)).diags

unfoldable pub enforce : HirModule → ContractTable → ℕ → List Diagnostic
unfolding enforce_body fn_sig body
enforce m contracts d = elim (fn_sig m d) [
  | none ↦ []
  | some sig ↦ elim (body m d) [ none ↦ [] | some b ↦ enforce_body m contracts d sig b ]
]

abbrev pub tag : ℕ → Diagnostic → ℕ × Diagnostic
tag d x = (d, x)

unfoldable pub enforce_from : HirModule → ContractTable → ℕ → List Def → List (ℕ × Diagnostic)
unfolding enforce
enforce_from m contracts n [] = []
enforce_from m contracts n (d ∷ ds) =
    map (tag n) (enforce m contracts n) ++ enforce_from m contracts (suc n) ds

module _ (m : HirModule) (stamps : Option (ℕ → FactStamps)) (fuel : ℕ) where
  -- The outer loop: a round for each hypothesis that drifted. The first number is its fuel.
  unfoldable pub rounds : ℕ → ContractTable → Oracle → Option (Round × Oracle)
  unfolding fixpoint_round remove_all
  rounds zero hypothesis o = none
  rounds (suc n) hypothesis o =
      let o' = record o { last_rounds = o.last_rounds + 1 } in
      elim (fixpoint_round m stamps hypothesis fuel o') [
        | none ↦ none
        | some (s, drift) ↦ elim drift [
          | [] ↦ some (s, after_round o' s)
          | k ∷ ks ↦
              let o'' = after_round o' s in
              rounds n s.contracts (record o'' { facts = remove_all (k ∷ ks) s.facts })
        ]
      ]

  -- `none` where fuel runs out.
  unfoldable pub infer_ownership :
      ℕ → Oracle → Option (OwnershipTables × Oracle × List (ℕ × Diagnostic))
  unfolding rounds retain enforce_from
  infer_ownership n o =
      let hypothesis = or_no_contracts (o.prev_contracts m.root) in
      let o' = record o {
        prev_contracts = update o.prev_contracts m.root none;
        last_collected = 0;
        last_reused = 0;
        last_rounds = 0;
      } in
      elim (rounds n hypothesis o') [
        | none ↦ none
        | some (s, last) ↦ some (
          record { param_behaviors = s.contracts; summaries = s.summaries },
          record last {
            prev_contracts = update last.prev_contracts m.root (some s.contracts);
            facts = retain m last.facts;
          },
          enforce_from m s.contracts 0 m.defs,
        )
      ]
