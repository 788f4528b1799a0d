-- ===== src/Memory/Contracts.antt =====
-- The inference of contracts: `fixpoint_round`, `memo_take` and `callees_of` of
-- crates/ontixa-memory/src/analyze.rs.
-- A map from definitions is a function. `callees_of` is read as the test of its set; `callers` lists
-- the definitions in the order of their ids, as the sort does. The worklist is what is left of `work`
-- from `head` on. A body has its tables: where they are missing, the code panics at the first type
-- that it reads, and the model reads `poison`.
use native.Mathlib.Decide.{ℕ_discrete}
use ontixa.Prelude.{
  ℕ, zero, suc, ◌+◌, Bool, true, false, not, ◌&&◌, ◌||◌, List, [], ◌∷◌, ◌++◌, Option, none, some,
  get_elem?, ◌==◌, if◌then◌else◌,
}
use ontixa.Types.Ty.{Ty, is_copy, from_ref}
use ontixa.Mir.{ParamBehavior}
use ontixa.Db.Query.{DefKey, DefKey-discrete}
use ontixa.Hir.{
  HirExpr, HirExprKind, HirExprs, HirOption, HirInits, HirArms, HirStmts, HirBody, HirModule, FnSig,
  ParamDef, TypeTables, Def, node, nil, cons, absent, present, end, init, no_arms, arm, done,
  let_then, assign_then, expr_then, return_then, fn_sig, body,
}
use ontixa.Memory.Facts.{ParamFacts, ParamSummary, Collector, classify, collect_facts, update}

unfoldable pub ParamBehavior-discrete : Discrete ParamBehavior
ParamBehavior-discrete = hlevel

-- `==` of two vectors of contracts.
unfoldable pub Contract-discrete : Discrete (List ParamBehavior)
Contract-discrete = hlevel ParamBehavior-discrete

abbrev pub ContractTable : Type 0
ContractTable = ℕ → Option (List ParamBehavior)

pub record FactStamps : Type 0 where
  pub body : ℕ
  pub types : ℕ

unfoldable pub FactStamps-discrete : Discrete FactStamps
FactStamps-discrete = hlevel ℕ_discrete

pub record FactsEntry : Type 0 where
  pub stamps : FactStamps
  pub facts : ℕ → ParamFacts
  pub summaries : ℕ → ParamSummary
  pub consumed : List (ℕ × List ParamBehavior)

-- `OwnershipOracle`: `prev_contracts` by root, `facts` by key.
pub record Oracle : Type 0 where
  pub prev_contracts : ℕ → Option ContractTable
  pub facts : List (DefKey × FactsEntry)
  pub last_collected : ℕ
  pub last_reused : ℕ
  pub last_rounds : ℕ

unfoldable mutual
  -- `callees_of`, for one definition.
  pub calls : ℕ → HirExpr → Bool
  calls g (node i at (HirExprKind.call def args)) = def == g || calls_any g args
  calls g (node i at (HirExprKind.field base name f)) = calls g base
  calls g (node i at (HirExprKind.len base)) = calls g base
  calls g (node i at (HirExprKind.index base k)) = calls g base || calls g k
  calls g (node i at (HirExprKind.slice base lo hi)) =
      calls g base || (calls_option g lo || calls_option g hi)
  calls g (node i at (HirExprKind.range lo hi)) = calls_option g lo || calls_option g hi
  calls g (node i at (HirExprKind.array_lit es)) = calls_any g es
  calls g (node i at (HirExprKind.for_in v e b)) = calls g e || calls g b
  calls g (node i at (HirExprKind.binary op l r)) = calls g l || calls g r
  calls g (node i at (HirExprKind.unary op e)) = calls g e
  calls g (node i at (HirExprKind.if_else c t e)) = calls g c || (calls g t || calls_option g e)
  calls g (node i at (HirExprKind.block ss e)) = calls_stmts g ss || calls_option g e
  calls g (node i at (HirExprKind.struct_lit d fs)) = calls_inits g fs
  calls g (node i at (HirExprKind.variant_lit d v es)) = calls_any g es
  calls g (node i at (HirExprKind.match_on e arms)) = calls g e || calls_arms g arms
  calls g (node i at (HirExprKind.literal l)) = false
  calls g (node i at (HirExprKind.var x)) = false
  calls g (node i at HirExprKind.poison) = false

  pub calls_option : ℕ → HirOption → Bool
  calls_option g absent = false
  calls_option g (present e) = calls g e

  pub calls_any : ℕ → HirExprs → Bool
  calls_any g nil = false
  calls_any g (cons e es) = calls g e || calls_any g es

  pub calls_inits : ℕ → HirInits → Bool
  calls_inits g end = false
  calls_inits g (init name e fs) = calls g e || calls_inits g fs

  pub calls_arms : ℕ → HirArms → Bool
  calls_arms g no_arms = false
  calls_arms g (arm p e at arms) = calls g e || calls_arms g arms

  pub calls_stmts : ℕ → HirStmts → Bool
  calls_stmts g done = false
  calls_stmts g (let_then sym ty e at ss) = calls_option g e || calls_stmts g ss
  calls_stmts g (assign_then target e at ss) = calls g e || calls_stmts g ss
  calls_stmts g (expr_then e semi ss) = calls g e || calls_stmts g ss
  calls_stmts g (return_then e at ss) = calls_option g e || calls_stmts g ss

-- The ids of the definitions from the `n`-th on that pass a test, in order.
unfoldable pub ids_from : ℕ → (ℕ → Bool) → List Def → List ℕ
ids_from n test [] = []
ids_from n test (d ∷ ds) = if test n then n ∷ ids_from (suc n) test ds else ids_from (suc n) test ds

-- `callers.get(g)`
unfoldable pub callers : HirModule → ℕ → List ℕ
unfolding ids_from calls body
callers m g = ids_from 0 (λ d. elim (body m d) [ none ↦ false | some b ↦ calls g b.root ]) m.defs

-- A definition with a signature and a body.
unfoldable pub is_function : HirModule → ℕ → Bool
unfolding fn_sig body
is_function m d = elim (fn_sig m d) [
  | none ↦ false
  | some s ↦ elim (body m d) [ none ↦ false | some b ↦ true ]
]

unfoldable pub bottom_of : List ParamDef → List ParamBehavior
bottom_of [] = []
bottom_of (p ∷ ps) =
    (if is_copy (from_ref p.ty) then ParamBehavior.copy else ParamBehavior.borrow) ∷ bottom_of ps

-- The contracts that a round starts from.
unfoldable pub bottom : HirModule → ContractTable
unfolding bottom_of fn_sig
bottom m d = elim (fn_sig m d) [ none ↦ none | some s ↦ some (bottom_of s.params) ]

-- `unwrap_or_default`
abbrev pub or_empty : Option (List ParamBehavior) → List ParamBehavior
or_empty none = []
or_empty (some c) = c

unfoldable pub view_of : ContractTable → ContractTable → ℕ → List ParamBehavior
view_of hypothesis contracts g = elim (hypothesis g) [ some c ↦ c | none ↦ or_empty (contracts g) ]

abbrev pub empty_tables : TypeTables
empty_tables = record { ty_of = λ i. Ty.poison; local_types = λ sym. none }

unfoldable pub tables_of : HirModule → ℕ → TypeTables
tables_of m d = elim (get_elem? m.types d) [ some (some t) ↦ t | _ ↦ empty_tables ]

-- The contract of each parameter, from the `i`-th on.
unfoldable pub classify_all : (ℕ → ParamFacts) → ℕ → List ParamDef → List ParamBehavior
unfolding classify
classify_all facts i [] = []
classify_all facts i (p ∷ ps) = classify (from_ref p.ty) (facts i) ∷ classify_all facts (suc i) ps

unfoldable pub entry_at : DefKey → List (DefKey × FactsEntry) → Option FactsEntry
unfolding DefKey-discrete
entry_at k [] = none
entry_at k ((j, e) ∷ rest) = elim (DefKey-discrete j k) [ yes p ↦ some e | no p ↦ entry_at k rest ]

-- `facts.insert`
unfoldable pub put_entry :
    DefKey → FactsEntry → List (DefKey × FactsEntry) → List (DefKey × FactsEntry)
unfolding DefKey-discrete
put_entry k e [] = (k, e) ∷ []
put_entry k e ((j, f) ∷ rest) = elim (DefKey-discrete j k) [
  | yes p ↦ (k, e) ∷ rest
  | no p ↦ (j, f) ∷ put_entry k e rest
]

-- Every contract that a memo consumed equals the one of a view.
unfoldable pub holds_under : (ℕ → List ParamBehavior) → List (ℕ × List ParamBehavior) → Bool
unfolding Contract-discrete
holds_under view [] = true
holds_under view ((g, recorded) ∷ rest) = elim (Contract-discrete (view g) recorded) [
  | yes p ↦ holds_under view rest
  | no p ↦ false
]

unfoldable pub memo_take :
    (ℕ → List ParamBehavior)
    → Option (ℕ → FactStamps)
    → Option Def
    → ℕ
    → List (DefKey × FactsEntry)
    → Option ((ℕ → ParamFacts) × (ℕ → ParamSummary))
unfolding entry_at holds_under FactStamps-discrete
memo_take view (some stamps) (some d) f facts = elim (entry_at d.key facts) [
  | none ↦ none
  | some e ↦ elim (FactStamps-discrete e.stamps (stamps f)) [
    | no p ↦ none
    | yes p ↦ if holds_under view e.consumed then some (e.facts, e.summaries) else none
  ]
]
memo_take view _ _ f facts = none

-- The variables of the loop of a round.
pub record Round : Type 0 where
  pub contracts : ContractTable
  pub summaries : ℕ → Option (ℕ → ParamSummary)
  pub facts : List (DefKey × FactsEntry)
  pub collected : ℕ
  pub reused : ℕ
  pub work : List ℕ
  pub queued : ℕ → Bool

-- `queued.insert(caller)` and the push, for each caller.
unfoldable pub enqueue : List ℕ → Round → Round
enqueue [] s = s
enqueue (c ∷ cs) s = enqueue cs (
    if s.queued c then s else record s { work = s.work ++ c ∷ []; queued = update s.queued c true })

-- The new memo, where the caller has stamps.
unfoldable pub remember :
    Option (ℕ → FactStamps)
    → Option Def
    → ℕ
    → Collector
    → List (DefKey × FactsEntry)
    → List (DefKey × FactsEntry)
unfolding put_entry
remember (some stamps) (some d) f c facts =
    put_entry d.key
      (record {
        stamps = stamps f;
        facts = c.facts;
        summaries = c.summaries;
        consumed = c.consumed;
      })
      facts
remember _ _ f c facts = facts

module _ (m : HirModule) (stamps : Option (ℕ → FactStamps)) (hypothesis : ContractTable) where
  -- The facts of a function, from the memo or by a walk.
  unfoldable pub facts_for :
      ℕ → FnSig → HirBody → Round → ((ℕ → ParamFacts) × (ℕ → ParamSummary)) × Round
  unfolding memo_take remember collect_facts tables_of view_of
  facts_for f sig b s =
      let view = view_of hypothesis s.contracts in
      elim (memo_take view stamps (get_elem? m.defs f) f s.facts) [
        | some (facts, sum) ↦ ((facts, sum), record s { reused = s.reused + 1 })
        | none ↦
            let c = collect_facts b (tables_of m f) view sig in
            (
              (c.facts, c.summaries),
              record s {
                collected = s.collected + 1;
                facts = remember stamps (get_elem? m.defs f) f c s.facts;
              },
            )
      ]

  -- `contracts.get(&f) != Some(&next)`
  unfoldable pub is_current : Option (List ParamBehavior) → List ParamBehavior → Bool
  unfolding Contract-discrete
  is_current none next = false
  is_current (some c) next = elim (Contract-discrete c next) [ yes p ↦ true | no p ↦ false ]

  unfoldable pub store_contract : ℕ → List ParamBehavior → Round → Round
  unfolding is_current enqueue callers
  store_contract f next s =
      if is_current (s.contracts f) next
      then s
      else enqueue (callers m f) (record s { contracts = update s.contracts f (some next) })

  -- The body of the loop, for a function that was taken off the worklist.
  unfoldable pub evaluate : ℕ → FnSig → HirBody → Round → Round
  unfolding facts_for store_contract classify_all
  evaluate f sig b s =
      let ((facts, sum), t) = facts_for f sig b s in
      store_contract f (classify_all facts 0 sig.params)
        (record t { summaries = update t.summaries f (some sum) })

  -- The two `unwrap`s; `none` is their panic.
  unfoldable pub visit : ℕ → Round → Option Round
  unfolding evaluate fn_sig body
  visit f s = elim (fn_sig m f) [
    | none ↦ none
    | some sig ↦ elim (body m f) [ none ↦ none | some b ↦ some (evaluate f sig b s) ]
  ]

  abbrev pub take_off : ℕ → List ℕ → Round → Round
  take_off f rest s = record s { work = rest; queued = update s.queued f false }

  -- The loop over the worklist, which the state holds too. `none` where the fuel runs out, or by a
  -- panic.
  unfoldable pub drain : ℕ → List ℕ → Round → Option Round
  unfolding visit
  drain fuel [] s = some s
  drain zero (f ∷ rest) s = none
  drain (suc fuel) (f ∷ rest) s = elim (visit f (take_off f rest s)) [
    | none ↦ none
    | some t ↦ drain fuel t.work t
  ]

  unfoldable pub first_state : Oracle → Round
  unfolding bottom ids_from is_function
  first_state o = record {
    contracts = bottom m;
    summaries = λ f. none;
    facts = o.facts;
    collected = o.last_collected;
    reused = o.last_reused;
    work = ids_from 0 (is_function m) m.defs;
    queued = is_function m;
  }

  -- A recorded contract is what the table has.
  unfoldable pub holds_in : ContractTable → List (ℕ × List ParamBehavior) → Bool
  unfolding is_current
  holds_in contracts [] = true
  holds_in contracts ((g, recorded) ∷ rest) =
      is_current (contracts g) recorded && holds_in contracts rest

  -- The keys of this root whose records have drifted.
  unfoldable pub drifted : ContractTable → List (DefKey × FactsEntry) → List DefKey
  unfolding holds_in
  drifted contracts [] = []
  drifted contracts ((k, e) ∷ rest) =
      if k.root == m.root && not (holds_in contracts e.consumed)
      then k ∷ drifted contracts rest
      else drifted contracts rest

  -- The state after the loop, with the drifted keys.
  unfoldable pub fixpoint_round : ℕ → Oracle → Option (Round × List DefKey)
  unfolding drain first_state drifted
  fixpoint_round fuel o = elim (drain fuel (first_state o).work (first_state o)) [
    | none ↦ none
    | some s ↦ some (s, drifted s.contracts s.facts)
  ]
