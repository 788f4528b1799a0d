-- ===== src/Memory/Accepted.antt =====
-- A compilation in one shot: `infer_ownership` of crates/ontixa-memory/src/analyze.rs without stamps and
-- with a default oracle, from the contracts to the enforcement.
use ontixa.Prelude.{
  ℕ, zero, suc, ◌+◌, ◌≤◌, ◌<◌, true, false, List, [], ◌∷◌, ◌++◌, map, Option, none, some, ◌≡◌, ◌≢◌,
  refl, sym, ap, ◌∙◌, subst, ◌==◌, Bool-cases, Option-cases, inl, inr, length, arith,
}
use ontixa.Mir.{ParamBehavior}
use ontixa.Db.Query.{DefKey}
use ontixa.Hir.{HirBody, HirModule, FnSig, ParamDef, Def, fn_sig, body}
use ontixa.Memory.Facts.{Ctx, update}
use ontixa.Memory.Contracts.{
  ContractTable, Round, Oracle, FactStamps, tables_of, callers, is_current, store_contract,
  evaluate, visit, drain, take_off, first_state, drifted, fixpoint_round,
}
use ontixa.Memory.Derive.{IsTyped}
use ontixa.Memory.Worklist.{enqueue-facts}
use ontixa.Memory.Least.{no_hypothesis, fn_sig-lt}
use ontixa.Memory.Rounds.{evaluate-eq}
use ontixa.Memory.Fixpoint.{enough, IsLeastFixpoint, fixpoint_round-IsLeastFixpoint}
use ontixa.Memory.Enforce.State.{Diagnostic, Enforcer, live}
use ontixa.Memory.Enforce.Paths.{Spot, wrong, run, Scope, enter_scope, WellScoped}
use ontixa.Memory.Enforce.Sound.{Dom, Good, update-Dom}
use ontixa.Memory.Enforce.Safety.{eval-Sound}
use ontixa.Memory.Infer.{
  OwnershipTables, default_oracle, or_no_contracts, after_round, enter_params, first_step,
  enforce_body, enforce, tag, enforce_from, rounds, retain, infer_ownership,
}

-- The parameters of a function are in scope.
unfoldable pub param_scope : List ParamDef → Scope → Scope
param_scope [] g = g
param_scope (p ∷ ps) g = param_scope ps (enter_scope g p.symbol)

abbrev pub no_scope : Scope
no_scope x = false

-- A path through a function begins with a value in each parameter.
abbrev pub IsEntry : List ParamDef → Spot → Type 0
IsEntry ps p = (x : ℕ) → param_scope ps no_scope x ≡ true → p.holds x ≡ true

enter_params-diags : (ps : List ParamDef) (s : Enforcer) → (enter_params ps s).diags ≡ s.diags
unfolding enter_params
enter_params-diags [] s = refl
enter_params-diags (p ∷ ps) s = enter_params-diags ps _

enter_params-Dom :
    (ps : List ParamDef) (g : Scope) (s : Enforcer)
    → Dom g s.state
    → Dom (param_scope ps g) (enter_params ps s).state
unfolding enter_params param_scope
enter_params-Dom [] g s d = d
enter_params-Dom (p ∷ ps) g s d =
    enter_params-Dom ps (enter_scope g p.symbol) _ (update-Dom g s.state p.symbol live d)

-- A body whose enforcement reports nothing takes no path to a binding without a value.
pub enforce_body-safe :
    (m : HirModule) (contracts : ContractTable) (d : ℕ) (sig : FnSig) (b : HirBody) (p : Spot)
    → WellScoped (param_scope sig.params no_scope) b.root
    → enforce_body m contracts d sig b ≡ []
    → IsEntry sig.params p
    → run (tables_of m d) contracts b.root Ctx.move p ≡ wrong
    → ⊥
unfolding enforce_body
enforce_body-safe m contracts d sig b p w clean holds bad =
    let g = param_scope sig.params no_scope in
    let s = enter_params sig.params first_step in
    let r = eval-Sound (tables_of m d) contracts b b.root g Ctx.move w s in
    let dom : Dom g s.state =
      enter_params-Dom sig.params no_scope first_step λ x q. absurd (ground arith) in
    let none_reported = ap (λ (ds : List Diagnostic). length ds) clean in
    subst (Good g _ _) bad (r.safe dom (omega (arith, none_reported)) p λ x e q _ _. holds x q)

-- Without stamps, a round leaves the memos.
module _ (m : HirModule) where
  store_contract-facts :
      (f : ℕ) (next : List ParamBehavior) (t : Round)
      → (store_contract m none no_hypothesis f next t).facts ≡ t.facts
  unfolding store_contract
  store_contract-facts f next t =
      elim (Bool-cases (is_current m none no_hypothesis (t.contracts f) next)) [
        | inl e ↦ rw e refl
        | inr e ↦ rw e (enqueue-facts (callers m f) _)
      ]

  visit-facts : (f : ℕ) (s t : Round) → visit m none no_hypothesis f s ≡ some t → t.facts ≡ s.facts
  unfolding visit
  visit-facts f s t e = elim (Option-cases (fn_sig m f)) [
    | inl p ↦ absurd (let z : none ≡ some t = rw (p, visit) at e in cc)
    | inr (sig, p) ↦ elim (Option-cases (body m f)) [
      | inl q ↦ absurd (let z : none ≡ some t = rw (p, q, visit) at e in cc)
      | inr (b, q) ↦
          let z : some (evaluate m none no_hypothesis f sig b s) ≡ some t = rw (p, q, visit) at e in
          let y : evaluate m none no_hypothesis f sig b s ≡ t = cc in
          let (u, e', _, _, _, same) = evaluate-eq m f sig b s in
          ap (λ (x : Round). x.facts) (sym y ∙ e') ∙ store_contract-facts f _ u ∙ same
    ]
  ]

  drain-facts :
      (n : ℕ) (work : List ℕ) (s t : Round)
      → drain m none no_hypothesis n work s ≡ some t
      → t.facts ≡ s.facts
  unfolding drain
  drain-facts zero [] s t e = let z : s ≡ t = cc in ap (λ (x : Round). x.facts) (sym z)
  drain-facts (suc n) [] s t e = let z : s ≡ t = cc in ap (λ (x : Round). x.facts) (sym z)
  drain-facts zero (f ∷ rest) s t e = absurd (ground arith)
  drain-facts (suc n) (f ∷ rest) s t e =
      elim (Option-cases (visit m none no_hypothesis f (take_off m none no_hypothesis f rest s))) [
        | inl q ↦ absurd (let z : none ≡ some t = rw (q, drain) at e in cc)
        | inr (u, q) ↦
            drain-facts n u.work u t (rw (q, drain) at e)
            ∙ visit-facts f (take_off m none no_hypothesis f rest s) u q
      ]

  -- Without memos, none has drifted.
  fixpoint_round-drift :
      (fuel : ℕ) (o : Oracle) (s : Round) (keys : List DefKey)
      → o.facts ≡ []
      → fixpoint_round m none no_hypothesis fuel o ≡ some (s, keys)
      → keys ≡ []
  unfolding fixpoint_round first_state drifted
  fixpoint_round-drift fuel o s keys no_facts e =
      let first = first_state m none no_hypothesis o in
      elim (Option-cases (drain m none no_hypothesis fuel first.work first)) [
        | inl q ↦ absurd (let z : none ≡ some (s, keys) = rw (q, fixpoint_round) at e in cc)
        | inr (u, q) ↦
            let z : some (u, drifted m none no_hypothesis u.contracts u.facts) ≡ some (s, keys) =
              rw (q, fixpoint_round) at e in
            let y : drifted m none no_hypothesis u.contracts u.facts ≡ keys = cc in
            let none_kept : u.facts ≡ [] = drain-facts fuel first.work first u q ∙ no_facts in
            sym y ∙ ap (drifted m none no_hypothesis u.contracts) none_kept
      ]

append-nil_parts : {A : Type 0} (xs ys : List A) → (xs ++ ys) ≡ [] → (xs ≡ []) × (ys ≡ [])
append-nil_parts [] ys e = (refl, e)
append-nil_parts (x ∷ xs) ys e = absurd (ground arith)

map_nil : (d : ℕ) (xs : List Diagnostic) → map (tag d) xs ≡ [] → xs ≡ []
map_nil d [] e = refl
map_nil d (x ∷ xs) e = absurd (ground arith)

-- No diagnostics at all: none for any definition.
enforce_from-nil :
    (m : HirModule) (c : ContractTable) (n : ℕ) (ds : List Def)
    → enforce_from m c n ds ≡ []
    → (d : ℕ) → n ≤ d
    → d < n + length ds
    → enforce m c d ≡ []
unfolding enforce_from
enforce_from-nil m c n [] e d p q = absurd (omega arith)
enforce_from-nil m c n (x ∷ ds) e d p q =
    let (e', e'') =
      append-nil_parts (map (tag n) (enforce m c n)) (enforce_from m c (suc n) ds) e in
    elim (Bool-cases (n == d)) [
      | inl t ↦
          let z : n ≡ d = ground arith in
          subst (λ k. enforce m c k ≡ []) z (map_nil n (enforce m c n) e')
      | inr t ↦
          let lt : suc n ≤ d = ground arith in
          enforce_from-nil m c (suc n) ds e'' d lt (omega arith)
    ]

enforce-body :
    (m : HirModule) (c : ContractTable) (d : ℕ) (sig : FnSig) (b : HirBody)
    → fn_sig m d ≡ some sig
    → body m d ≡ some b
    → enforce m c d ≡ enforce_body m c d sig b
unfolding enforce
enforce-body m c d sig b p q = rw (p, enforce) (rw q refl)

-- A run of the loop that needs one round.
rounds-once :
    (m : HirModule) (fuel n : ℕ) (o : Oracle) (s : Round)
    → fixpoint_round m none no_hypothesis fuel (record o { last_rounds = o.last_rounds + 1 })
      ≡ some (s, [])
    → rounds m none fuel (suc n) no_hypothesis o
      ≡ some (s, after_round (record o { last_rounds = o.last_rounds + 1 }) s)
unfolding rounds
rounds-once m fuel n o s e = rw (e, rounds) refl

-- The pass in one shot, on a module whose bodies fit their types, returns with fuel for one round,
-- and its contracts are the least that the bodies confirm.
pub infer_ownership-IsLeastFixpoint :
    (m : HirModule) (fuel n : ℕ)
    → IsTyped m
    → enough m ≤ fuel
    → (t : OwnershipTables) × (o : Oracle) × (ds : List (ℕ × Diagnostic)) × (infer_ownership m none
          fuel
          (suc n)
          default_oracle
        ≡ some (t, o, ds))
      × IsLeastFixpoint m t.param_behaviors
unfolding infer_ownership
infer_ownership-IsLeastFixpoint m fuel n typed h =
    let o1 : Oracle = record default_oracle {
      prev_contracts = update (λ root. none) m.root none;
    } in
    let o2 : Oracle = record o1 { last_rounds = 0 + 1 } in
    let (s, keys, e, least) = fixpoint_round-IsLeastFixpoint m o2 fuel typed h in
    let no_drift = fixpoint_round-drift m fuel o2 s keys refl e in
    let once : fixpoint_round m none no_hypothesis fuel o2 ≡ some (s, []) =
      subst (λ ks. fixpoint_round m none no_hypothesis fuel o2 ≡ some (s, ks)) no_drift e in
    let e' = rounds-once m fuel n o1 s once in
    let last : Oracle = after_round o2 s in
    (
      record { param_behaviors = s.contracts; summaries = s.summaries },
      record last {
        prev_contracts = update last.prev_contracts m.root (some s.contracts);
        facts = retain m last.facts;
      },
      enforce_from m s.contracts 0 m.defs,
      rw (e', infer_ownership) refl,
      least,
    )

-- Where the pass reports nothing, no path through a function whose body is well scoped, from values in
-- all its parameters, uses a binding that holds no value.
pub infer_ownership-safe :
    (m : HirModule) (stamps : Option (ℕ → FactStamps)) (fuel n : ℕ) (o o' : Oracle)
    (t : OwnershipTables) (d : ℕ) (sig : FnSig) (b : HirBody) (p : Spot)
    → infer_ownership m stamps fuel n o ≡ some (t, o', [])
    → fn_sig m d ≡ some sig
    → body m d ≡ some b
    → WellScoped (param_scope sig.params no_scope) b.root
    → IsEntry sig.params p
    → run (tables_of m d) t.param_behaviors b.root Ctx.move p ≢ wrong
unfolding infer_ownership
infer_ownership-safe m stamps fuel n o o' t d sig b p e q q' w entry =
    let o1 : Oracle = record o {
      prev_contracts = update o.prev_contracts m.root none;
      last_collected = 0;
      last_reused = 0;
      last_rounds = 0;
    } in
    elim (Option-cases (rounds m stamps fuel n (or_no_contracts (o.prev_contracts m.root)) o1)) [
      | inl z ↦ absurd (let y : none ≡ some (t, o', []) = rw (z, infer_ownership) at e in cc)
      | inr ((s, last), z) ↦
          let y = rw (z, infer_ownership) at e in
          let quiet : enforce_from m s.contracts 0 m.defs ≡ [] = cc in
          let same : s.contracts ≡ t.param_behaviors =
            let r : record { param_behaviors = s.contracts; summaries = s.summaries } ≡ t = cc in
            ap (λ (x : OwnershipTables). x.param_behaviors) r in
          let none_here =
            enforce_from-nil m s.contracts 0 m.defs quiet d (omega arith)
              (omega (arith, fn_sig-lt m d sig q)) in
          subst (λ c. run (tables_of m d) c b.root Ctx.move p ≢ wrong) same
            (enforce_body-safe m s.contracts d sig b p w
              (sym (enforce-body m s.contracts d sig b q q') ∙ none_here) entry)
    ]
