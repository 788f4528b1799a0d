-- ===== src/Memory/Rounds.antt =====
-- The loop of `fixpoint_round` in crates/ontixa-memory/src/analyze.rs ends, and what does not wait in
-- it is settled.
use ontixa.Prelude.{
  ℕ, zero, suc, ◌+◌, ◌*◌, ◌≤◌, ◌<◌, Bool, true, false, List, [], ◌∷◌, Option, none, some, ◌≡◌, refl,
  sym, ap, ◌∙◌, subst, ◌==◌, Bool-cases, Option-cases, ◌⊎◌, inl, inr, All, length, arith,
}
use ontixa.Mir.{ParamBehavior}
use ontixa.Hir.{HirBody, HirModule, FnSig, fn_sig, body}
use ontixa.Memory.Facts.{update}
use ontixa.Memory.Contracts.{
  ContractTable, Contract-discrete, Round, calls, callers, is_function, or_empty, view_of,
  memo_take, enqueue, facts_for, is_current, store_contract, evaluate, visit, take_off, drain,
}
use ontixa.Memory.Derive.{derive, derive-local, IsKnown, derive-IsKnown, IsTyped}
use ontixa.Memory.Worklist.{
  has, enqueue-contracts, enqueue-queued, enqueue-work, enqueue-All, length-enqueue,
  length-ids_from, ids_from-All, has-ids_from, slack_from, slack_of-lt, slack_from-lt,
  distance_falls,
}
use ontixa.Memory.Least.{
  no_hypothesis, current, IsRising, IsSettled, IsQueue, is_function-parts, is_function-of,
  fn_sig-lt, some_eq, next, raised, raised-IsRising,
}

module _ (m : HirModule) where
  current-true :
      (o : Option (List ParamBehavior)) (n : List ParamBehavior)
      → is_current m none no_hypothesis o n ≡ true
      → o ≡ some n
  unfolding is_current
  current-true none n p = cc
  current-true (some x) n p = elim (Contract-discrete x n) [
    | yes q ↦ ap some q
    | no q ↦ ground arith
  ]

  current-false :
      (o : Option (List ParamBehavior)) (x n : List ParamBehavior)
      → o ≡ some x
      → is_current m none no_hypothesis o n ≡ false
      → x ≡ n
      → ⊥
  unfolding is_current
  current-false none x n e p q = cc
  current-false (some y) x n e p q = elim (Contract-discrete y n) [
    | yes r ↦ ground arith
    | no r ↦ r (cc)
  ]

  -- A function that calls another is among its callers.
  has-callers :
      (f g : ℕ) (sig : FnSig) (b : HirBody)
      → fn_sig m g ≡ some sig
      → body m g ≡ some b
      → calls f b.root ≡ true
      → has g (callers m f) ≡ true
  unfolding callers
  has-callers f g sig b p q h =
      has-ids_from g 0 _ m.defs (omega arith) (omega (arith, fn_sig-lt m g sig p)) (rw q h)

  callers_functions : (f : ℕ) → IsTyped m → All (λ g. is_function m g ≡ true) (callers m f)
  unfolding callers
  callers_functions f t =
      ids_from-All (λ g. is_function m g ≡ true) 0 _ m.defs
        λ g h. from g h (Option-cases (body m g))
    where
      from :
          (g : ℕ)
          → (elim (body m g) [ none ↦ false | some b ↦ calls f b.root ]) ≡ true
          → (body m g ≡ none) ⊎ ((b : HirBody) × (body m g ≡ some b))
          → is_function m g ≡ true
      from g h (inl q) = ground arith
      from g h (inr (b, q)) = let (sig, p) = t.signed g b q in is_function-of m g sig b p q

  length-callers : (f : ℕ) → length (callers m f) ≤ length m.defs
  unfolding callers
  length-callers f = length-ids_from 0 _ m.defs

  -- The rest of the work, and the distance of the contracts from the strongest ones.
  unfoldable pub distance : ContractTable → List ℕ → ℕ
  unfolding slack_from
  distance c work = slack_from c 0 m.defs * suc (length m.defs) + length work

  -- Where the store follows the walk of a function.
  pub evaluate-eq :
      (f : ℕ) (sig : FnSig) (b : HirBody) (s : Round)
      → (t : Round) × (evaluate m none no_hypothesis f sig b s
          ≡ store_contract m none no_hypothesis f (derive m (current s.contracts) f sig b) t)
        × (t.contracts ≡ s.contracts)
        × (t.work ≡ s.work)
        × (t.queued ≡ s.queued)
        × (t.facts ≡ s.facts)
  unfolding evaluate facts_for memo_take derive view_of
  evaluate-eq f sig b s = (_, refl, refl, refl, refl, refl)

  module _ (typed : IsTyped m) where
    -- The state after a visit, from the one before.
    abbrev IsStep : ContractTable → List ℕ → Round → Type 0
    IsStep c rest t =
        IsRising m t.contracts
        × IsQueue m t.contracts t.queued t.work
        × (distance t.contracts t.work < distance c (zero ∷ rest))

    module _ (c : ContractTable) (queued : ℕ → Bool) (f : ℕ) (rest : List ℕ) (r : IsRising m c)
        (q : IsQueue m c queued (f ∷ rest)) (sig : FnSig) (b : HirBody) (ps : fn_sig m f ≡ some sig)
        (pb : body m f ≡ some b) where
      -- The function leaves the worklist.
      waits_rest : (g : ℕ) → update queued f false g ≡ true → has g rest ≡ true
      waits_rest g h = elim (Bool-cases (f == g)) [
        | inl e ↦ let z : ⊥ = ground arith in absurd z
        | inr e ↦ let w = q.waits g (ground arith) in ground arith
      ]

      -- Nothing was raised: the function is settled.
      same-IsQueue :
          c f ≡ some (next m typed c r f sig b ps pb) → IsQueue m c (update queued f false) rest
      same-IsQueue e = record {
        settled = λ g h. elim (Bool-cases (f == g)) [
          | inr n ↦ q.settled g (ground arith)
          | inl n ↦
              let t : f ≡ g = ground arith in
              subst (IsSettled m c) t λ sig' b' p p'.
                let s : sig' ≡ sig = some_eq p ps in let s' : b' ≡ b = some_eq p' pb in rw (s, s') e
        ];
        waits = waits_rest;
        functions = q.functions.1;
      }

      -- The contract was raised: what does not call the function is as settled as before.
      raised-IsSettled :
          (g : ℕ)
          → has g (callers m f) ≡ false
          → ((f == g) ≡ false → queued g ≡ false)
          → IsSettled m (raised m typed c r f sig b ps pb) g
      raised-IsSettled g nc nq sig' b' p p' =
          let up = raised m typed c r f sig b ps pb in
          let uncalled : calls f b'.root ≡ false = elim (Bool-cases (calls f b'.root)) [
            | inl h ↦ let y = has-callers f g sig' b' p p' h in absurd (let z : ⊥ = cc in z)
            | inr h ↦ h
          ] in
          let local : derive m (current c) g sig' b' ≡ derive m (current up) g sig' b' =
            derive-local m (current c) (current up) g sig' b' λ h k. elim (Bool-cases (f == h)) [
              | inr n ↦ rw n refl
              | inl n ↦
                  let t : f ≡ h = ground arith in
                  let y : calls f b'.root ≡ true = ap (λ x. calls x b'.root) t ∙ k in
                  absurd (let z : ⊥ = cc in z)
            ] in
          elim (Bool-cases (f == g)) [
            | inr n ↦ rw n (q.settled g (nq n) sig' b' p p' ∙ ap some local)
            | inl n ↦
                let t : f ≡ g = ground arith in
                let s : sig ≡ sig' = some_eq ps (ap (fn_sig m) t ∙ p) in
                let s' : b ≡ b' = some_eq pb (ap (body m) t ∙ p') in
                let e : next m typed c r f sig b ps pb ≡ derive m (current c) g sig' b' =
                  rw (t, s, s') refl in
                rw n (ap some (e ∙ local))
          ]

      module _ (s t : Round) (pc : t.contracts ≡ c) (pw : t.work ≡ rest)
          (pq : t.queued ≡ update queued f false) where
        abbrev stored : Round
        stored = store_contract m none no_hypothesis f (next m typed c r f sig b ps pb) t

        -- The state that the callers enter.
        abbrev written : Round
        written = record t {
          contracts = update t.contracts f (some (next m typed c r f sig b ps pb));
        }

        stored_same :
            is_current m none no_hypothesis (t.contracts f) (next m typed c r f sig b ps pb) ≡ true
            → IsStep c rest stored
        unfolding store_contract distance
        stored_same h =
            let e = current-true (t.contracts f) _ h in
            let e' : c f ≡ some (next m typed c r f sig b ps pb) =
              ap (λ (x : ContractTable). x f) (sym pc) ∙ e in
            rw (h, pc, pw, pq) (r, same-IsQueue e', omega arith)

        stored_raised :
            is_current m none no_hypothesis (t.contracts f) (next m typed c r f sig b ps pb) ≡ false
            → IsStep c rest stored
        unfolding store_contract distance
        stored_raised h =
            let n = next m typed c r f sig b ps pb in
            let cs = callers m f in
            let up : written.contracts ≡ raised m typed c r f sig b ps pb =
              ap (λ (x : ContractTable). update x f (some n)) pc in
            let e : (enqueue cs written).contracts ≡ raised m typed c r f sig b ps pb =
              enqueue-contracts cs written ∙ up in
            let (x, px, ux) = r.rising f sig b ps pb in
            let ne =
              current-false (t.contracts f) x n (ap (λ (y : ContractTable). y f) pc ∙ px) h in
            let known : All IsKnown x =
              subst (λ (o : Option (List ParamBehavior)). All IsKnown (or_empty o)) px
                (r.known f) in
            let lt =
              slack_from-lt c f x n 0 m.defs (omega arith) (omega (arith, fn_sig-lt m f sig ps)) px
                (slack_of-lt x n ux known (derive-IsKnown m (current c) f sig b) ne) in
            let len = length-enqueue cs written in
            let bound = length-callers f in
            let waiting = λ (g : ℕ) (k : t.queued g ≡ true).
              ap (has g) pw ∙ waits_rest g (ap (λ (y : ℕ → Bool). y g) (sym pq) ∙ k) in
            rw h (
              subst (IsRising m) (sym e) (raised-IsRising m typed c r f sig b ps pb),
              record {
                settled = λ g k.
                    let k' = sym (enqueue-queued cs written g) ∙ k in
                    let l : has g cs ≡ false = ground arith in
                    let l' : t.queued g ≡ false = ground arith in
                    subst (λ y. IsSettled m y g) (sym e)
                      (raised-IsSettled g l
                        λ d. let z = ap (λ (y : ℕ → Bool). y g) (sym pq) ∙ l' in ground arith);
                waits = enqueue-work cs written waiting;
                functions =
                    enqueue-All _ cs written (callers_functions f typed)
                      (subst (All (λ g. is_function m g ≡ true)) (sym pw) q.functions.1);
              },
              rw e (distance_falls _ _ _ _ _ _ _ lt (ap length pw) len bound),
            )

    -- A visit of the first function that waits succeeds, and is a step towards the end.
    pub visit-IsStep :
        (f : ℕ) (rest : List ℕ) (s : Round)
        → IsRising m s.contracts
        → IsQueue m s.contracts s.queued (f ∷ rest)
        → (t : Round) × (visit m none no_hypothesis f (take_off m none no_hypothesis f rest s)
            ≡ some t)
          × IsStep s.contracts rest t
    unfolding visit
    visit-IsStep f rest s r q =
        let (sig, b, ps, pb) = is_function-parts m f q.functions.0 in
        let off = take_off m none no_hypothesis f rest s in
        let (t, e, pc, pw, pq, _) = evaluate-eq f sig b off in
        let c = s.contracts in
        let step : IsStep c rest (evaluate m none no_hypothesis f sig b off) =
          rw e
            (elim (Bool-cases
              (is_current m none no_hypothesis (t.contracts f) (next m typed c r f sig b ps pb))) [
                | inl h ↦ stored_same c s.queued f rest r q sig b ps pb s t pc pw pq h
                | inr h ↦ stored_raised c s.queued f rest r q sig b ps pb s t pc pw pq h
              ]) in
        (evaluate m none no_hypothesis f sig b off, rw (ps, visit) (rw pb refl), step)

    -- The loop ends with nothing waiting.
    pub drain_ends :
        (fuel : ℕ) (work : List ℕ) (s : Round)
        → IsRising m s.contracts
        → IsQueue m s.contracts s.queued work
        → distance s.contracts work ≤ fuel
        → (t : Round) × (drain m none no_hypothesis fuel work s ≡ some t)
          × IsRising m t.contracts
          × IsQueue m t.contracts t.queued []
    unfolding drain
    drain_ends zero [] s r q h = (s, refl, r, q)
    drain_ends (suc fuel) [] s r q h = (s, refl, r, q)
    drain_ends zero (f ∷ rest) s r q h =
        let (t, e, (_, _, lt)) = visit-IsStep f rest s r q in
        absurd (unfold distance in omega arith)
    drain_ends (suc fuel) (f ∷ rest) s r q h =
        let (t, e, (r', q', lt)) = visit-IsStep f rest s r q in
        let (t', e', r'', q'') = drain_ends fuel t.work t r' q' (unfold distance in omega arith) in
        (t', rw (e, drain) e', r'', q'')
