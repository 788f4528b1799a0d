-- ===== src/Memory/Worklist.antt =====
-- The worklist of `fixpoint_round` in crates/ontixa-memory/src/analyze.rs: which functions wait, and
-- how far the contracts are from the strongest ones, which bounds the rounds.
use ontixa.Prelude.{
  ℕ, suc, ◌+◌, ◌-◌, ◌*◌, ◌≤◌, ◌<◌, Bool, true, false, ◌||◌, List, [], ◌∷◌, ◌++◌, some, ◌≡◌, refl,
  sym, ap, ◌∙◌, ◌==◌, if◌then◌else◌, Bool-cases, ◌⊎◌, inl, inr, All, length, length-append, arith,
}
use ontixa.Mir.{ParamBehavior}
use ontixa.Hir.{Def}
use ontixa.Memory.Facts.{update}
use ontixa.Memory.Order.{rank, UnderAll}
use ontixa.Memory.Contracts.{ContractTable, Round, enqueue, ids_from, or_empty}
use ontixa.Memory.Derive.{IsKnown}

abbrev pub has : ℕ → List ℕ → Bool
has g [] = false
has g (x ∷ xs) = x == g || has g xs

pub has-append : (g : ℕ) (xs ys : List ℕ) → has g (xs ++ ys) ≡ (has g xs || has g ys)
has-append g [] ys = refl
has-append g (x ∷ xs) ys = ground (arith, has-append g xs ys)

pub enqueue-contracts : (cs : List ℕ) (s : Round) → (enqueue cs s).contracts ≡ s.contracts
unfolding enqueue
enqueue-contracts [] s = refl
enqueue-contracts (c ∷ cs) s = elim (Bool-cases (s.queued c)) [
  | inl e ↦ rw (e, enqueue) (enqueue-contracts cs s)
  | inr e ↦ rw (e, enqueue) (enqueue-contracts cs _)
]

pub enqueue-facts : (cs : List ℕ) (s : Round) → (enqueue cs s).facts ≡ s.facts
unfolding enqueue
enqueue-facts [] s = refl
enqueue-facts (c ∷ cs) s = elim (Bool-cases (s.queued c)) [
  | inl e ↦ rw (e, enqueue) (enqueue-facts cs s)
  | inr e ↦ rw (e, enqueue) (enqueue-facts cs _)
]

-- A caller that is pushed waits, and what waited still does.
pub enqueue-queued :
    (cs : List ℕ) (s : Round) (g : ℕ) → (enqueue cs s).queued g ≡ (has g cs || s.queued g)
unfolding enqueue
enqueue-queued [] s g = refl
enqueue-queued (c ∷ cs) s g = elim (Bool-cases (s.queued c)) [
  | inl e ↦ rw (e, enqueue) (grow (Bool-cases (c == g)) e (enqueue-queued cs s g))
  | inr e ↦ rw (e, enqueue) (enqueue-queued cs _ g ∙ swap (c == g) (has g cs) (s.queued g))
]
  where
    swap : (a b d : Bool) → (b || (if a then true else d)) ≡ ((a || b) || d)
    swap a b d = ground arith

    grow :
        {x : Bool}
        → (((c == g) ≡ true) ⊎ ((c == g) ≡ false))
        → s.queued c ≡ true
        → x ≡ (has g cs || s.queued g)
        → x ≡ ((c == g || has g cs) || s.queued g)
    grow (inl p) e q =
        let r : c ≡ g = ground arith in
        let t : s.queued g ≡ true = ap s.queued (sym r) ∙ e in ground arith
    grow (inr p) e q = ground arith

pub enqueue-work :
    (cs : List ℕ) (s : Round)
    → ((g : ℕ) → s.queued g ≡ true → has g s.work ≡ true)
    → (g : ℕ) → (enqueue cs s).queued g ≡ true
    → has g (enqueue cs s).work ≡ true
unfolding enqueue
enqueue-work [] s h = h
enqueue-work (c ∷ cs) s h = elim (Bool-cases (s.queued c)) [
  | inl e ↦ rw (e, enqueue) (enqueue-work cs s h)
  | inr e ↦
      rw (e, enqueue) (enqueue-work cs _ λ g q. has-append g s.work (c ∷ []) ∙ ground (arith, h g))
]

pub enqueue-All :
    (P : ℕ → Type 0) (cs : List ℕ) (s : Round) → All P cs → All P s.work → All P (enqueue cs s).work
unfolding enqueue
enqueue-All P [] s h k = k
enqueue-All P (c ∷ cs) s (p, h) k = elim (Bool-cases (s.queued c)) [
  | inl e ↦ rw (e, enqueue) (enqueue-All P cs s h k)
  | inr e ↦ rw (e, enqueue) (enqueue-All P cs _ h (last s.work k))
]
  where
    last : (xs : List ℕ) → All P xs → All P (xs ++ c ∷ [])
    last [] h = (p, tt)
    last (x ∷ xs) h = (h.0, last xs h.1)

pub length-enqueue :
    (cs : List ℕ) (s : Round) → length (enqueue cs s).work ≤ length s.work + length cs
unfolding enqueue
length-enqueue [] s = omega arith
length-enqueue (c ∷ cs) s = elim (Bool-cases (s.queued c)) [
  | inl e ↦ rw (e, enqueue) (omega (arith, length-enqueue cs s))
  | inr e ↦
      rw (e, enqueue)
        (omega (
          arith,
          length-enqueue cs (record s { work = s.work ++ c ∷ []; queued = update s.queued c true }),
          length-append s.work (c ∷ []),
        ))
]

pub length-ids_from :
    (n : ℕ) (test : ℕ → Bool) (ds : List Def) → length (ids_from n test ds) ≤ length ds
unfolding ids_from
length-ids_from n test [] = omega arith
length-ids_from n test (d ∷ ds) = ground (arith, length-ids_from (suc n) test ds)

pub ids_from-All :
    (P : ℕ → Type 0) (n : ℕ) (test : ℕ → Bool) (ds : List Def)
    → ((g : ℕ) → test g ≡ true → P g)
    → All P (ids_from n test ds)
unfolding ids_from
ids_from-All P n test [] h = tt
ids_from-All P n test (d ∷ ds) h = elim (Bool-cases (test n)) [
  | inl e ↦ rw e (h n e, ids_from-All P (suc n) test ds h)
  | inr e ↦ rw e (ids_from-All P (suc n) test ds h)
]

pub has-ids_from :
    (g n : ℕ) (test : ℕ → Bool) (ds : List Def)
    → n ≤ g
    → g < n + length ds
    → test g ≡ true
    → has g (ids_from n test ds) ≡ true
unfolding ids_from
has-ids_from g n test [] p q t = absurd (omega arith)
has-ids_from g n test (d ∷ ds) p q t = elim (Bool-cases (n == g)) [
  | inl e ↦ let r : n ≡ g = ground arith in let u : test n ≡ true = ap test r ∙ t in ground arith
  | inr e ↦
      let lt : suc n ≤ g = ground arith in
      let ih = has-ids_from g (suc n) test ds lt (omega arith) t in ground arith
]

-- How far a contract is from the strongest one.
unfoldable pub slack_of : List ParamBehavior → ℕ
slack_of [] = 0
slack_of (b ∷ bs) = (4 - rank b) + slack_of bs

unfoldable pub slack_from : ContractTable → ℕ → List Def → ℕ
unfolding slack_of
slack_from c n [] = 0
slack_from c n (d ∷ ds) = slack_of (or_empty (c n)) + slack_from c (suc n) ds

rank_le : (b : ParamBehavior) → rank b ≤ 4
unfolding rank
rank_le b = ground arith

rank_injective : (b b' : ParamBehavior) → IsKnown b → IsKnown b' → rank b ≡ rank b' → b ≡ b'
unfolding rank
rank_injective b b' k k' e = ground arith

pub slack_of-le : (x y : List ParamBehavior) → UnderAll x y → slack_of y ≤ slack_of x
unfolding slack_of
slack_of-le [] [] u = omega arith
slack_of-le [] (b ∷ bs) u = absurd u
slack_of-le (b ∷ bs) [] u = absurd u
slack_of-le (b ∷ bs) (b' ∷ bs') (u, us) = omega (arith, u.0, slack_of-le bs bs' us)

pub slack_of-lt :
    (x y : List ParamBehavior)
    → UnderAll x y
    → All IsKnown x
    → All IsKnown y
    → (x ≡ y → ⊥)
    → slack_of y < slack_of x
unfolding slack_of
slack_of-lt [] [] u k k' ne = absurd (ne refl)
slack_of-lt [] (b ∷ bs) u k k' ne = absurd u
slack_of-lt (b ∷ bs) [] u k k' ne = absurd u
slack_of-lt (b ∷ bs) (b' ∷ bs') (u, us) (k, ks) (k', ks') ne =
    elim (Bool-cases (rank b == rank b')) [
      | inl e ↦
          let q : b ≡ b' = rank_injective b b' k k' (ground arith) in
          let ih = slack_of-lt bs bs' us ks ks' (λ r. ne (cc)) in omega (arith, u.0, ih, ap rank q)
      | inr e ↦
          let lt : rank b < rank b' = ground arith in
          omega (arith, lt, rank_le b', slack_of-le bs bs' us)
    ]

slack_from-before :
    (c : ContractTable) (f : ℕ) (y : List ParamBehavior) (n : ℕ) (ds : List Def)
    → f < n
    → slack_from (update c f (some y)) n ds ≡ slack_from c n ds
unfolding slack_from
slack_from-before c f y n [] h = refl
slack_from-before c f y n (d ∷ ds) h =
    let e : (f == n) ≡ false = ground arith in
    rw e (
      ap (λ (t : ℕ). slack_of (or_empty (c n)) + t)
        (slack_from-before c f y (suc n) ds (omega arith)))

pub slack_from-lt :
    (c : ContractTable) (f : ℕ) (x y : List ParamBehavior) (n : ℕ) (ds : List Def)
    → n ≤ f
    → f < n + length ds
    → c f ≡ some x
    → slack_of y < slack_of x
    → slack_from (update c f (some y)) n ds < slack_from c n ds
unfolding slack_from
slack_from-lt c f x y n [] p q e h = absurd (omega arith)
slack_from-lt c f x y n (d ∷ ds) p q e h = elim (Bool-cases (f == n)) [
  | inl t ↦
      let r : f ≡ n = ground arith in
      let u : c n ≡ some x = ap c (sym r) ∙ e in
      rw (t, u) (omega (arith, slack_from-before c f y (suc n) ds (omega arith)))
  | inr t ↦
      let lt : suc n ≤ f = ground arith in
      rw t (omega (arith, slack_from-lt c f x y (suc n) ds lt (omega arith) e h))
]

mul_below : (a' a k : ℕ) → a' < a → a' * k + k ≤ a * k
mul_below a' a k h = grind arith

-- A raised contract outweighs the callers that it sends back to the worklist.
pub distance_falls :
    (a a' l w n r k : ℕ) → a' < a → w ≡ r → l ≤ w + k → k ≤ n → a' * suc n + l < a * suc n + suc r
distance_falls a a' l w n r k lt e len bound = omega (arith, mul_below a' a (suc n) lt)
