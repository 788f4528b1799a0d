-- ===== src/Memory/Order.antt =====
-- The order of contracts and of usage facts, for the walk of crates/ontixa-memory/src/analyze.rs.
use ontixa.Prelude.{
  ℕ, ◌≤◌, Bool, true, false, ◌||◌, List, [], ◌∷◌, ◌==◌, ◌≡◌, refl, if◌then◌else◌, Bool-cases, inl,
  inr, arith,
}
use ontixa.Types.Ty.{Ty}
use ontixa.Mir.{ParamBehavior}
use ontixa.Memory.Facts.{
  ParamFacts, Ctx, Carriers, Collector, Walk, pure, ◌>>=◌, ◌>>◌, ◌⊔◌, update, modify, nothing,
  classify,
}

-- `copy < borrow < borrow_mut < move < escape`; `unknown` is treated as `move`.
unfoldable pub rank : ParamBehavior → ℕ
rank ParamBehavior.copy = 0
rank ParamBehavior.borrow = 1
rank ParamBehavior.borrow_mut = 2
rank ParamBehavior.move = 3
rank ParamBehavior.unknown = 3
rank ParamBehavior.escape = 4

-- The strongest flag that is set.
unfoldable pub level : ParamFacts → ℕ
level f =
    if f.escaped
    then 4
    else (if f.moved then 3 else (if f.mutated then 2 else (if f.read then 1 else 0)))

-- Up to what is below 1: there the two agree.
abbrev pub Under : ℕ → ℕ → Type 0
Under a b = (a ≤ b) × (1 ≤ b → 1 ≤ a)

pub Under-refl : (a : ℕ) → Under a a
Under-refl a = (omega arith, λ p. p)

pub Under-trans : (a b c : ℕ) → Under a b → Under b c → Under a c
Under-trans a b c (p, p') (q, q') = (omega arith, λ r. p' (q' r))

-- The contract vectors have one length, and each behaviour is under its counterpart.
abbrev pub UnderAll : List ParamBehavior → List ParamBehavior → Type 0
UnderAll [] [] = Unit
UnderAll (b ∷ bs) (c ∷ cs) = Under (rank b) (rank c) × UnderAll bs cs
UnderAll [] (c ∷ cs) = ⊥
UnderAll (b ∷ bs) [] = ⊥

pub UnderAll-refl : (bs : List ParamBehavior) → UnderAll bs bs
UnderAll-refl [] = tt
UnderAll-refl (b ∷ bs) = (Under-refl (rank b), UnderAll-refl bs)

pub UnderAll-trans :
    (as' bs cs : List ParamBehavior) → UnderAll as' bs → UnderAll bs cs → UnderAll as' cs
UnderAll-trans [] [] [] p q = tt
UnderAll-trans (a ∷ as') (b ∷ bs) (c ∷ cs) (p, p') (q, q') =
    (Under-trans (rank a) (rank b) (rank c) p q, UnderAll-trans as' bs cs p' q')
UnderAll-trans [] [] (c ∷ cs) p q = q
UnderAll-trans [] (b ∷ bs) cs p q = absurd p
UnderAll-trans (a ∷ as') [] cs p q = absurd p
UnderAll-trans (a ∷ as') (b ∷ bs) [] p q = q

-- `read` is under `move`.
abbrev pub UnderCtx : Ctx → Ctx → Type 0
UnderCtx Ctx.read c = Unit
UnderCtx Ctx.move Ctx.move = Unit
UnderCtx Ctx.move Ctx.read = ⊥

abbrev pub Sub : Carriers → Carriers → Type 0
Sub c c' = (i : ℕ) → c i ≡ true → c' i ≡ true

-- Each parameter of the set has a flag.
abbrev pub Used : Carriers → Collector → Type 0
Used c s = (i : ℕ) → c i ≡ true → 1 ≤ level (s.facts i)

abbrev pub Grows : Collector → Collector → Type 0
Grows s t = (i : ℕ) → level (s.facts i) ≤ level (t.facts i)

pub record Below (s s' : Collector) : Type 0 where
  pub levels : (i : ℕ) → Under (level (s.facts i)) (level (s'.facts i))
  pub carried : (sym : ℕ) → Sub (s.carriers sym) (s'.carriers sym)
  pub carried_used : (sym : ℕ) → Used (s'.carriers sym) s'

-- The results of two walks, the second of which began at `s'`.
pub record Related (s' : Collector) (x x' : Carriers × Collector) : Type 0 where
  pub sub : Sub (x.0) (x'.0)
  pub used : Used (x'.0) (x'.1)
  pub below : Below (x.1) (x'.1)
  pub grows : Grows s' (x'.1)

infix 50 ◌≼◌ ◌≼ₖ◌
abbrev pub ◌≼◌ : Walk → Walk → Type 0
m ≼ m' = (s s' : Collector) → Below s s' → Related s' (m s) (m' s')

abbrev pub ◌≼ₖ◌ : (Carriers → Walk) → (Carriers → Walk) → Type 0
k ≼ₖ k' =
    (c c' : Carriers) (s s' : Collector)
    → Below s s'
    → Sub c c'
    → Used c' s'
    → Related s' (k c s) (k' c' s')

-- A change of the state on both sides.
abbrev pub Moves : (Collector → Collector) → (Collector → Collector) → Type 0
Moves f f' = (s s' : Collector) → Below s s' → Below (f s) (f' s') × Grows s' (f' s')

pub bind-≼ : (m m' : Walk) (k k' : Carriers → Walk) → m ≼ m' → k ≼ₖ k' → (m >>= k) ≼ (m' >>= k')
bind-≼ m m' k k' p q s s' b =
    let r = p s s' b in
    let t = q ((m s).0) ((m' s').0) ((m s).1) ((m' s').1) r.below r.sub r.used in
    record {
      sub = t.sub;
      used = t.used;
      below = t.below;
      grows = λ i. omega (arith, r.grows i, t.grows i);
    }

pub then-≼ : (m m' k k' : Walk) → m ≼ m' → k ≼ k' → (m >> k) ≼ (m' >> k')
then-≼ m m' k k' p q = bind-≼ m m' (λ c. k) (λ c. k') p λ c c' s s' b _ _. q s s' b

pub union_sub :
    (a a' b b' : Bool)
    → (a ≡ true → a' ≡ true)
    → (b ≡ true → b' ≡ true)
    → (a || b) ≡ true
    → (a' || b') ≡ true
union_sub true a' b b' p q h = rw (p refl) refl
union_sub false true b b' p q h = refl
union_sub false false b b' p q h = q h

pub union_used : {P : Type 0} (a b : Bool) → (a ≡ true → P) → (b ≡ true → P) → (a || b) ≡ true → P
union_used true b p q h = p refl
union_used false b p q h = q h

pub join-≼ : (m m' k k' : Walk) → m ≼ m' → k ≼ k' → (m ⊔ k) ≼ (m' ⊔ k')
join-≼ m m' k k' p q = bind-≼ m m' _ _ p λ c c' s s' b sub used.
    let r = q s s' b in
    record {
      sub = λ i. union_sub (c i) (c' i) ((k s).0 i) ((k' s').0 i) (sub i) (r.sub i);
      used =
          λ i. union_used (c' i) ((k' s').0 i) (λ e. omega (arith, used i e, r.grows i)) (r.used i);
      below = r.below;
      grows = r.grows;
    }

pub pure-≼ : pure ≼ₖ pure
pure-≼ c c' s s' b sub used = record { sub = sub; used = used; below = b; grows = λ i. omega arith }

pub nothing-≼ : nothing ≼ nothing
nothing-≼ s s' b = record {
  sub = λ i p. p;
  used = λ i p. absurd (ground arith);
  below = b;
  grows = λ i. omega arith;
}

pub modify-≼ : (f f' : Collector → Collector) → Moves f f' → modify f ≼ modify f'
modify-≼ f f' p s s' b =
    let (below, grows) = p s s' b in
    record { sub = λ i q. q; used = λ i q. absurd (ground arith); below = below; grows = grows }

-- The carriers of one symbol change on both sides.
pub Below-carry :
    (s s' : Collector) (sym : ℕ) (c c' : Carriers)
    → Below s s'
    → Sub c c'
    → Used c' s'
    → Below
        (record s { carriers = update s.carriers sym c })
        (record s' { carriers = update s'.carriers sym c' })
Below-carry s s' sym c c' b sub used = record {
  levels = b.levels;
  carried = λ x. elim (Bool-cases (sym == x)) [ inl e ↦ rw e sub | inr e ↦ rw e (b.carried x) ];
  carried_used =
      λ x. elim (Bool-cases (sym == x)) [ inl e ↦ rw e used | inr e ↦ rw e (b.carried_used x) ];
}

-- The facts of both sides change and grow.
pub Below-facts :
    (s s' t t' : Collector)
    → Below s s'
    → t.carriers ≡ s.carriers
    → t'.carriers ≡ s'.carriers
    → ((i : ℕ) → Under (level (t.facts i)) (level (t'.facts i)))
    → Grows s' t'
    → Below t t'
Below-facts s s' t t' b p p' levels grows = record {
  levels = levels;
  carried = λ sym. rw (p, p') (b.carried sym);
  carried_used = λ sym i h. omega (arith, grows i, b.carried_used sym i (rw p' at h));
}

-- The contract that facts give is monotone in them, where they agree on what is used at all.
pub classify-Under :
    (ty : Ty) (f f' : ParamFacts)
    → Under (level f) (level f')
    → Under (rank (classify ty f)) (rank (classify ty f'))
unfolding classify level rank
classify-Under ty f f' h = ground arith
