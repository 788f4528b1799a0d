-- ===== src/Memory/Enforce/Sound.antt =====
-- What it takes for a step of the enforcement walk to cover a step of every path: the parts of
-- `Enforcer::eval` in crates/ontixa-memory/src/analyze.rs.
use ontixa.Prelude.{
  ℕ, suc, ◌≤◌, Bool, true, ◌&&◌, List, [], ◌∷◌, ◌++◌, some, ◌≡◌, refl, sym, subst, ◌==◌, Bool-cases,
  inl, inr, length, length-append, arith,
}
use ontixa.Source.Span.{Span}
use ontixa.Memory.Facts.{update}
use ontixa.Memory.Enforce.State.{
  Init, Moved, BindingState, States, Enforcer, Diagnostic, maybe_init, never, unmoved, moved,
  maybe_moved, set_state, check_init, check_moved,
}
use ontixa.Memory.Enforce.Walk.{Step, skip, ◌▸◌}
use ontixa.Memory.Enforce.Paths.{
  Spot, Outcome, Route, reached, returned, wrong, ◌⊳◌, stay, put, Scope, enter_scope,
}

abbrev pub IsLive : BindingState → Type 0
IsLive b = (b.init ≡ Init.init) × (b.moved ≡ unmoved)

-- Each binding in scope has a state.
abbrev pub Dom : Scope → States → Type 0
Dom g st = (x : ℕ) → g x ≡ true → (b : BindingState) × (st x ≡ some b)

-- A binding whose state is live holds a value.
abbrev pub Holds : Scope → States → (ℕ → Bool) → Type 0
Holds g st h = (x : ℕ) (b : BindingState) → g x ≡ true → st x ≡ some b → IsLive b → h x ≡ true

-- A path is not wrong; where it goes on, that was foreseen, and the state covers it.
abbrev pub Good : Scope → States → Bool → Outcome → Type 0
Good g st c (reached q) = (c ≡ true) × Holds g st q.holds
Good g st c returned = Unit
Good g st c wrong = ⊥

pub record SoundAt (g g' : Scope) (s t : Enforcer) (c : Bool) (k : Route) : Type 0 where
  pub dom : Dom g s.state → Dom g' t.state
  pub grow : length s.diags ≤ length t.diags
  pub safe :
      Dom g s.state
      → length t.diags ≤ length s.diags
      → (p : Spot) → Holds g s.state p.holds
      → Good g' t.state c (k p)

abbrev pub Sound : Scope → Scope → Step → Bool → Route → Type 0
Sound g g' f c k = (s : Enforcer) → SoundAt g g' s (f s) c k

and_true : (c c' : Bool) → c ≡ true → c' ≡ true → (c && c') ≡ true
and_true c c' p q = ground arith

pub Sound-seq :
    (g g1 g2 : Scope) (f f' : Step) (c c' : Bool) (k k' : Route)
    → Sound g g1 f c k
    → Sound g1 g2 f' c' k'
    → Sound g g2 (f ▸ f') (c && c') (k ⊳ k')
Sound-seq g g1 g2 f f' c c' k k' a b s =
    let r = a s in
    let r' = b (f s) in
    record {
      dom = λ d. r'.dom (r.dom d);
      grow = omega (arith, r.grow, r'.grow);
      safe = λ d clean p h.
          follow (r.dom d) (omega (arith, r.grow)) (k p) (r.safe d (omega (arith, r'.grow)) p h);
    }
  where
    also :
        c ≡ true
        → (o : Outcome) → Good g2 (f' (f s)).state c' o
        → Good g2 (f' (f s)).state (c && c') o
    also e (reached q) (e', h) = (and_true c c' e e', h)
    also e returned h = tt
    also e wrong h = h

    follow :
        Dom g1 (f s).state
        → length (f' (f s)).diags ≤ length (f s).diags
        → (o : Outcome) → Good g1 (f s).state c o
        → Good g2
            (f' (f s)).state
            (c && c')
            (elim o [ reached q ↦ k' q | returned ↦ returned | wrong ↦ wrong ])
    follow d clean (reached q) (e, h) = also e (k' q) ((b (f s)).safe d clean q h)
    follow d clean returned h = tt
    follow d clean wrong h = h

pub Sound-stay : (g : Scope) → Sound g g skip true stay
Sound-stay g s = record { dom = λ d. d; grow = omega arith; safe = λ d clean p h. (refl, h) }

-- A step that only reports.
pub Sound-quiet :
    (g : Scope) (f : Step)
    → ((s : Enforcer) → (f s).state ≡ s.state)
    → ((s : Enforcer) → length s.diags ≤ length (f s).diags)
    → Sound g g f true stay
Sound-quiet g f e l s = record {
  dom = λ d. subst (Dom g) (sym (e s)) d;
  grow = l s;
  safe = λ d clean p h. (refl, subst (λ st. Holds g st p.holds) (sym (e s)) h);
}

-- The scope narrows again.
pub Sound-leave :
    (g g' g'' : Scope) (f : Step) (c : Bool) (k : Route)
    → ((x : ℕ) → g'' x ≡ true → g' x ≡ true)
    → Sound g g' f c k
    → Sound g g'' f c k
Sound-leave g g' g'' f c k sub a s =
    let r = a s in
    record {
      dom = λ d x p. r.dom d x (sub x p);
      grow = r.grow;
      safe = λ d clean p h. narrow (k p) (r.safe d clean p h);
    }
  where
    narrow : (o : Outcome) → Good g' (f s).state c o → Good g'' (f s).state c o
    narrow (reached q) (e, h) = (e, λ x b p. h x b (sub x p))
    narrow returned h = tt
    narrow wrong h = h

-- The walk foresees more.
pub Sound-more :
    (g g' : Scope) (f : Step) (c c' : Bool) (k : Route)
    → (c ≡ true → c' ≡ true)
    → Sound g g' f c k
    → Sound g g' f c' k
Sound-more g g' f c c' k w a s =
    let r = a s in
    record { dom = r.dom; grow = r.grow; safe = λ d clean p h. more (k p) (r.safe d clean p h) }
  where
    more : (o : Outcome) → Good g' (f s).state c o → Good g' (f s).state c' o
    more (reached q) (e, h) = (w e, h)
    more returned h = tt
    more wrong h = h

pub update-Dom :
    (g : Scope) (st : States) (x : ℕ) (b : BindingState)
    → Dom g st
    → Dom (enter_scope g x) (update st x (some b))
update-Dom g st x b d y p = elim (Bool-cases (x == y)) [
  | inl e ↦ (b, rw e refl)
  | inr e ↦ let (b', q) = d y (ground arith) in (b', rw e q)
]

pub update-Holds :
    (g : Scope) (st : States) (h : ℕ → Bool) (x : ℕ) (b : BindingState) (v : Bool)
    → (IsLive b → v ≡ true)
    → Holds g st h
    → Holds (enter_scope g x) (update st x (some b)) (update h x v)
update-Holds g st h x b v w k y b' p q l = elim (Bool-cases (x == y)) [
  | inl e ↦ let t : b ≡ b' = ground arith in let z = w (subst IsLive (sym t) l) in rw (e, z) refl
  | inr e ↦ rw e (k y b' (ground arith) (ground arith) l)
]

-- A new state of a binding, with what the binding holds then.
pub Sound-set :
    (g : Scope) (x : ℕ) (b : BindingState) (v : Bool)
    → (IsLive b → v ≡ true)
    → Sound g (enter_scope g x) (set_state x b) true (put x v)
Sound-set g x b v w s = record {
  dom = update-Dom g s.state x b;
  grow = omega arith;
  safe = λ d clean p h. (refl, update-Holds g s.state p.holds x b v w h);
}

pub length-report :
    (ds : List Diagnostic) (d : Diagnostic) → length (ds ++ d ∷ []) ≡ suc (length ds)
length-report ds d = omega (arith, length-append ds (d ∷ []))

-- A check passes over a good part and reports the others.
pub check_init-quiet :
    (i : Init) (at : Span) (s : Enforcer)
    → ((check_init i at s).state ≡ s.state)
      × (length s.diags ≤ length (check_init i at s).diags)
      × (length (check_init i at s).diags ≤ length s.diags → i ≡ Init.init)
unfolding check_init
check_init-quiet Init.init at s = (refl, omega arith, λ h. refl)
check_init-quiet maybe_init at s = (
  refl,
  omega (arith, length-report s.diags _),
  λ h. absurd (omega (arith, length-report s.diags _)),
)
check_init-quiet never at s = (
  refl,
  omega (arith, length-report s.diags _),
  λ h. absurd (omega (arith, length-report s.diags _)),
)

pub check_moved-quiet :
    (i : Moved) (at : Span) (s : Enforcer)
    → ((check_moved i at s).state ≡ s.state)
      × (length s.diags ≤ length (check_moved i at s).diags)
      × (length (check_moved i at s).diags ≤ length s.diags → i ≡ unmoved)
unfolding check_moved
check_moved-quiet unmoved at s = (refl, omega arith, λ h. refl)
check_moved-quiet (maybe_moved t) at s = (
  refl,
  omega (arith, length-report s.diags _),
  λ h. absurd (omega (arith, length-report s.diags _)),
)
check_moved-quiet (moved t) at s = (
  refl,
  omega (arith, length-report s.diags _),
  λ h. absurd (omega (arith, length-report s.diags _)),
)
