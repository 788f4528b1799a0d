-- ===== src/Memory/Enforce/Arms.antt =====
-- The arms of a match, a check after a step and the end of a path: the parts of `Enforcer::eval` and
-- `stmt` in crates/ontixa-memory/src/analyze.rs that no other part covers.
use mathlib.Core.Path.{fun_ext}
use ontixa.Prelude.{
  ℕ, ◌≤◌, Bool, true, false, ◌&&◌, ◌||◌, List, [], ◌∷◌, Option, none, some, ◌≡◌, refl, subst,
  if◌then◌else◌, Bool-cases, inl, inr, length, arith,
}
use ontixa.Hir.{HirStmts, HirPat, done, let_then, assign_then, expr_then, return_then}
use ontixa.Memory.Enforce.State.{Enforcer, States, merge}
use ontixa.Memory.Enforce.Walk.{Step, ◌▸◌, join_arm, joined_or}
use ontixa.Memory.Enforce.Paths.{
  Spot, Outcome, Route, reached, returned, wrong, ◌⊳◌, stay, either, first_choice, other_choices,
  Scope, enter_scope, enter_all, enter_pattern, enter_stmts,
}
use ontixa.Memory.Enforce.Sound.{Dom, Holds, Good, SoundAt, Sound, Sound-seq, Sound-more}
use ontixa.Memory.Enforce.Joins.{merge-Dom, merge-left, merge-right, Good-map}

pub stay-right : (k : Route) → (k ⊳ stay) ≡ k
stay-right k = fun_ext λ p. go (k p)
  where
    go :
        (o : Outcome) → (elim o [ reached q ↦ reached q | returned ↦ returned | wrong ↦ wrong ]) ≡ o
    go (reached q) = refl
    go returned = refl
    go wrong = refl

-- A check after a step.
pub Sound-checked :
    (g : Scope) (f f' : Step) (c : Bool) (k : Route)
    → Sound g g f c k
    → Sound g g f' true stay
    → Sound g g (f ▸ f') c k
Sound-checked g f f' c k a b =
    subst (λ x. Sound g g (f ▸ f') c x) (stay-right k)
      (Sound-more g g (f ▸ f') (c && true) c (k ⊳ stay) (λ e. ground arith)
        (Sound-seq g g g f f' c true k stay a b))

-- The end of a path, after which the walk goes on.
pub Sound-return :
    (g g' : Scope) (f f' : Step) (c c' : Bool) (k k' : Route)
    → Sound g g f c k
    → Sound g g' f' c' k'
    → Sound g g' (f ▸ f') false (k ⊳ λ p. returned)
Sound-return g g' f f' c c' k k' a b s =
    let r = a s in
    let r' = b (f s) in
    record {
      dom = λ d. r'.dom (r.dom d);
      grow = omega (arith, r.grow, r'.grow);
      safe = λ d clean p h. last (k p) (r.safe d (omega (arith, r'.grow)) p h);
    }
  where
    last :
        (o : Outcome)
        → Good g (f s).state c o
        → Good g'
            (f' (f s)).state
            false
            (elim o [ reached q ↦ returned | returned ↦ returned | wrong ↦ wrong ])
    last (reached q) h = tt
    last returned h = tt
    last wrong h = h

enter_all-le : (g : Scope) (bs : List (Option ℕ)) (x : ℕ) → g x ≡ true → enter_all g bs x ≡ true
unfolding enter_all
enter_all-le g [] x p = p
enter_all-le g (none ∷ bs) x p = enter_all-le g bs x p
enter_all-le g (some y ∷ bs) x p = enter_all-le (enter_scope g y) bs x (ground arith)

pub enter_pattern-le : (g : Scope) (p : HirPat) (x : ℕ) → g x ≡ true → enter_pattern g p x ≡ true
unfolding enter_pattern
enter_pattern-le g (HirPat.variant d v bs at) x p = enter_all-le g bs x p
enter_pattern-le g (HirPat.bind (some y) at) x p = ground arith
enter_pattern-le g (HirPat.bind none at) x p = p
enter_pattern-le g HirPat.poison x p = p

pub enter_stmts-le : (g : Scope) (ss : HirStmts) (x : ℕ) → g x ≡ true → enter_stmts g ss x ≡ true
unfolding enter_stmts
enter_stmts-le g done x p = p
enter_stmts-le g (let_then y ty e at ss) x p = enter_stmts-le (enter_scope g y) ss x (ground arith)
enter_stmts-le g (assign_then t e at ss) x p = enter_stmts-le g ss x p
enter_stmts-le g (expr_then e semi ss) x p = enter_stmts-le g ss x p
enter_stmts-le g (return_then e at ss) x p = enter_stmts-le g ss x p

abbrev pub DomJoin : Scope → Option States → Type 0
DomJoin g none = Unit
DomJoin g (some j) = Dom g j

-- The walk of the arms, from the state before the match and the join so far.
pub record ArmsAt (g : Scope) (saved : States) (joined : Option States) (s t : Enforcer)
    (last c : Bool) (k : Route) : Type 0 where
  pub dom : Dom g saved → DomJoin g joined → Dom g t.state
  pub grow : length s.diags ≤ length t.diags
  pub keeps :
      Dom g saved
      → DomJoin g joined
      → (j : States) → joined ≡ some j
      → (h : ℕ → Bool) → Holds g j h
      → Holds g t.state h
  pub safe :
      Dom g saved
      → DomJoin g joined
      → length t.diags ≤ length s.diags
      → last ≡ false
      → (p : Spot) → Holds g saved p.holds
      → Good g t.state c (k p)

abbrev pub next_join : Bool → Option States → States → Option States
next_join c joined st = if c then some (join_arm joined st) else joined

next_join-Dom :
    (g : Scope) (c : Bool) (joined : Option States) (st : States)
    → DomJoin g joined
    → Dom g st
    → DomJoin g (next_join c joined st)
next_join-Dom g true none st d e = e
next_join-Dom g true (some j) st d e = merge-Dom g j st e
next_join-Dom g false joined st d e = d

join_arm-Holds :
    (g : Scope) (joined : Option States) (st : States) (h : ℕ → Bool)
    → DomJoin g joined
    → Dom g st
    → Holds g st h
    → Holds g (join_arm joined st) h
join_arm-Holds g none st h d e k = k
join_arm-Holds g (some j) st h d e k = merge-right g j st h d e k

-- One arm and the ones after it.
pub arms-cons :
    (g : Scope) (saved : States) (joined : Option States) (s u t : Enforcer) (c rest : Bool)
    (last : Bool) (k k' : Route)
    → SoundAt g g (record s { state = saved }) u c k
    → ArmsAt g saved (next_join c joined u.state) u t last rest k'
    → ArmsAt g saved joined s t false (c || rest) (if last then k else either k k')
arms-cons g saved joined s u t c rest last k k' a b = record {
  dom = λ d dj. b.dom d (next_join-Dom g c joined u.state dj (a.dom d));
  grow = omega (arith, a.grow, b.grow);
  keeps = λ d dj j e h m.
      let dj' = next_join-Dom g c joined u.state dj (a.dom d) in
      elim (Bool-cases c) [
        | inr w ↦ b.keeps d dj' j (rw w e) h m
        | inl w ↦
            let du : Dom g j = subst (DomJoin g) e dj in
            b.keeps d dj' (merge j u.state) (rw (w, e) refl) h
              (merge-left g j u.state h du (a.dom d) m)
      ];
  safe = λ d dj clean w p h.
      let dj' = next_join-Dom g c joined u.state dj (a.dom d) in
      let taken : (q : Spot) → Holds g saved q.holds → Good g t.state (c || rest) (k q) = λ q hq.
        Good-map g g u.state t.state c (c || rest) (k q)
          (λ h' e m. (
            rw e refl,
            b.keeps d dj' (join_arm joined u.state) (rw e refl) h'
                (join_arm-Holds g joined u.state h' dj (a.dom d) m),
          ))
          (a.safe d (omega (arith, b.grow)) q hq) in
      elim (Bool-cases last) [
        | inl e ↦ rw e (taken p h)
        | inr e ↦
            let q = record p { choices = other_choices p.choices } in
            rw e (elim (Bool-cases (first_choice p.choices)) [
              | inl v ↦ rw v (taken q h)
              | inr v ↦ rw v (
                  Good-map g g t.state t.state rest (c || rest) (k' q) (λ h' r m. (ground arith, m))
                    (b.safe d dj' (omega (arith, a.grow)) e q h))
            ])
      ];
}

pub arms-nil :
    (g : Scope) (saved : States) (joined : Option States) (s : Enforcer)
    → ArmsAt g saved joined s (record s { state = joined_or joined saved }) true false stay
arms-nil g saved none s = record {
  dom = λ d dj. d;
  grow = omega arith;
  keeps = λ d dj j e h m. absurd (ground arith);
  safe = λ d dj clean w p h. absurd (ground arith);
}
arms-nil g saved (some j) s = record {
  dom = λ d dj. dj;
  grow = omega arith;
  keeps = λ d dj j' e h m. let z : j' ≡ j = cc in subst (λ x. Holds g x h) z m;
  safe = λ d dj clean w p h. absurd (ground arith);
}
