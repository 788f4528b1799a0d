-- ===== src/Memory/Enforce/Joins.antt =====
-- A join covers the paths through both of its sides: `merge` and its uses in `Enforcer::eval` of
-- crates/ontixa-memory/src/analyze.rs.
use ontixa.Prelude.{
  ℕ, Bool, true, false, ◌||◌, Option, none, some, ◌≡◌, refl, sym, ap, subst, ◌==◌, if◌then◌else◌,
  Bool-cases, inl, inr, arith,
}
use ontixa.Memory.Facts.{update}
use ontixa.Memory.Enforce.State.{
  Init, Moved, BindingState, States, live, unmoved, merge, join_init, join_moved, join_state,
  join_entry,
}
use ontixa.Memory.Enforce.Walk.{Step, set_live, branch, join_branches, optional, loop, forget}
use ontixa.Memory.Enforce.Paths.{
  Outcome, Route, reached, returned, wrong, ◌⊳◌, stay, put, either, first_choice, other_choices,
  Scope, enter_scope,
}
use ontixa.Memory.Enforce.Sound.{IsLive, Dom, Holds, Good, Sound, Sound-seq, Sound-set}

-- A join is live only where both sides are.
pub join-IsLive : (a b : BindingState) → IsLive (join_state a b) → IsLive a × IsLive b
join-IsLive a b (p, q) = (
  (left_init a.init b.init p, left_moved a.moved b.moved q),
  (right_init a.init b.init p, right_moved a.moved b.moved q),
)
  where
    left_init : (x y : Init) → join_init x y ≡ Init.init → x ≡ Init.init
    left_init x y p = unfold join_init in ground arith

    right_init : (x y : Init) → join_init x y ≡ Init.init → y ≡ Init.init
    right_init x y p = unfold join_init in ground arith

    left_moved : (x y : Moved) → join_moved x y ≡ unmoved → x ≡ unmoved
    left_moved x y p = unfold join_moved in ground arith

    right_moved : (x y : Moved) → join_moved x y ≡ unmoved → y ≡ unmoved
    right_moved x y p = unfold join_moved in ground arith

pub merge-Dom : (g : Scope) (a b : States) → Dom g b → Dom g (merge a b)
unfolding merge
merge-Dom g a b d x p = let (e, q) = d x p in entry (a x) e q
  where
    entry :
        (o : Option BindingState) (e : BindingState)
        → b x ≡ some e
        → (e' : BindingState) × (join_entry o (b x) ≡ some e')
    entry none e q = (e, q)
    entry (some e') e q = (join_state e' e, rw q refl)

-- The parts of a live entry of a merge.
join_entry-IsLive :
    (o o' : Option BindingState) (a b e : BindingState)
    → o ≡ some a
    → o' ≡ some b
    → join_entry o o' ≡ some e
    → IsLive e
    → IsLive a × IsLive b
join_entry-IsLive o o' a b e p q r l =
    let z : join_entry (some a) (some b) ≡ some e = rw (p, q) at r in
    let s : join_state a b ≡ e = cc in join-IsLive a b (subst IsLive (sym s) l)

pub merge-left :
    (g : Scope) (a b : States) (h : ℕ → Bool)
    → Dom g a
    → Dom g b
    → Holds g a h
    → Holds g (merge a b) h
unfolding merge
merge-left g a b h da db k x e p q l =
    let (ea, pa) = da x p in
    let (eb, pb) = db x p in k x ea p pa (join_entry-IsLive (a x) (b x) ea eb e pa pb q l).0

pub merge-right :
    (g : Scope) (a b : States) (h : ℕ → Bool)
    → Dom g a
    → Dom g b
    → Holds g b h
    → Holds g (merge a b) h
unfolding merge
merge-right g a b h da db k x e p q l =
    let (ea, pa) = da x p in
    let (eb, pb) = db x p in k x eb p pb (join_entry-IsLive (a x) (b x) ea eb e pa pb q l).1

-- A good outcome under another state and another forecast.
pub Good-map :
    (g g' : Scope) (st st' : States) (c c' : Bool) (o : Outcome)
    → ((h : ℕ → Bool) → c ≡ true → Holds g st h → (c' ≡ true) × Holds g' st' h)
    → Good g st c o
    → Good g' st' c' o
Good-map g g' st st' c c' (reached q) f (e, h) = f q.holds e h
Good-map g g' st st' c c' returned f h = tt
Good-map g g' st st' c c' wrong f h = h

join-Dom :
    (g : Scope) (c c' : Bool) (t e s : States)
    → Dom g t
    → Dom g e
    → Dom g s
    → Dom g (join_branches c c' t e s)
unfolding join_branches
join-Dom g true true t e s dt de ds = merge-Dom g e t dt
join-Dom g true false t e s dt de ds = dt
join-Dom g false true t e s dt de ds = de
join-Dom g false false t e s dt de ds = ds

join-then :
    (g : Scope) (c' : Bool) (t e s : States) (h : ℕ → Bool)
    → Dom g t
    → Dom g e
    → Holds g t h
    → Holds g (join_branches true c' t e s) h
unfolding join_branches
join-then g true t e s h dt de k = merge-right g e t h de dt k
join-then g false t e s h dt de k = k

join-else :
    (g : Scope) (c : Bool) (t e s : States) (h : ℕ → Bool)
    → Dom g t
    → Dom g e
    → Holds g e h
    → Holds g (join_branches c true t e s) h
unfolding join_branches
join-else g true t e s h dt de k = merge-left g e t h de dt k
join-else g false t e s h dt de k = k

pub Sound-branch :
    (g : Scope) (f f' : Step) (c c' : Bool) (k k' : Route)
    → Sound g g f c k
    → Sound g g f' c' k'
    → Sound g g (branch c c' f f') (c || c') (either k k')
unfolding branch
Sound-branch g f f' c c' k k' a b s =
    let t = f s in
    let s' = record t { state = s.state } in
    let e = f' s' in
    let r = a s in
    let r' = b s' in
    record {
      dom = λ d. join-Dom g c c' t.state e.state s.state (r.dom d) (r'.dom d) d;
      grow = omega (arith, r.grow, r'.grow);
      safe = λ d clean p h.
          let q = record p { choices = other_choices p.choices } in
          elim (Bool-cases (first_choice p.choices)) [
            | inl w ↦ rw w (
                Good-map g g t.state _ c (c || c') (k q)
                  (λ h' u m. (
                    ground arith,
                    rw u (join-then g c' t.state e.state s.state h' (r.dom d) (r'.dom d) m),
                  ))
                  (r.safe d (omega (arith, r'.grow)) q h))
            | inr w ↦ rw w (
                Good-map g g e.state _ c' (c || c') (k' q)
                  (λ h' u m. (
                    ground arith,
                    rw u (join-else g c t.state e.state s.state h' (r.dom d) (r'.dom d) m),
                  ))
                  (r'.safe d (omega (arith, r.grow)) q h))
          ];
    }

pub Sound-optional :
    (g : Scope) (f : Step) (c : Bool) (k : Route)
    → Sound g g f c k
    → Sound g g (optional c f) true (either k stay)
unfolding optional
Sound-optional g f c k a s =
    let t = f s in
    let r = a s in
    record {
      dom = λ d. elim (Bool-cases c) [
        | inl e ↦ rw e (merge-Dom g s.state t.state (r.dom d))
        | inr e ↦ rw e d
      ];
      grow = r.grow;
      safe = λ d clean p h.
          let q = record p { choices = other_choices p.choices } in
          elim (Bool-cases (first_choice p.choices)) [
            | inl w ↦ rw w (
                Good-map g g t.state _ c true (k q)
                  (λ h' u m. (refl, rw u (merge-right g s.state t.state h' d (r.dom d) m)))
                  (r.safe d clean q h))
            | inr w ↦ rw w (
              refl,
              elim (Bool-cases c) [
                | inl e ↦ rw e (merge-left g s.state t.state p.holds d (r.dom d) h)
                | inr e ↦ rw e h
              ],
            )
          ];
    }

forget-Dom :
    (g : Scope) (x : ℕ) (st : States) → g x ≡ false → Dom (enter_scope g x) st → Dom g (forget x st)
forget-Dom g x st n d y p = elim (Bool-cases (x == y)) [
  | inl e ↦ let t : x ≡ y = ground arith in let z = ap g t in absurd (let w : ⊥ = cc in w)
  | inr e ↦ let (b, q) = d y (ground arith) in (b, rw e q)
]

forget-Holds :
    (g : Scope) (x : ℕ) (st : States) (h : ℕ → Bool)
    → g x ≡ false
    → Holds (enter_scope g x) st h
    → Holds g (forget x st) (update h x false)
forget-Holds g x st h n k y b p q l = elim (Bool-cases (x == y)) [
  | inl e ↦ let t : x ≡ y = ground arith in let z = ap g t in absurd (let w : ⊥ = cc in w)
  | inr e ↦ rw e (k y b (ground arith) (rw e at q) l)
]

pub Sound-loop :
    (g : Scope) (x : ℕ) (f : Step) (c : Bool) (k : Route)
    → g x ≡ false
    → Sound (enter_scope g x) (enter_scope g x) f c k
    → Sound g g (loop x f) true (either (put x true ⊳ k ⊳ put x false) stay)
unfolding loop
Sound-loop g x f c k n a s =
    let inner =
      Sound-seq g (enter_scope g x) (enter_scope g x) (set_live x) f true c _ k
        (Sound-set g x live true λ l. refl) a in
    let r = inner s in
    let t = f (set_live x s) in
    record {
      dom = λ d. merge-Dom g (forget x t.state) s.state d;
      grow = r.grow;
      safe = λ d clean p h.
          let q = record p { choices = other_choices p.choices } in
          let dt = forget-Dom g x t.state n (r.dom d) in
          elim (Bool-cases (first_choice p.choices)) [
            | inl w ↦ rw w (last d dt _ (r.safe d clean q h))
            | inr w ↦ rw w (refl, merge-right g (forget x t.state) s.state p.holds dt d h)
          ];
    }
  where
    last :
        Dom g s.state
        → Dom g (forget x (f (set_live x s)).state)
        → (o : Outcome) → Good (enter_scope g x) (f (set_live x s)).state c o
        → Good g
            (merge (forget x (f (set_live x s)).state) s.state)
            true
            (elim o [ reached q ↦ put x false q | returned ↦ returned | wrong ↦ wrong ])
    last d dt (reached q) (e, h) =
        (refl, merge-left g _ s.state _ dt d (forget-Holds g x _ q.holds n h))
    last d dt returned h = tt
    last d dt wrong h = h

-- A right operand, which a test says may be skipped.
pub Sound-operand :
    (g : Scope) (skipped : Bool) (f : Step) (c : Bool) (k : Route)
    → Sound g g f c k
    → Sound g g
        (if skipped then optional c f else f)
        (skipped || c)
        (if skipped then either k stay else k)
Sound-operand g true f c k a = Sound-optional g f c k a
Sound-operand g false f c k a = a
