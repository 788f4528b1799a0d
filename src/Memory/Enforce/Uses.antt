-- ===== src/Memory/Enforce/Uses.antt =====
-- A use, an assignment and a loan cover what they do to a path: `use_var`, `assign_place`, `add_loan`
-- and `check_move_loans` of crates/ontixa-memory/src/analyze.rs.
use ontixa.Prelude.{
  ℕ, ◌≤◌, Bool, true, false, not, ◌&&◌, List, [], ◌∷◌, Option, none, some, ◌≡◌, refl, sym, ◌∙◌,
  subst, ◌==◌, if◌then◌else◌, Bool-cases, Option-cases, inl, inr, length, arith,
}
use ontixa.Source.Span.{Span}
use ontixa.Types.Ty.{is_copy}
use ontixa.Hir.{HirPlace, HirBody, HirPat, Name, TypeTables}
use ontixa.Memory.Place.{Place}
use ontixa.Memory.Facts.{Ctx, update}
use ontixa.Memory.Enforce.State.{
  BindingState, States, Enforcer, Region, LoanKind, live, or_blank, check_init, check_moved, taken,
  type_of, use_var, check_assign, is_first_init, write_place, assign_place, check_mutable, add_loan,
  find_conflict, check_move_loans, find_overlap,
}
use ontixa.Memory.Enforce.Walk.{enter, check_move, set_live, bind_all, bind_pattern}
use ontixa.Memory.Enforce.Paths.{
  Spot, reached, stay, put, put_all, put_pattern, spend, leaves, assign, Scope, enter_scope,
  enter_all, enter_pattern,
}
use ontixa.Memory.Enforce.Sound.{
  IsLive, Dom, Holds, Good, Sound, Sound-seq, Sound-stay, Sound-quiet, Sound-leave, Sound-set,
  update-Dom, update-Holds, check_init-quiet, check_moved-quiet, length-report,
}

-- A binding in scope stays in scope.
pub enter_same : (g : Scope) (x y : ℕ) → g x ≡ true → g y ≡ true → enter_scope g x y ≡ true
enter_same g x y p q = ground arith

module _ (tables : TypeTables) (b : HirBody) where
  abbrev checked : BindingState → Span → Enforcer → Enforcer
  checked e at s = check_moved e.moved at (check_init e.init at s)

  -- A use that is not reported is of a binding that holds a value.
  checked-quiet :
      (e : BindingState) (at : Span) (s : Enforcer)
      → ((checked e at s).state ≡ s.state)
        × (length s.diags ≤ length (checked e at s).diags)
        × (length (checked e at s).diags ≤ length s.diags → IsLive e)
  checked-quiet e at s =
      let (p, l, w) = check_init-quiet e.init at s in
      let (p', l', w') = check_moved-quiet e.moved at (check_init e.init at s) in
      (p' ∙ p, omega arith, λ h. (w (omega arith), w' (omega arith)))

  taken-live :
      (ctx : Ctx) (copied : Bool) (at : Span) (e : BindingState)
      → IsLive (taken ctx copied at e)
      → leaves ctx copied ≡ false
  unfolding taken
  taken-live Ctx.move false at e h = absurd (let z = h.1 in cc)
  taken-live Ctx.move true at e h = refl
  taken-live Ctx.read false at e h = refl
  taken-live Ctx.read true at e h = refl

  -- What is left of a use of a binding that holds a value.
  spend-Good :
      (g : Scope) (st st' : States) (p : Spot) (x : ℕ) (after : BindingState) (ctx : Ctx)
      (copied : Bool)
      → g x ≡ true
      → st' ≡ st
      → p.holds x ≡ true
      → Holds g st p.holds
      → (IsLive after → leaves ctx copied ≡ false)
      → Good g
          (update st' x (some after))
          true
          (if leaves ctx copied then put x false p else reached p)
  spend-Good g st st' p x after ctx copied i same has h keeps =
      let h' : Holds g st' p.holds = subst (λ y. Holds g y p.holds) (sym same) h in
      elim (Bool-cases (leaves ctx copied)) [
        | inl t ↦ rw t (
          refl,
          λ y b' q.
              update-Holds g st' p.holds x after false (λ l. let z = keeps l in cc) h' y b'
                (enter_same g x y i q),
        )
        | inr t ↦ rw t (
          refl,
          λ y b' q r l. elim (Bool-cases (x == y)) [
            | inl e ↦ let z : x ≡ y = ground arith in subst (λ k. p.holds k ≡ true) z has
            | inr e ↦ h' y b' q (ground arith) l
          ],
        )
      ]

  pub Sound-use :
      (g : Scope) (x : ℕ) (at : Span) (ctx : Ctx)
      → g x ≡ true
      → Sound g g
          (use_var tables b x at ctx)
          true
          (spend x ctx (is_copy (type_of (tables.local_types x))))
  unfolding use_var spend
  Sound-use g x at ctx i s =
      let e = or_blank (s.state x) in
      let copied = is_copy (type_of (tables.local_types x)) in
      let (same, more, clean) = checked-quiet e at s in
      let after = taken ctx copied at e in
      record {
        dom = λ d y q. update-Dom g _ x after (subst (Dom g) (sym same) d) y (enter_same g x y i q);
        grow = more;
        safe = λ d c p h.
            let l = clean c in
            let (b', q) = d x i in
            let at_e : s.state x ≡ some e = rw q refl in
            let has : p.holds x ≡ true = h x e i at_e l in
            rw has (
              spend-Good g s.state (checked e at s).state p x after ctx copied i same has h
                (taken-live ctx copied at e));
      }

  check_assign-quiet :
      (t : HirPlace) (s : Enforcer)
      → ((check_assign tables b t s).state ≡ s.state)
        × (length s.diags ≤ length (check_assign tables b t s).diags)
  unfolding check_assign
  check_assign-quiet t s =
      elim (Bool-cases (
        not (b.symbol t.base).mutable
        && not (is_first_init t.fields (or_blank (s.state t.base))))) [
          | inl e ↦ rw e (refl, omega (arith, length-report s.diags _))
          | inr e ↦ rw e (refl, omega arith)
        ]

  Sound-write :
      (g : Scope) (fields : List Name) (x : ℕ) (at : Span)
      → g x ≡ true
      → Sound g g (write_place tables b fields x at) true (assign fields x)
  unfolding write_place assign spend
  Sound-write g [] x at i s =
      Sound-leave g (enter_scope g x) g _ true _ (λ y q. ground arith)
        (Sound-set g x live true λ l. refl) s
  Sound-write g (f ∷ fs) x at i s =
      let r = Sound-use g x at Ctx.read i s in
      let u = use_var tables b x at Ctx.read s in
      record {
        dom = λ d y q. update-Dom g u.state x _ (r.dom d) y (enter_same g x y i q);
        grow = r.grow;
        safe = λ d c p h. elim (Bool-cases (p.holds x)) [
          | inr e ↦ absurd (rw e at (r.safe d c p h))
          | inl e ↦
              let (_, old) : (true ≡ true) × Holds g u.state p.holds = rw e at (r.safe d c p h) in
              rw e (
                refl,
                λ y b' q w l. elim (Bool-cases (x == y)) [
                  | inl t ↦ let z : x ≡ y = ground arith in subst (λ k. p.holds k ≡ true) z e
                  | inr t ↦ old y b' q (ground arith) l
                ],
              )
        ];
      }

  pub Sound-assign :
      (g : Scope) (t : HirPlace)
      → g t.base ≡ true
      → Sound g g (assign_place tables b t) true (assign t.fields t.base)
  unfolding assign_place
  Sound-assign g t i =
      Sound-seq g g g (check_assign tables b t) _ true true stay _
        (Sound-quiet g _ (λ s. (check_assign-quiet t s).0) (λ s. (check_assign-quiet t s).1))
        (Sound-write g t.fields t.base t.span i)

  check_mutable-quiet :
      (p : Place) (s : Enforcer)
      → ((check_mutable tables b p s).state ≡ s.state)
        × (length s.diags ≤ length (check_mutable tables b p s).diags)
  unfolding check_mutable
  check_mutable-quiet p s = elim (Bool-cases (b.symbol p.base).mutable) [
    | inl e ↦ rw e (refl, omega arith)
    | inr e ↦ rw e (refl, omega (arith, length-report s.diags _))
  ]

  pub Sound-mutable : (g : Scope) (p : Place) → Sound g g (check_mutable tables b p) true stay
  Sound-mutable g p =
      Sound-quiet g _ (λ s. (check_mutable-quiet p s).0) (λ s. (check_mutable-quiet p s).1)

add_loan-quiet :
    (p : Place) (kind : LoanKind) (r : Region) (s : Enforcer)
    → ((add_loan p kind r s).state ≡ s.state)
      × (length s.diags ≤ length (add_loan p kind r s).diags)
unfolding add_loan
add_loan-quiet p kind r s = elim (Option-cases (find_conflict p kind s.loans)) [
  | inl e ↦ rw (e, add_loan) (refl, omega arith)
  | inr (l, e) ↦ rw (e, add_loan) (refl, omega (arith, length-report s.diags _))
]

pub Sound-loan :
    (g : Scope) (p : Place) (kind : LoanKind) (r : Region) → Sound g g (add_loan p kind r) true stay
Sound-loan g p kind r =
    Sound-quiet g _ (λ s. (add_loan-quiet p kind r s).0) (λ s. (add_loan-quiet p kind r s).1)

check_move_loans-quiet :
    (p : Place) (s : Enforcer)
    → ((check_move_loans p s).state ≡ s.state)
      × (length s.diags ≤ length (check_move_loans p s).diags)
unfolding check_move_loans
check_move_loans-quiet p s = elim (Option-cases (find_overlap p s.loans)) [
  | inl e ↦ rw (e, check_move_loans) (refl, omega arith)
  | inr (l, e) ↦ rw (e, check_move_loans) (refl, omega (arith, length-report s.diags _))
]

Sound-check_move : (g : Scope) (o : Option Place) → Sound g g (check_move o) true stay
Sound-check_move g none = Sound-stay g
Sound-check_move g (some p) =
    Sound-quiet g _ (λ s. (check_move_loans-quiet p s).0) (λ s. (check_move_loans-quiet p s).1)

pub Sound-enter :
    (g : Scope) (ctx : Ctx) (copied : Bool) (o : Option Place)
    → Sound g g (enter ctx copied o) true stay
unfolding enter
Sound-enter g Ctx.move false o = Sound-check_move g o
Sound-enter g Ctx.move true o = Sound-stay g
Sound-enter g Ctx.read false o = Sound-stay g
Sound-enter g Ctx.read true o = Sound-stay g

Sound-binds :
    (g : Scope) (bs : List (Option ℕ)) → Sound g (enter_all g bs) (bind_all bs) true (put_all bs)
unfolding bind_all put_all enter_all
Sound-binds g [] = Sound-stay g
Sound-binds g (none ∷ bs) = Sound-binds g bs
Sound-binds g (some x ∷ bs) =
    Sound-seq g (enter_scope g x) _ (set_live x) _ true true _ _ (Sound-set g x live true λ l. refl)
      (Sound-binds (enter_scope g x) bs)

pub Sound-pattern :
    (g : Scope) (p : HirPat) → Sound g (enter_pattern g p) (bind_pattern p) true (put_pattern p)
unfolding bind_pattern put_pattern enter_pattern
Sound-pattern g (HirPat.variant d v bs at) = Sound-binds g bs
Sound-pattern g (HirPat.bind (some x) at) = Sound-set g x live true λ l. refl
Sound-pattern g (HirPat.bind none at) = Sound-stay g
Sound-pattern g HirPat.poison = Sound-stay g
