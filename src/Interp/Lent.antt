-- ===== src/Interp/Lent.antt =====
-- Arguments that a call borrows: `call_value` of crates/ontixa-interpreter/src/interp.rs.
use ontixa.Prelude.{
  ℕ, Option, zero, suc, List, [], ◌∷◌, ◌++◌, some, get_elem?, All, take, All-left, All-right, ◌≡◌,
  refl, sym, ◌∙◌, ap, subst, arith,
}
use ontixa.Mir.{Operand, ParamBehavior, bare, place}
use ontixa.Interp.Value.{
  Floats, Value, Heap, M, ◌>>=◌, pure, done, get_or_fail, load, deep_clone, bad_local,
}
use ontixa.Interp.Outcomes.{>>=-done, done-inj, get_or_fail-done}
use ontixa.Interp.Exec.{cell, project_all, Passed, lend, pass, pass_all, all_shared, call_value}
use ontixa.Interp.Oracle.{Unchanged, behavior_at, load-Reads, call_value-contract}

module _ (F : Floats) where
  -- The passing of the first `i` arguments from the heap `h` ends in the heap `at_pass`.
  abbrev pub Reaches :
      ℕ → List ℕ → List ParamBehavior → List (Operand F.Float) → ℕ → Heap F → Heap F → Type 0
  Reaches n locals contract args i h at_pass =
      (ys : List (Passed F)) × (pass_all F n locals contract (take i args) h ≡ done ys at_pass)

  -- The snapshot `before` of the cell `c` in the heap `at_pass`: a deep copy of what it holds there.
  pub record Snapshot (n c : ℕ) (before : Value F) (at_pass : Heap F) : Type 0 where
    pub value : Value F
    pub copied : Heap F
    pub held : load F c at_pass ≡ done value at_pass
    pub copy_made : deep_clone F n value at_pass ≡ done before copied

  pass-shared :
      (n : ℕ) (locals : List ℕ) (l : ℕ) (h : Heap F) (x : Passed F) (h' : Heap F)
      → pass F n locals ParamBehavior.borrow (place (bare l)) h ≡ done x h'
      → (c : ℕ) × (before : Value F) × (get_elem? locals l ≡ some c)
        × (x.shared ≡ (c, before) ∷ [])
        × Snapshot n c before h
  unfolding pass lend cell project_all bare
  pass-shared n locals l h x h' p =
      let (c, h₁, p₁, q₁) = >>=-done (cell F locals (bare l)) _ h p in
      let (c', h₂, p₂, q₂) = >>=-done (get_or_fail bad_local (get_elem? locals l)) _ h p₁ in
      let (v, h₃, p₃, q₃) = >>=-done (load F c) _ h₁ q₁ in
      let (before, h₄, p₄, q₄) = >>=-done (deep_clone F n v) _ h₃ q₃ in
      let e : h₁ ≡ h₃ = load-Reads F c h₁ v h₃ p₃ in
      let start : h ≡ h₁ =
        (get_or_fail-done bad_local (get_elem? locals l) h p₂).1 ∙ (done-inj q₂).1 in
      (
        c,
        before,
        (get_or_fail-done bad_local (get_elem? locals l) h p₂).0 ∙ ap some (done-inj q₂).0,
        sym (ap (λ (y : Passed F). y.shared) (done-inj q₄).0),
        record {
          value = v;
          copied = h₄;
          held =
              subst (λ g. load F c g ≡ done v g) (sym start)
                (subst (λ g. load F c h₁ ≡ done v g) (sym e) p₃);
          copy_made = subst (λ g. deep_clone F n v g ≡ done before h₄) (sym (start ∙ e)) p₄;
        },
      )

  -- The argument that is passed first.
  first-shared :
      (n : ℕ) (locals : List ℕ) (b : ParamBehavior) (op : Operand F.Float) (l : ℕ)
      (P : ℕ × Value F → Type 0) (zs : List (ℕ × Value F)) (h : Heap F) (x : Passed F) (h' : Heap F)
      → pass F n locals b op h ≡ done x h'
      → some op ≡ some (place (bare l))
      → b ≡ ParamBehavior.borrow
      → All P (x.shared ++ zs)
      → (c : ℕ) × (before : Value F) × (get_elem? locals l ≡ some c)
        × Snapshot n c before h
        × P (c, before)
  first-shared n locals b op l P zs h x h' p e t a =
      let e' : op ≡ place (bare l) = ground arith in
      let p' : pass F n locals ParamBehavior.borrow (place (bare l)) h ≡ done x h' = cc in
      let (c, before, q, r, s) = pass-shared n locals l h x h' p' in
      let a' : All P ((c, before) ∷ []) = subst (All P) r (All-left P x.shared zs a) in
      (c, before, q, s, a'.0)

  pass_all-cons :
      (n : ℕ) (locals : List ℕ) (b : ParamBehavior) (bs : List ParamBehavior) (op : Operand F.Float)
      (ops : List (Operand F.Float)) (h : Heap F) (x : Passed F) (h₁ : Heap F)
      (xs : List (Passed F)) (h₂ : Heap F)
      → pass F n locals b op h ≡ done x h₁
      → pass_all F n locals bs ops h₁ ≡ done xs h₂
      → pass_all F n locals (b ∷ bs) (op ∷ ops) h ≡ done (x ∷ xs) h₂
  unfolding pass_all ◌>>=◌ pure
  pass_all-cons n locals b bs op ops h x h₁ xs h₂ p q = rw (p, ◌>>=◌) (rw (q, ◌>>=◌) refl)

  pass_all-shared :
      (n : ℕ) (locals : List ℕ) (contract : List ParamBehavior) (args : List (Operand F.Float))
      (i l : ℕ) (P : ℕ × Value F → Type 0) (h : Heap F) (xs : List (Passed F)) (h' : Heap F)
      → pass_all F n locals contract args h ≡ done xs h'
      → get_elem? args i ≡ some (place (bare l))
      → behavior_at F contract i ≡ ParamBehavior.borrow
      → All P (all_shared F xs)
      → (c : ℕ) × (before : Value F) × (at_pass : Heap F) × (get_elem? locals l ≡ some c)
        × Reaches n locals contract args i h at_pass
        × Snapshot n c before at_pass
        × P (c, before)
  unfolding pass_all all_shared behavior_at ◌>>=◌ pure
  pass_all-shared n locals contract [] i l P h xs h' p e t a = absurd (ground arith)
  pass_all-shared n locals [] (op ∷ ops) i l P h xs h' p e t a = absurd cc
  pass_all-shared n locals (b ∷ bs) (op ∷ ops) zero l P h xs h' p e t a =
      let (x, h₁, p₁, q₁) = >>=-done (pass F n locals b op) _ h p in
      let (ys, h₂, p₂, q₂) = >>=-done (pass_all F n locals bs ops) _ h₁ q₁ in
      let a' : All P (x.shared ++ all_shared F ys) =
        subst (λ zs. All P (all_shared F zs)) (sym (done-inj q₂).0) a in
      let (c, before, q, r, s) =
        first-shared n locals b op l P (all_shared F ys) h x h₁ p₁ e t a' in
      (c, before, h, q, ([], refl), r, s)
  pass_all-shared n locals (b ∷ bs) (op ∷ ops) (suc i) l P h xs h' p e t a =
      let (x, h₁, p₁, q₁) = >>=-done (pass F n locals b op) _ h p in
      let (ys, h₂, p₂, q₂) = >>=-done (pass_all F n locals bs ops) _ h₁ q₁ in
      let a' : All P (x.shared ++ all_shared F ys) =
        subst (λ zs. All P (all_shared F zs)) (sym (done-inj q₂).0) a in
      let (c, before, at_pass, q, (zs, z), r, s) =
        pass_all-shared n locals bs ops i l P h₁ ys h₂ p₂ e t (All-right P x.shared _ a') in
      (
        c,
        before,
        at_pass,
        q,
        (x ∷ zs, pass_all-cons n locals b bs op (take i ops) h x h₁ zs at_pass p₁ z),
        r,
        s,
      )

  -- When a call returns, its contract borrows argument `i`, and that argument is the variable `l`, then
  -- the cell of `l` holds a value that `deep_eq` finds equal to a deep copy of what the cell held when
  -- the arguments before `i` had been passed.
  pub call_value-borrowed :
      (shape : ℕ → Option ℕ) (n : ℕ) (f : ℕ → List ℕ → M F (Value F)) (locals : List ℕ) (def : ℕ)
      (args : List (Operand F.Float)) (contract : List ParamBehavior) (i l : ℕ) (h : Heap F)
      (v : Value F) (h' : Heap F)
      → call_value F shape n f locals def args contract h ≡ done v h'
      → get_elem? args i ≡ some (place (bare l))
      → behavior_at F contract i ≡ ParamBehavior.borrow
      → (c : ℕ) × (before : Value F) × (at_pass : Heap F) × (get_elem? locals l ≡ some c)
        × Reaches n locals contract args i h at_pass
        × Snapshot n c before at_pass
        × Unchanged F n h' (c, before)
  call_value-borrowed shape n f locals def args contract i l h v h' p e t =
      let (xs, h₁, h₂, p₁, p₂, _, all) =
        call_value-contract F shape n f locals def args contract h v h' p in
      pass_all-shared n locals contract args i l (Unchanged F n h') h xs h₁ p₁ e t all
