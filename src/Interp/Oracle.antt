-- ===== src/Interp/Oracle.antt =====
-- The borrow contract at a call: `call_value` of crates/ontixa-interpreter/src/interp.rs.
use ontixa.Prelude.{
  ℕ, zero, suc, Bool, true, false, List, [], ◌∷◌, ◌++◌, Option, none, some, length, get_elem?, set,
  All, All-left, All-right, map, ◌==◌, ◌≡◌, refl, sym, ◌∙◌, ap, subst, ◌⊎◌, inl, inr, arith,
  if◌then◌else◌,
}
use ontixa.Mir.{Operand, ParamBehavior, bare, consumes_arg, place}
use ontixa.Interp.Value.{
  Floats, Value, Heap, M, done, trap, ◌>>=◌, pure, get_or_fail, load, store, alloc, values_eq,
  all_eq, cells_eq, deep_eq, struct, variant, array, hole, hole_read, bad_local,
}
use ontixa.Interp.Outcomes.{>>=-done, done-inj, get_or_fail-done}
use ontixa.Interp.Exec.{
  cell, project_all, operand, not_hole, Passed, still_owned, give, pass, pass_all, all_consumed,
  all_shared, poison, require, check_shared, call_value,
}

module _ (F : Floats) where
  -- A computation that leaves the heap as it is, when it ends well.
  abbrev Reads : {A : Type 0} → M F A → Type 0
  Reads {A = A} m = (h : Heap F) (a : A) (h' : Heap F) → m h ≡ done a h' → h ≡ h'

  pub load-Reads : (c : ℕ) → Reads (load F c)
  unfolding load
  load-Reads c h a h' p = ground arith

  bind-Reads :
      {A B : Type 0} (m : M F A) (f : A → M F B)
      → Reads m
      → ((a : A) → Reads (f a))
      → Reads (m >>= f)
  bind-Reads m f p q h b h₂ r = let (a, h₁, s, t) = >>=-done m f h r in p h a h₁ s ∙ q a h₁ b h₂ t

  pure-Reads : {A : Type 0} (a : A) → Reads (pure a)
  pure-Reads a h b h' p = (done-inj p).1

  all_eq-Reads :
      (f : Value F → Value F → M F Bool)
      → ((a b : Value F) → Reads (f a b))
      → (cs ds : List ℕ) → Reads (all_eq F f cs ds)
  unfolding all_eq
  all_eq-Reads f p (c ∷ cs) (d ∷ ds) = bind-Reads (load F c) _ (load-Reads c) λ x.
      bind-Reads (load F d) _ (load-Reads d)
        λ y. bind-Reads (f x y) _ (p x y) (rest (all_eq-Reads f p cs ds))
    where
      rest :
          Reads (all_eq F f cs ds)
          → (b : Bool) → Reads (elim b [ true ↦ all_eq F f cs ds | false ↦ pure false ])
      rest q true = q
      rest q false = pure-Reads false
  all_eq-Reads f p [] ds = pure-Reads true
  all_eq-Reads f p (c ∷ cs) [] = pure-Reads true

  if-Reads : {A : Type 0} (t : Bool) (m k : M F A) → Reads m → Reads k → Reads (if t then m else k)
  if-Reads true m k p q = p
  if-Reads false m k p q = q

  cells_eq-Reads :
      (f : Value F → Value F → M F Bool)
      → ((a b : Value F) → Reads (f a b))
      → (cs ds : List ℕ) → Reads (cells_eq F f cs ds)
  unfolding cells_eq
  cells_eq-Reads f p cs ds =
      if-Reads (length cs == length ds) _ _ (all_eq-Reads f p cs ds) (pure-Reads false)

  deep_eq-Reads : (n : ℕ) (a b : Value F) → Reads (deep_eq F n a b)
  unfolding deep_eq
  deep_eq-Reads zero a b = λ h b h' p. cc
  deep_eq-Reads (suc n) (struct da fa) (struct db fb) =
      if-Reads _ _ _ (cells_eq-Reads _ (deep_eq-Reads n) fa fb) (pure-Reads false)
  deep_eq-Reads (suc n) (array ea) (array eb) = cells_eq-Reads _ (deep_eq-Reads n) ea eb
  deep_eq-Reads (suc n) (variant da ta pa) (variant db tb pb) =
      if-Reads _ _ _ (cells_eq-Reads _ (deep_eq-Reads n) pa pb) (pure-Reads false)
  deep_eq-Reads (suc n) a b = pure-Reads (values_eq F a b)

  -- The cell reads as a hole.
  unfoldable pub Moved : Heap F → ℕ → Type 0
  Moved h c = load F c h ≡ done hole h

  -- The cell holds a value equal to the snapshot.
  unfoldable pub Unchanged : ℕ → Heap F → ℕ × Value F → Type 0
  Unchanged fuel h (c, before) =
      (now : Value F) × (load F c h ≡ done now h) × (deep_eq F fuel now before h ≡ done true h)

  get_elem?-set :
      (h : Heap F) (d c : ℕ) (v : Value F)
      → (get_elem? (set h d v) c ≡ get_elem? h c) ⊎ (get_elem? (set h d v) c ≡ some v)
  get_elem?-set [] d c v = inl refl
  get_elem?-set (x ∷ h) zero zero v = inr refl
  get_elem?-set (x ∷ h) zero (suc c) v = inl refl
  get_elem?-set (x ∷ h) (suc d) zero v = inl refl
  get_elem?-set (x ∷ h) (suc d) (suc c) v = get_elem?-set h d c v

  get_elem?-set_same :
      (h : Heap F) (c : ℕ) (v : Value F)
      → (get_elem? (set h c v) c ≡ none) ⊎ (get_elem? (set h c v) c ≡ some v)
  get_elem?-set_same [] c v = inl refl
  get_elem?-set_same (x ∷ h) zero v = inr refl
  get_elem?-set_same (x ∷ h) (suc c) v = get_elem?-set_same h c v

  poison-ends : (cs : List ℕ) (h : Heap F) → (h' : Heap F) × (poison F cs h ≡ done tt h')
  unfolding poison store
  poison-ends [] h = (h, refl)
  poison-ends (c ∷ cs) h = poison-ends cs (set h c hole)

  store-Moved : (h : Heap F) (c d : ℕ) → Moved h c → Moved (set h d hole) c
  unfolding Moved load
  store-Moved h c d p = elim (get_elem?-set h d c hole) [
    | inl e ↦ ground arith
    | inr e ↦ ground arith
  ]

  set-Moved : (h : Heap F) (c : ℕ) → Moved (set h c hole) c
  unfolding Moved load
  set-Moved h c = elim (get_elem?-set_same h c hole) [ inl e ↦ ground arith | inr e ↦ ground arith ]

  poison-keeps :
      (cs : List ℕ) (h h' : Heap F) (c : ℕ) → poison F cs h ≡ done tt h' → Moved h c → Moved h' c
  unfolding poison store
  poison-keeps [] h h' c p q = subst (λ k. Moved k c) (done-inj p).1 q
  poison-keeps (d ∷ cs) h h' c p q = poison-keeps cs (set h d hole) h' c p (store-Moved h c d q)

  poison-Moved : (cs : List ℕ) (h h' : Heap F) → poison F cs h ≡ done tt h' → All (Moved h') cs
  unfolding poison store
  poison-Moved [] h h' p = tt
  poison-Moved (c ∷ cs) h h' p = (poison-keeps cs _ h' c p (set-Moved h c), poison-Moved cs _ h' p)

  require-true :
      (b : Bool) (h h' : Heap F) {u : Unit {0}} → require F b h ≡ done u h' → (b ≡ true) × (h ≡ h')
  unfolding require
  require-true true h h' p = (refl, (done-inj p).1)
  require-true false h h' p = absurd (let q : ⊥ = cc in q)

  check_shared-Unchanged :
      (n : ℕ) (xs : List (ℕ × Value F)) (h h' : Heap F)
      → check_shared F n xs h ≡ done tt h'
      → (h ≡ h') × All (Unchanged n h) xs
  unfolding check_shared Unchanged
  check_shared-Unchanged n [] h h' p = ((done-inj p).1, tt)
  check_shared-Unchanged n ((c, before) ∷ xs) h h' p =
      let (now, h₁, p₁, q₁) = >>=-done (load F c) _ h p in
      let (b, h₂, p₂, q₂) = >>=-done (deep_eq F n now before) _ h₁ q₁ in
      let (_, h₃, p₃, q₃) = >>=-done (require F b) _ h₂ q₂ in
      let e : h ≡ h₁ = load-Reads c h now h₁ p₁ in
      let e' : h₁ ≡ h₂ = deep_eq-Reads n now before h₁ b h₂ p₂ in
      let (t, e'') = require-true b h₂ h₃ p₃ in
      let (r, all) = check_shared-Unchanged n xs h₃ h' q₃ in
      let s : h₃ ≡ h = cc in (cc, ((now, cc, cc), subst (λ k. All (Unchanged n k) xs) s all))

  -- Where an argument of the caller that is a variable stands, and what its callee does with it.
  unfoldable pub behavior_at : List ParamBehavior → ℕ → ParamBehavior
  behavior_at [] i = ParamBehavior.unknown
  behavior_at (b ∷ bs) zero = b
  behavior_at (b ∷ bs) (suc i) = behavior_at bs i

  give-consumed :
      (locals : List ℕ) (l : ℕ) (h : Heap F) (x : Passed F) (h' : Heap F)
      → give F locals (bare l) h ≡ done x h'
      → (c : ℕ) × (get_elem? locals l ≡ some c) × (x.consumed ≡ c ∷ [])
  unfolding give cell project_all bare alloc
  give-consumed locals l h x h' p =
      let (c, h₁, p₁, q₁) = >>=-done (cell F locals (bare l)) _ h p in
      let (c', h₂, p₂, q₂) = >>=-done (get_or_fail bad_local (get_elem? locals l)) _ h p₁ in
      let (v, h₃, p₃, q₃) = >>=-done (load F c) _ h₁ q₁ in
      let (w, h₄, p₄, q₄) = >>=-done (still_owned F v) _ h₃ q₃ in
      (
        c,
        (get_or_fail-done bad_local (get_elem? locals l) h p₂).0 ∙ ap some (done-inj q₂).0,
        sym (ap (λ (y : Passed F). y.consumed) (done-inj q₄).0),
      )

  pass-consumed :
      (n : ℕ) (locals : List ℕ) (b : ParamBehavior) (l : ℕ) (h : Heap F) (x : Passed F)
      (h' : Heap F)
      → pass F n locals b (place (bare l)) h ≡ done x h'
      → consumes_arg b ≡ true
      → (c : ℕ) × (get_elem? locals l ≡ some c) × (x.consumed ≡ c ∷ [])
  unfolding pass consumes_arg
  pass-consumed n locals ParamBehavior.move l h x h' p e = give-consumed locals l h x h' p
  pass-consumed n locals ParamBehavior.escape l h x h' p e = give-consumed locals l h x h' p
  pass-consumed n locals ParamBehavior.unknown l h x h' p e = give-consumed locals l h x h' p
  pass-consumed n locals ParamBehavior.copy l h x h' p e = absurd cc
  pass-consumed n locals ParamBehavior.borrow l h x h' p e = absurd cc
  pass-consumed n locals ParamBehavior.borrow_mut l h x h' p e = absurd cc

  -- The argument that is passed first.
  first-consumed :
      (n : ℕ) (locals : List ℕ) (b : ParamBehavior) (op : Operand F.Float) (l : ℕ) (P : ℕ → Type 0)
      (zs : List ℕ) (h : Heap F) (x : Passed F) (h' : Heap F)
      → pass F n locals b op h ≡ done x h'
      → some op ≡ some (place (bare l))
      → consumes_arg b ≡ true
      → All P (x.consumed ++ zs)
      → (c : ℕ) × (get_elem? locals l ≡ some c) × P c
  first-consumed n locals b op l P zs h x h' p e t a =
      let e' : op ≡ place (bare l) = ground arith in
      let p' : pass F n locals b (place (bare l)) h ≡ done x h' = cc in
      let (c, q, r) = pass-consumed n locals b l h x h' p' t in
      let a' : All P (c ∷ []) = subst (All P) r (All-left P x.consumed zs a) in (c, q, a'.0)

  pass_all-consumed :
      (n : ℕ) (locals : List ℕ) (contract : List ParamBehavior) (args : List (Operand F.Float))
      (i l : ℕ) (P : ℕ → Type 0) (h : Heap F) (xs : List (Passed F)) (h' : Heap F)
      → pass_all F n locals contract args h ≡ done xs h'
      → get_elem? args i ≡ some (place (bare l))
      → consumes_arg (behavior_at contract i) ≡ true
      → All P (all_consumed F xs)
      → (c : ℕ) × (get_elem? locals l ≡ some c) × P c
  unfolding pass_all all_consumed behavior_at
  pass_all-consumed n locals contract [] i l P h xs h' p e t a = absurd (ground arith)
  pass_all-consumed n locals [] (op ∷ ops) zero l P h xs h' p e t a =
      let (x, h₁, p₁, q₁) = >>=-done (pass F n locals ParamBehavior.unknown op) _ h p in
      let (ys, h₂, p₂, q₂) = >>=-done (pass_all F n locals [] ops) _ h₁ q₁ in
      let a' : All P (x.consumed ++ all_consumed F ys) =
        subst (λ zs. All P (all_consumed F zs)) (sym (done-inj q₂).0) a in
      first-consumed n locals ParamBehavior.unknown op l P (all_consumed F ys) h x h₁ p₁ e t a'
  pass_all-consumed n locals [] (op ∷ ops) (suc i) l P h xs h' p e t a =
      let (x, h₁, p₁, q₁) = >>=-done (pass F n locals ParamBehavior.unknown op) _ h p in
      let (ys, h₂, p₂, q₂) = >>=-done (pass_all F n locals [] ops) _ h₁ q₁ in
      let a' : All P (x.consumed ++ all_consumed F ys) =
        subst (λ zs. All P (all_consumed F zs)) (sym (done-inj q₂).0) a in
      pass_all-consumed n locals [] ops i l P h₁ ys h₂ p₂ e t (All-right P x.consumed _ a')
  pass_all-consumed n locals (b ∷ bs) (op ∷ ops) zero l P h xs h' p e t a =
      let (x, h₁, p₁, q₁) = >>=-done (pass F n locals b op) _ h p in
      let (ys, h₂, p₂, q₂) = >>=-done (pass_all F n locals bs ops) _ h₁ q₁ in
      let a' : All P (x.consumed ++ all_consumed F ys) =
        subst (λ zs. All P (all_consumed F zs)) (sym (done-inj q₂).0) a in
      first-consumed n locals b op l P (all_consumed F ys) h x h₁ p₁ e t a'
  pass_all-consumed n locals (b ∷ bs) (op ∷ ops) (suc i) l P h xs h' p e t a =
      let (x, h₁, p₁, q₁) = >>=-done (pass F n locals b op) _ h p in
      let (ys, h₂, p₂, q₂) = >>=-done (pass_all F n locals bs ops) _ h₁ q₁ in
      let a' : All P (x.consumed ++ all_consumed F ys) =
        subst (λ zs. All P (all_consumed F zs)) (sym (done-inj q₂).0) a in
      pass_all-consumed n locals bs ops i l P h₁ ys h₂ p₂ e t (All-right P x.consumed _ a')

  -- Reading a variable whose cell is a hole traps.
  operand-Moved :
      (locals : List ℕ) (l c : ℕ) (h : Heap F)
      → get_elem? locals l ≡ some c
      → Moved h c
      → operand F locals (place (bare l)) h ≡ trap hole_read
  unfolding operand cell project_all bare Moved not_hole
  operand-Moved locals l c h p q = ground arith

  module _ (shape : ℕ → Option ℕ) (n : ℕ) (f : ℕ → List ℕ → M F (Value F)) where
    -- A call that returns has passed its arguments, run its callee, and found the contract kept:
    -- every consumed cell is a hole, and every shared cell still equals its snapshot.
    pub call_value-contract :
        (locals : List ℕ) (def : ℕ) (args : List (Operand F.Float)) (contract : List ParamBehavior)
        (h : Heap F) (v : Value F) (h' : Heap F)
        → call_value F shape n f locals def args contract h ≡ done v h'
        → (xs : List (Passed F)) × (h₁ : Heap F) × (h₂ : Heap F) × (pass_all F n locals contract
              args h
            ≡ done xs h₁)
          × (f def (map (λ (x : Passed F). x.cell) xs) h₁ ≡ done v h₂)
          × All (Moved h') (all_consumed F xs)
          × All (Unchanged n h') (all_shared F xs)
    unfolding call_value
    call_value-contract locals def args contract h v h' p =
        let (xs, h₁, p₁, q₁) = >>=-done (pass_all F n locals contract args) _ h p in
        let (w, h₂, p₂, q₂) = >>=-done (f def (map (λ (x : Passed F). x.cell) xs)) _ h₁ q₁ in
        let (_, h₃, p₃, q₃) = >>=-done (poison F (all_consumed F xs)) _ h₂ q₂ in
        let (_, h₄, p₄, q₄) = >>=-done (check_shared F n (all_shared F xs)) _ h₃ q₃ in
        let (r, all) = check_shared-Unchanged n (all_shared F xs) h₃ h₄ p₄ in
        let (e, e') = done-inj q₄ in
        (
          xs,
          h₁,
          h₂,
          p₁,
          p₂ ∙ ap (λ u. done u h₂) e,
          subst (λ k. All (Moved k) (all_consumed F xs)) (r ∙ e')
              (poison-Moved (all_consumed F xs) h₂ h₃ p₃),
          subst (λ k. All (Unchanged n k) (all_shared F xs)) (r ∙ e') all,
        )

    -- When a call returns and its contract lets the callee consume argument `i`, and that argument is
    -- the variable `l`, a later read of `l` traps with the message of a moved value.
    pub call_value-moved :
        (locals : List ℕ) (def : ℕ) (args : List (Operand F.Float)) (contract : List ParamBehavior)
        (i l : ℕ) (h : Heap F) (v : Value F) (h' : Heap F)
        → call_value F shape n f locals def args contract h ≡ done v h'
        → get_elem? args i ≡ some (place (bare l))
        → consumes_arg (behavior_at contract i) ≡ true
        → operand F locals (place (bare l)) h' ≡ trap hole_read
    call_value-moved locals def args contract i l h v h' p e t =
        let (xs, h₁, h₂, p₁, p₂, all, _) = call_value-contract locals def args contract h v h' p in
        let (c, q, m) =
          pass_all-consumed n locals contract args i l (Moved h') h xs h₁ p₁ e t all in
        operand-Moved locals l c h' q m
