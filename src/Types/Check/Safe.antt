-- ===== src/Types/Check/Safe.antt =====
-- Runs of the type checker that report no error, and rules for the monad of
-- crates/ontixa-types/src/check.rs.
use ontixa.Prelude.{
  ℕ, ◌≡◌, refl, sym, ◌∙◌, subst, Bool, true, false, List, Option, none, some, All, All-left,
  All-right, if◌then◌else◌,
}
use ontixa.Source.Span.{Span}
use ontixa.Types.Ty.{Ty}
use ontixa.Types.Typing.{Ctx, extend}
use ontixa.Types.Check.State.{
  Code, unreachable_arm, Diagnostic, Checker, M, ◌>>=◌, ◌>>◌, pure, report, crash, get_types,
  set_ty, get_local, bind_local, resolve_node, set_slots, Resolution, fail,
}

abbrev pub is_error : Code → Bool
is_error unreachable_arm = false
is_error _ = true

error-warning : (code : Code) → is_error code ≡ true → code ≡ unreachable_arm → ⊥
error-warning code h e = let z : false ≡ true = subst (λ c. is_error c ≡ true) e h in cc

-- No panic, and warnings only.
pub record IsQuiet (s : Checker) : Type 0 where
  pub no_panic : s.panicked ≡ false
  pub warnings : All (λ (d : Diagnostic). d.code ≡ unreachable_arm) s.diags

-- What a run says of the bindings before it, its value and the bindings after it.
abbrev pub Post : Type 0 → Type 1
Post A = Ctx → A → Ctx → Type 0

-- A quiet end has a quiet beginning, and the postcondition.
pub record Safe {A : Type 0} (r : M A) (R : Post A) : Type 0 where
  pub quiet : (s : Checker) → IsQuiet ((r s).1) → IsQuiet s
  pub post : (s : Checker) → IsQuiet ((r s).1) → R s.locals ((r s).0) (((r s).1).locals)

-- A run that changes no binding, with a property of its value.
pub record Step {A : Type 0} (r : M A) (P : A → Type 0) : Type 0 where
  pub quiet : (s : Checker) → IsQuiet ((r s).1) → IsQuiet s
  pub same : (s : Checker) → IsQuiet ((r s).1) → s.locals ≡ ((r s).1).locals
  pub holds : (s : Checker) → IsQuiet ((r s).1) → P ((r s).0)

module _ {A : Type 0} where
  pub pure-Safe : {R : Post A} (a : A) → ((Γ : Ctx) → R Γ a Γ) → Safe (pure a) R
  unfolding pure
  pure-Safe a h = record { quiet = λ s q. q; post = λ s q. h s.locals }

  pub pure-Step : {P : A → Type 0} (a : A) → P a → Step (pure a) P
  unfolding pure
  pure-Step a h = record { quiet = λ s q. q; same = λ s q. refl; holds = λ s q. h }

  pub bind-Safe :
      {B : Type 0} {r : M A} {k : A → M B} {R : Post A} {Q : Post B}
      → Safe r R
      → ((a : A) → Safe (k a) (λ Γ₁ b Γ'. (Γ : Ctx) → R Γ a Γ₁ → Q Γ b Γ'))
      → Safe (r >>= k) Q
  unfolding ◌>>=◌
  bind-Safe {r = r} h g = record {
    quiet = λ s q. h.quiet s ((g ((r s).0)).quiet ((r s).1) q);
    post = λ s q.
        let q₁ = (g ((r s).0)).quiet ((r s).1) q in
        (g ((r s).0)).post ((r s).1) q s.locals (h.post s q₁);
  }

  pub step-Safe :
      {B : Type 0} {r : M A} {k : A → M B} {P : A → Type 0} {Q : Post B}
      → Step r P
      → ((a : A) → Safe (k a) (λ Γ b Γ'. P a → Q Γ b Γ'))
      → Safe (r >>= k) Q
  unfolding ◌>>=◌
  step-Safe {r = r} {k = k} {Q = Q} h g = record {
    quiet = λ s q. h.quiet s ((g ((r s).0)).quiet ((r s).1) q);
    post = λ s q.
        let q₁ = (g ((r s).0)).quiet ((r s).1) q in
        let (b, t) = k ((r s).0) ((r s).1) in
        subst (λ Γ. Q Γ b t.locals) (sym (h.same s q₁))
          ((g ((r s).0)).post ((r s).1) q (h.holds s q₁));
  }

  pub bind-Step :
      {B : Type 0} {r : M A} {k : A → M B} {P : A → Type 0} {Q : B → Type 0}
      → Step r P
      → ((a : A) → Step (k a) (λ b. P a → Q b))
      → Step (r >>= k) Q
  unfolding ◌>>=◌
  bind-Step {r = r} h g = record {
    quiet = λ s q. h.quiet s ((g ((r s).0)).quiet ((r s).1) q);
    same = λ s q. h.same s ((g ((r s).0)).quiet ((r s).1) q) ∙ (g ((r s).0)).same ((r s).1) q;
    holds = λ s q. (g ((r s).0)).holds ((r s).1) q (h.holds s ((g ((r s).0)).quiet ((r s).1) q));
  }

  pub then-Safe :
      {B : Type 0} {r : M A} {n : M B} {R : Post A} {Q : Post B}
      → Safe r R
      → Safe n (λ Γ₁ b Γ'. (Γ : Ctx) (a : A) → R Γ a Γ₁ → Q Γ b Γ')
      → Safe (r >> n) Q
  unfolding ◌>>◌
  then-Safe {r = r} h g = record {
    quiet = λ s q. h.quiet s (g.quiet ((r s).1) q);
    post = λ s q. g.post ((r s).1) q s.locals ((r s).0) (h.post s (g.quiet ((r s).1) q));
  }

  pub step_then-Safe :
      {B : Type 0} {r : M A} {n : M B} {P : A → Type 0} {Q : Post B}
      → Step r P
      → Safe n (λ Γ b Γ'. (a : A) → P a → Q Γ b Γ')
      → Safe (r >> n) Q
  unfolding ◌>>◌
  step_then-Safe {r = r} {n = n} {Q = Q} h g = record {
    quiet = λ s q. h.quiet s (g.quiet ((r s).1) q);
    post = λ s q.
        let q₁ = g.quiet ((r s).1) q in
        let (b, t) = n ((r s).1) in
        subst (λ Γ. Q Γ b t.locals) (sym (h.same s q₁))
          (g.post ((r s).1) q ((r s).0) (h.holds s q₁));
  }

  pub then-Step :
      {B : Type 0} {r : M A} {n : M B} {P : A → Type 0} {Q : B → Type 0}
      → Step r P
      → Step n (λ b. (a : A) → P a → Q b)
      → Step (r >> n) Q
  unfolding ◌>>◌
  then-Step {r = r} h g = record {
    quiet = λ s q. h.quiet s (g.quiet ((r s).1) q);
    same = λ s q. h.same s (g.quiet ((r s).1) q) ∙ g.same ((r s).1) q;
    holds = λ s q. g.holds ((r s).1) q ((r s).0) (h.holds s (g.quiet ((r s).1) q));
  }

  pub map-Safe :
      {r : M A} {R Q : Post A}
      → Safe r R
      → ((Γ : Ctx) (a : A) (Γ' : Ctx) → R Γ a Γ' → Q Γ a Γ')
      → Safe r Q
  map-Safe h f = record { quiet = h.quiet; post = λ s q. f s.locals _ _ (h.post s q) }

  pub map-Step : {r : M A} {P Q : A → Type 0} → Step r P → ((a : A) → P a → Q a) → Step r Q
  map-Step h f = record { quiet = h.quiet; same = h.same; holds = λ s q. f _ (h.holds s q) }

  -- A step as the last run.
  pub last-Safe :
      {r : M A} {P : A → Type 0} {Q : Post A}
      → Step r P
      → ((Γ : Ctx) (a : A) → P a → Q Γ a Γ)
      → Safe r Q
  last-Safe {r = r} {Q = Q} h f = record {
    quiet = h.quiet;
    post = λ s q.
        subst (λ Γ. Q s.locals ((r s).0) Γ) (h.same s q) (f s.locals ((r s).0) (h.holds s q));
  }

  pub if-Safe :
      {r n : M A} {R : Post A} (b : Bool)
      → (b ≡ true → Safe r R)
      → (b ≡ false → Safe n R)
      → Safe (if b then r else n) R
  if-Safe true h g = h refl
  if-Safe false h g = g refl

  pub if-Step :
      {r n : M A} {P : A → Type 0} (b : Bool)
      → (b ≡ true → Step r P)
      → (b ≡ false → Step n P)
      → Step (if b then r else n) P
  if-Step true h g = h refl
  if-Step false h g = g refl

  pub crash-Step : {P : A → Type 0} (a : A) → Step (crash a) P
  unfolding crash
  crash-Step a = record {
    quiet = λ s q. absurd (let z : ⊥ = let e = q.no_panic in cc in z);
    same = λ s q. absurd (let z : ⊥ = let e = q.no_panic in cc in z);
    holds = λ s q. absurd (let z : ⊥ = let e = q.no_panic in cc in z);
  }

-- After the report of an error a run is not quiet.
pub report-Step :
    {P : Unit {0} → Type 0} (code : Code) (at : Span)
    → is_error code ≡ true
    → Step (report code at) P
unfolding report
report-Step code at h = record {
  quiet = λ s q. absurd (error-warning code h ((All-right _ s.diags _ q.warnings).0));
  same = λ s q. absurd (error-warning code h ((All-right _ s.diags _ q.warnings).0));
  holds = λ s q. absurd (error-warning code h ((All-right _ s.diags _ q.warnings).0));
}

pub warn-Step : {P : Unit {0} → Type 0} (at : Span) → P tt → Step (report unreachable_arm at) P
unfolding report
warn-Step at h = record {
  quiet = λ s q. record { no_panic = q.no_panic; warnings = All-left _ s.diags _ q.warnings };
  same = λ s q. refl;
  holds = λ s q. h;
}

pub fail-Step :
    {P : Ty → Type 0} (code : Code) (at : Span) → is_error code ≡ true → Step (fail code at) P
unfolding fail
fail-Step code at h =
    then-Step {P = λ a. ⊥} (report-Step code at h) (pure-Step Ty.poison (λ a r. absurd r))

pub fail-Safe :
    {R : Post Ty} (code : Code) (at : Span) → is_error code ≡ true → Safe (fail code at) R
fail-Safe code at h = last-Safe (fail-Step {P = λ a. ⊥} code at h) (λ Γ a z. absurd z)

pub report_pure-Step :
    {A : Type 0} {P : A → Type 0} (code : Code) (at : Span) (a : A)
    → is_error code ≡ true
    → Step (report code at >> pure a) P
report_pure-Step code at a h =
    then-Step {P = λ z. ⊥} (report-Step code at h) (pure-Step a (λ z r. absurd r))

pub report_then-Safe :
    {A : Type 0} {n : M A} {R : Post A} (code : Code) (at : Span)
    → is_error code ≡ true
    → Safe n (λ Γ a Γ'. Unit {0})
    → Safe (report code at >> n) R
report_then-Safe code at h g =
    step_then-Safe {P = λ z. ⊥} (report-Step code at h) (map-Safe g (λ Γ a Γ' u z r. absurd r))

pub set_ty-Step : {P : Ty → Type 0} (id : ℕ) (t : Ty) → P t → Step (set_ty id t) P
unfolding set_ty
set_ty-Step id t h = record {
  quiet = λ s q. record { no_panic = q.no_panic; warnings = q.warnings };
  same = λ s q. refl;
  holds = λ s q. h;
}

pub get_types-Step : Step get_types (λ t. Unit {0})
unfolding get_types
get_types-Step = record { quiet = λ s q. q; same = λ s q. refl; holds = λ s q. tt }

pub resolve_node-Step : (id : ℕ) (n : Resolution) → Step (resolve_node id n) (λ a. Unit {0})
unfolding resolve_node
resolve_node-Step id n = record {
  quiet = λ s q. record { no_panic = q.no_panic; warnings = q.warnings };
  same = λ s q. refl;
  holds = λ s q. tt;
}

pub set_slots-Step : (id : ℕ) (slots : List ℕ) → Step (set_slots id slots) (λ a. Unit {0})
unfolding set_slots
set_slots-Step id slots = record {
  quiet = λ s q. record { no_panic = q.no_panic; warnings = q.warnings };
  same = λ s q. refl;
  holds = λ s q. tt;
}

pub get_local-Safe : (x : ℕ) → Safe (get_local x) (λ Γ o Γ'. (o ≡ Γ x) × (Γ ≡ Γ'))
unfolding get_local
get_local-Safe x = record { quiet = λ s q. q; post = λ s q. (refl, refl) }

pub bind_local-Safe : (x : ℕ) (t : Ty) → Safe (bind_local x t) (λ Γ a Γ'. extend Γ x t ≡ Γ')
unfolding bind_local
bind_local-Safe x t = record {
  quiet = λ s q. record { no_panic = q.no_panic; warnings = q.warnings };
  post = λ s q. refl;
}

-- A postcondition under a condition on the values so far.
pub guard-Safe :
    {A H : Type 0} {r : M A} {R : H → Post A}
    → Safe r (λ Γ a Γ'. Unit {0})
    → ((h : H) → Safe r (R h))
    → Safe r (λ Γ a Γ'. (h : H) → R h Γ a Γ')
guard-Safe q f = record { quiet = q.quiet; post = λ s k h. (f h).post s k }

pub option-Safe :
    {A B : Type 0} {none_case : M B} {some_case : A → M B} {R : Post B} (o : Option A)
    → (o ≡ none → Safe none_case R)
    → ((a : A) → o ≡ some a → Safe (some_case a) R)
    → Safe (elim o [ none ↦ none_case | some a ↦ some_case a ]) R
option-Safe none f g = f refl
option-Safe (some a) f g = g a refl

pub crash-Safe : {A : Type 0} {R : Post A} (a : A) → Safe (crash a) R
crash-Safe a = last-Safe (crash-Step {P = λ a. ⊥} a) (λ Γ a z. absurd z)
