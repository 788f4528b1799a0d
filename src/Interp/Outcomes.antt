-- ===== src/Interp/Outcomes.antt =====
-- Inversion of a successful bind, and the order of outcomes by fuel.
use ontixa.Prelude.{◌≡◌, refl, ap, Option, none, some, arith}
use ontixa.Interp.Value.{Trap, Outcome, done, trap, panic, starved, ◌>>=◌, get_or_fail}

pub >>=-done :
    {H A B : Type 0} (m : H → Outcome H A) (f : A → H → Outcome H B) (h : H) {b : B} {h₂ : H}
    → (m >>= f) h ≡ done b h₂
    → (a : A) × (h₁ : H) × (m h ≡ done a h₁) × (f a h₁ ≡ done b h₂)
>>=-done m f h {b} {h₂} p = go (m h) refl p
  where
    go :
        (o : Outcome _ _)
        → m h ≡ o
        → elim o [ done a h' ↦ f a h' | trap t ↦ trap t | panic ↦ panic | starved ↦ starved ]
          ≡ done b h₂
        → (a : _) × (h₁ : _) × (m h ≡ done a h₁) × (f a h₁ ≡ done b h₂)
    go (done a h₁) q r = (a, h₁, q, r)
    go (trap t) q r = cc
    go panic q r = cc
    go starved q r = cc

pub done-inj : {H A : Type 0} {a b : A} {h h' : H} → done a h ≡ done b h' → (a ≡ b) × (h ≡ h')
done-inj p = (ground arith, ground arith)

pub get_or_fail-done :
    {H A : Type 0} (t : Trap) (o : Option A) (h : H) {a : A} {h' : H}
    → get_or_fail t o h ≡ done a h'
    → (o ≡ some a) × (h ≡ h')
get_or_fail-done t none h p = cc
get_or_fail-done t (some a) h p = let (q, r) = done-inj p in (ap some q, r)
