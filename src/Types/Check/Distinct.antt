-- ===== src/Types/Check/Distinct.antt =====
-- Lists of distinct numbers, as the sets of crates/ontixa-types/src/check.rs and
-- crates/ontixa-db/src/eval.rs are.
use ontixa.Prelude.{
  ℕ, zero, suc, ◌≤◌, ◌<◌, ◌≡◌, refl, sym, ap, ◌∙◌, subst, inl, inr, true, false, ◌||◌, List, [],
  ◌∷◌, Bool-cases, length, ◌==◌, ==_iff, if◌then◌else◌, arith,
}
use ontixa.Types.Check.Complete.{contains}

remove : ℕ → List ℕ → List ℕ
remove x [] = []
remove x (y ∷ ys) = if x == y then ys else y ∷ remove x ys

abbrev pub IsDistinct : List ℕ → Type 0
IsDistinct [] = Unit
IsDistinct (x ∷ xs) = (contains x xs ≡ false) × IsDistinct xs

abbrev pub Below : ℕ → List ℕ → Type 0
Below n js = (i : ℕ) → contains i js ≡ true → i < n

length-remove :
    (x : ℕ) (js : List ℕ) → contains x js ≡ true → length js ≡ suc (length (remove x js))
unfolding contains remove
length-remove x [] h = absurd (let z : ⊥ = cc in z)
length-remove x (y ∷ ys) h = elim (Bool-cases (x == y)) [
  | inl q ↦ rw (q) refl
  | inr q ↦
      let k : contains x ys ≡ true = sym (rw (q) refl) ∙ h in
      let r = length-remove x ys k in rw (q) (ap suc r)
]

contains-remove :
    (i x : ℕ) (js : List ℕ) → (i == x) ≡ false → contains i (remove x js) ≡ contains i js
unfolding contains remove
contains-remove i x [] h = refl
contains-remove i x (y ∷ ys) h = elim (Bool-cases (x == y)) [
  | inl q ↦
      let e = (==_iff x y).0 q in
      let k : (i == y) ≡ false = subst (λ z. (i == z) ≡ false) e h in rw (q, k) refl
  | inr q ↦ rw (q) (ap (λ b. (i == y) || b) (contains-remove i x ys h))
]

not-remove : (x : ℕ) (js : List ℕ) → IsDistinct js → contains x (remove x js) ≡ false
unfolding contains remove
not-remove x [] d = refl
not-remove x (y ∷ ys) (h, d) = elim (Bool-cases (x == y)) [
  | inl q ↦ let e = (==_iff x y).0 q in rw (q) (subst (λ z. contains z ys ≡ false) (sym e) h)
  | inr q ↦ rw (q) (rw (q) (not-remove x ys d))
]

remove-IsDistinct : (x : ℕ) (js : List ℕ) → IsDistinct js → IsDistinct (remove x js)
unfolding contains remove
remove-IsDistinct x [] d = tt
remove-IsDistinct x (y ∷ ys) (h, d) = elim (Bool-cases (x == y)) [
  | inl q ↦ rw (q) d
  | inr q ↦
      let n : (y == x) ≡ false = ground arith in
      rw (q) (contains-remove y x ys n ∙ h, remove-IsDistinct x ys d)
]

remove-Below : (k : ℕ) (js : List ℕ) → IsDistinct js → Below (suc k) js → Below k (remove k js)
remove-Below k js d b i h = elim (Bool-cases (i == k)) [
  | inl q ↦
      let e = (==_iff i k).0 q in
      let n : contains i (remove k js) ≡ false =
        subst (λ z. contains z (remove k js) ≡ false) (sym e) (not-remove k js d) in
      absurd (let z : ⊥ = cc in z)
  | inr q ↦ let l = b i (sym (contains-remove i k js q) ∙ h) in ground arith
]

skip-Below : (k : ℕ) (js : List ℕ) → contains k js ≡ false → Below (suc k) js → Below k js
skip-Below k js n b i h = elim (Bool-cases (i == k)) [
  | inl q ↦
      let e : contains k js ≡ true = subst (λ z. contains z js ≡ true) ((==_iff i k).0 q) h in
      absurd (let z : ⊥ = cc in z)
  | inr q ↦ let l = b i h in ground arith
]

pub length-Below : (k : ℕ) (js : List ℕ) → IsDistinct js → Below k js → length js ≤ k
unfolding contains
length-Below zero [] d b = omega arith
length-Below zero (x ∷ xs) d b =
    let h : contains x (x ∷ xs) ≡ true = ground arith in let l = b x h in omega arith
length-Below (suc k) js d b = elim (Bool-cases (contains k js)) [
  | inl h ↦
      let r = length-Below k (remove k js) (remove-IsDistinct k js d) (remove-Below k js d b) in
      let e = length-remove k js h in omega arith
  | inr h ↦ let r = length-Below k js d (skip-Below k js h b) in omega arith
]

-- Distinct numbers below `n`, `n` of them, are all of those numbers.
pub all-Below :
    (n : ℕ) (js : List ℕ)
    → IsDistinct js
    → Below n js
    → n ≤ length js
    → (i : ℕ) → i < n
    → contains i js ≡ true
all-Below zero js d b l i h = absurd (let z : ⊥ = omega arith in z)
all-Below (suc k) js d b l i h = elim (Bool-cases (contains k js)) [
  | inl c ↦ elim (Bool-cases (i == k)) [
    | inl q ↦ subst (λ z. contains z js ≡ true) (sym ((==_iff i k).0 q)) c
    | inr q ↦
        let e = length-remove k js c in
        let r =
          all-Below k (remove k js) (remove-IsDistinct k js d) (remove-Below k js d b) (omega arith)
            i (ground arith) in
        sym (contains-remove i k js q) ∙ r
  ]
  | inr c ↦
      let r = length-Below k js d (skip-Below k js c b) in absurd (let z : ⊥ = omega arith in z)
]

pub length-all : (n : ℕ) (js : List ℕ) → ((i : ℕ) → i < n → contains i js ≡ true) → n ≤ length js
length-all zero js h = omega arith
length-all (suc k) js h =
    let e = length-remove k js (h k (omega arith)) in
    let r = length-all k (remove k js) (λ i l.
      let q : (i == k) ≡ false = ground arith in contains-remove i k js q ∙ h i (omega arith)) in
    omega arith
