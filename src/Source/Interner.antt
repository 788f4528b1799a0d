-- ===== src/Source/Interner.antt =====
-- The interner: crates/ontixa-source/src/intern.rs. An id is an index; the map from texts to ids is a
-- function.
use ontixa.Prelude.{
  ℕ, zero, suc, ◌≡◌, refl, sym, ap, ◌∙◌, subst, true, List, [], ◌∷◌, ◌++◌, Option, none, some,
  length, get_elem?, get_elem?-lt, get_elem?-append_left, get_elem?-append_length, Bool-cases,
  Option-cases, ◌⊎◌, inl, inr, if◌then◌else◌, arith,
}
use ontixa.Syntax.Kinds.{bytes_eq}
use ontixa.Syntax.Raw.{bytes_eq_sound}

pub record Interner : Type 0 where
  pub map : List ℕ → Option ℕ
  pub strings : List (List ℕ)

unfoldable pub new : Interner
new = record { map = λ t. none; strings = [] }

-- `strings.push(text)` and `map.insert(text, id)`
unfoldable pub add : List ℕ → Interner → Interner
add text i = record {
  map = λ t. if bytes_eq text t then some (length i.strings) else i.map t;
  strings = i.strings ++ text ∷ [];
}

unfoldable pub intern : List ℕ → Interner → ℕ × Interner
unfolding add
intern text i = elim (i.map text) [ some id ↦ (id, i) | none ↦ (length i.strings, add text i) ]

unfoldable pub get : List ℕ → Interner → Option ℕ
get text i = i.map text

-- `none` is the panic of an id out of range.
unfoldable pub resolve : ℕ → Interner → Option (List ℕ)
resolve id i = get_elem? i.strings id

-- The map and the table of texts are inverse to each other.
pub record IsInverse (i : Interner) : Type 0 where
  pub map_then_text : (t : List ℕ) (id : ℕ) → get t i ≡ some id → resolve id i ≡ some t
  pub text_then_map : (t : List ℕ) (id : ℕ) → resolve id i ≡ some t → get t i ≡ some id

bytes_eq_self : (t : List ℕ) → bytes_eq t t ≡ true
bytes_eq_self [] = refl
bytes_eq_self (b ∷ t) = ground (arith, bytes_eq_self t)

get_elem?-push :
    {A : Type 0} (xs : List A) (x : A) (i : ℕ) {y : A}
    → get_elem? (xs ++ x ∷ []) i ≡ some y
    → (get_elem? xs i ≡ some y) ⊎ ((i ≡ length xs) × (x ≡ y))
get_elem?-push [] x zero p = inr (refl, ground arith)
get_elem?-push [] x (suc i) p = absurd (ground arith)
get_elem?-push (z ∷ xs) x zero p = inl p
get_elem?-push (z ∷ xs) x (suc i) p = elim (get_elem?-push xs x i p) [
  | inl q ↦ inl q
  | inr q ↦ inr (ap suc q.0, q.1)
]

add-kept :
    (t : List ℕ) (i : Interner) (id : ℕ) (u : List ℕ)
    → resolve id i ≡ some u
    → resolve id (add t i) ≡ some u
unfolding resolve add
add-kept t i id u p = get_elem?-append_left i.strings (t ∷ []) id (get_elem?-lt i.strings id p) ∙ p

add-resolve : (t : List ℕ) (i : Interner) → resolve (length i.strings) (add t i) ≡ some t
unfolding resolve add
add-resolve t i = get_elem?-append_length i.strings t []

add-get : (t : List ℕ) (i : Interner) → get t (add t i) ≡ some (length i.strings)
unfolding get add
add-get t i = rw (bytes_eq_self t) refl

add-there :
    (t : List ℕ) (i : Interner) (u : List ℕ) (id : ℕ)
    → IsInverse i
    → get u (add t i) ≡ some id
    → resolve id (add t i) ≡ some u
unfolding get add
add-there t i u id inv p = elim (Bool-cases (bytes_eq t u)) [
  | inl e ↦
      let q : t ≡ u = bytes_eq_sound t u e in
      let r : length i.strings ≡ id = ground arith in
      subst (λ x. resolve x (add t i) ≡ some u) r (add-resolve t i ∙ ap some q)
  | inr e ↦
      add-kept t i id u (inv.map_then_text u id (let g : i.map u ≡ some id = ground arith in g))
]

-- A text with an id of its own is not the new one.
add-back_old :
    (t : List ℕ) (i : Interner) (u : List ℕ) (id : ℕ)
    → get t i ≡ none
    → get u i ≡ some id
    → get u (add t i) ≡ some id
unfolding get add
add-back_old t i u id fresh g = elim (Bool-cases (bytes_eq t u)) [
  | inl e ↦ let w : t ≡ u = bytes_eq_sound t u e in absurd (let z : ⊥ = cc in z)
  | inr e ↦ rw e g
]

add-back :
    (t : List ℕ) (i : Interner) (u : List ℕ) (id : ℕ)
    → get t i ≡ none
    → IsInverse i
    → resolve id (add t i) ≡ some u
    → get u (add t i) ≡ some id
unfolding resolve add
add-back t i u id fresh inv p = elim (get_elem?-push i.strings t id p) [
  | inl q ↦ add-back_old t i u id fresh (inv.text_then_map u id q)
  | inr q ↦ subst (λ x. get x (add t i) ≡ some id) q.1 (add-get t i ∙ ap some (sym q.0))
]

add-IsInverse : (t : List ℕ) (i : Interner) → get t i ≡ none → IsInverse i → IsInverse (add t i)
add-IsInverse t i fresh inv = record {
  map_then_text = λ u id. add-there t i u id inv;
  text_then_map = λ u id. add-back t i u id fresh inv;
}

intern-new : (t : List ℕ) (i : Interner) → get t i ≡ none → intern t i ≡ (length i.strings, add t i)
unfolding get intern
intern-new t i e = rw (e, intern) refl

intern-old : (t : List ℕ) (i : Interner) (id : ℕ) → get t i ≡ some id → intern t i ≡ (id, i)
unfolding get intern
intern-old t i id e = rw (e, intern) refl

-- Interning a text in an interner whose map and table are inverse gives an id that resolves to the
-- text and that a lookup of the text finds, keeps what every other id resolves to, and keeps the map
-- and the table inverse.
pub intern-resolve :
    (t : List ℕ) (i : Interner)
    → IsInverse i
    → (resolve ((intern t i).0) ((intern t i).1) ≡ some t)
      × (get t ((intern t i).1) ≡ some ((intern t i).0))
      × ((id : ℕ) (u : List ℕ) → resolve id i ≡ some u → resolve id ((intern t i).1) ≡ some u)
      × IsInverse ((intern t i).1)
intern-resolve t i inv = elim (Option-cases (get t i)) [
  | inl e ↦
      rw (intern-new t i e) (add-resolve t i, add-get t i, add-kept t i, add-IsInverse t i e inv)
  | inr (id, e) ↦ rw (intern-old t i id e) (inv.map_then_text t id e, e, (λ j u p. p), inv)
]
