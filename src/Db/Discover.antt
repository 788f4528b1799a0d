-- ===== src/Db/Discover.antt =====
-- The loop of `scope_eval` ends within one round for each registered file: crates/ontixa-db/src/eval.rs.
use mathlib.Core.Path.{fun_ext}
use ontixa.Prelude.{
  ℕ, zero, suc, ◌+◌, ◌≤◌, ◌<◌, ◌≡◌, refl, sym, ap, ◌∙◌, true, false, List, [], ◌∷◌, ◌++◌, Option,
  none, some, length, get_elem?, ◌==◌, ==_iff, All, Bool-cases, Option-cases, inl, inr, arith,
}
use ontixa.Types.Check.Complete.{contains}
use ontixa.Types.Check.Distinct.{IsDistinct, Below, length-Below}
use ontixa.Db.Query.{Payloads}
use ontixa.Db.Front.{Calls, Eval, ask_ast, module_of, note_use, note_uses, discover}
use ontixa.Db.Rules.{Registered, note_uses-Registered}

contains-append :
    (i : ℕ) (xs ys : List ℕ)
    → contains i xs ≡ false
    → contains i ys ≡ false
    → contains i (xs ++ ys) ≡ false
unfolding contains
contains-append i [] ys h k = k
contains-append i (x ∷ xs) ys h k =
    let a : (i == x) ≡ false = ground arith in
    let b : contains i xs ≡ false = ground arith in rw (a, contains-append i xs ys b k) refl

push-IsDistinct :
    (xs : List ℕ) (d : ℕ) → IsDistinct xs → contains d xs ≡ false → IsDistinct (xs ++ d ∷ [])
unfolding contains
push-IsDistinct [] d u h = (refl, tt)
push-IsDistinct (x ∷ xs) d (k, u) h =
    let a : (d == x) ≡ false = ground arith in
    let b : contains d xs ≡ false = ground arith in
    let c : (x == d) ≡ false = ground arith in
    (contains-append x xs (d ∷ []) k (rw c refl), push-IsDistinct xs d u b)

All-Below : (n : ℕ) (xs : List ℕ) → All (λ f. f < n) xs → Below n xs
unfolding contains
All-Below n [] h i p = absurd (let z : ⊥ = cc in z)
All-Below n (x ∷ xs) (q, h) i p = elim (Bool-cases (i == x)) [
  | inl e ↦ let z : i ≡ x = (==_iff i x).0 e in omega arith
  | inr e ↦ All-Below n xs h i (let z : contains i xs ≡ true = ground arith in z)
]

past_end : (xs : List ℕ) (i : ℕ) → length xs ≤ i → get_elem? xs i ≡ none
past_end [] i h = refl
past_end (x ∷ xs) zero h = absurd (omega arith)
past_end (x ∷ xs) (suc i) h = past_end xs i (omega arith)

module _ (P : Payloads) (C : Calls P) where
  open C use {Name}

  note_use-IsDistinct :
      (ms : List Name) (f : ℕ) (u : Option Name) (order : List ℕ)
      → IsDistinct order
      → IsDistinct (note_use P C ms f u order)
  unfolding note_use
  note_use-IsDistinct ms f none order h = h
  note_use-IsDistinct ms f (some seg) order h =
      elim (Option-cases (module_of P C ms 0 (C.intern seg))) [
        | inl q ↦ rw (q, note_use) h
        | inr (dep, q) ↦ elim (Bool-cases (dep == f)) [
          | inl a ↦ rw (q, note_use, a) h
          | inr a ↦ elim (Bool-cases (contains dep order)) [
            | inl b ↦ rw (q, note_use, a, b) h
            | inr b ↦ rw (q, note_use, a, b) (push-IsDistinct order dep h b)
          ]
        ]
      ]

  note_uses-IsDistinct :
      (ms : List Name) (f : ℕ) (us : List (Option Name)) (order : List ℕ)
      → IsDistinct order
      → IsDistinct (note_uses P C ms f us order)
  unfolding note_uses
  note_uses-IsDistinct ms f [] order h = h
  note_uses-IsDistinct ms f (u ∷ us) order h =
      note_uses-IsDistinct ms f us (note_use P C ms f u order) (note_use-IsDistinct ms f u order h)

  -- With as many rounds left as there are files that the loop has not passed, one round more is none.
  discover-suc :
      (ms : List Name) (n head : ℕ) (order : List ℕ) (k : List ℕ → Eval P C)
      → length ms ≤ n + head
      → IsDistinct order
      → Registered P C (length ms) order
      → discover P C ms (suc n) head order k ≡ discover P C ms n head order k
  unfolding discover
  discover-suc ms zero head order k h d r =
      let l = length-Below (length ms) order d (All-Below (length ms) order r) in
      rw (past_end order head (omega arith), discover) refl
  discover-suc ms (suc n) head order k h d r = elim (Option-cases (get_elem? order head)) [
    | inl q ↦ rw (q, discover) refl
    | inr (f, q) ↦
        rw (q, discover)
          (ap (ask_ast P C f) (
            fun_ext (λ a.
              discover-suc ms n (suc head) (note_uses P C ms f (C.use_heads a) order) k
                (omega arith) (note_uses-IsDistinct ms f (C.use_heads a) order d)
                (note_uses-Registered P C ms f (C.use_heads a) order r))))
  ]

  -- More rounds than there are files change nothing.
  discover-more :
      (ms : List Name) (n root : ℕ) (k : List ℕ → Eval P C)
      → length ms ≤ n
      → root < length ms
      → discover P C ms n 0 (root ∷ []) k ≡ discover P C ms (length ms) 0 (root ∷ []) k
  unfolding contains
  discover-more ms zero root k h p = absurd (omega arith)
  discover-more ms (suc n) root k h p = elim (Bool-cases (length ms == suc n)) [
    | inl e ↦
        let z : suc n ≡ length ms = sym ((==_iff (length ms) (suc n)).0 e) in
        ap (λ i. discover P C ms i 0 (root ∷ []) k) z
    | inr e ↦
        discover-suc ms n 0 (root ∷ []) k (ground arith) (refl, tt) (p, tt)
        ∙ discover-more ms n root k (ground arith) p
  ]
