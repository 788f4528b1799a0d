-- ===== src/Transactions/Replaced.antt =====
-- The shadow workspace and the write of a plan leave the same files: `shadow_db` of
-- crates/ontixa-db/src/rename.rs and `set_sources` of crates/ontixa-db/src/db.rs.
use ontixa.Prelude.{
  ℕ, zero, suc, ◌+◌, ◌≡◌, refl, sym, ap, ◌∙◌, subst, List, [], ◌∷◌, Option, none, some, length,
  get_elem?, ◌==◌, arith, Option-cases, Bool-cases, inl, inr, get_elem?-lt, get_elem?-set_self,
}
use ontixa.Db.Task.{Evaluators}
use ontixa.Db.Engine.{Db, FileSlot}
use ontixa.Db.Edits.{set_text, write_source, write_all, set_sources, in_range}
use ontixa.Db.Insert.{some_inj}
use ontixa.Db.Edited.{set_text-ne}
use ontixa.Transactions.Shadow.{find_text, or_text, edited, shadow_db, shadow_db-files}

module _ (E : Evaluators) where
  open E use {Val, Diag, Text, Module}

  -- No file is named twice.
  abbrev pub IsDistinct : List (ℕ × Text) → Type 0
  IsDistinct [] = Unit
  IsDistinct ((f, t) ∷ rest) = (find_text E f rest ≡ none) × IsDistinct rest

  override : Option Text → Option (FileSlot E) → Option (FileSlot E)
  override o none = none
  override o (some s) = some (record s { text = or_text E o s.text })

  override-none : (s : Option (FileSlot E)) → override none s ≡ s
  unfolding override
  override-none none = refl
  override-none (some s) = refl

  get-edited :
      (i j : ℕ) (files : List (FileSlot E)) (sources : List (ℕ × Text))
      → get_elem? (edited E i files sources) j
        ≡ override (find_text E (i + j) sources) (get_elem? files j)
  unfolding edited override
  get-edited i j [] sources = refl
  get-edited i zero (s ∷ files) sources = let e : i + 0 ≡ i = omega arith in rw e refl
  get-edited i (suc j) (s ∷ files) sources =
      let e : i + suc j ≡ suc i + j = omega arith in rw e (get-edited (suc i) j files sources)

  get-set_text :
      (files : List (FileSlot E)) (f : ℕ) (t : Text)
      → get_elem? (set_text E files f t) f ≡ override (some t) (get_elem? files f)
  unfolding set_text override
  get-set_text files f t = elim (Option-cases (get_elem? files f)) [
    | inl absent ↦ rw (absent, set_text) absent
    | inr (s, found) ↦
        rw (found, set_text)
          (get_elem?-set_self files f (record s { text = t }) (get_elem?-lt files f found))
  ]

  override-override :
      (t : Text) (s : Option (FileSlot E))
      → override none (override (some t) s) ≡ override (some t) s
  override-override t s = override-none (override (some t) s)

  get-write_all :
      (j : ℕ) (sources : List (ℕ × Text)) (db : Db E)
      → IsDistinct sources
      → get_elem? (write_all E sources db).files j
        ≡ override (find_text E j sources) (get_elem? db.files j)
  unfolding write_all write_source find_text
  get-write_all j [] db h = sym (override-none (get_elem? db.files j))
  get-write_all j ((f, t) ∷ rest) db (first, h) =
      let ih = get-write_all j rest (write_source E f t db) h in
      elim (Bool-cases (f == j)) [
        | inl e ↦
            let same : f ≡ j = ground arith in
            let gone : find_text E j rest ≡ none =
              subst (λ n. find_text E n rest ≡ none) same first in
            let here : get_elem? (set_text E db.files f t) j
                ≡ override (some t) (get_elem? db.files j) =
              subst
                (λ n.
                  get_elem? (set_text E db.files f t) n ≡ override (some t) (get_elem? db.files n))
                same (get-set_text db.files f t) in
            ih ∙ rw (e, gone, here) (override-none (override (some t) (get_elem? db.files j)))
        | inr e ↦
            let other = set_text-ne E db.files f j t (λ q. absurd (ground arith)) in
            ih ∙ rw (e, other) refl
      ]

  same_entries : (xs ys : List (FileSlot E)) → ((j : ℕ) → get_elem? xs j ≡ get_elem? ys j) → xs ≡ ys
  same_entries [] [] h = refl
  same_entries [] (y ∷ ys) h = absurd (let z = h 0 in ground arith)
  same_entries (x ∷ xs) [] h = absurd (let z = h 0 in ground arith)
  same_entries (x ∷ xs) (y ∷ ys) h =
      ap (λ z. z ∷ xs) (some_inj (h 0)) ∙ ap (λ z. y ∷ z) (same_entries xs ys (λ j. h (suc j)))

  write_all-edited :
      (sources : List (ℕ × Text)) (db : Db E)
      → IsDistinct sources
      → (write_all E sources db).files ≡ edited E 0 db.files sources
  write_all-edited sources db h =
      same_entries (write_all E sources db).files (edited E 0 db.files sources) (λ j.
        let e : 0 + j ≡ j = omega arith in
        get-write_all j sources db h
        ∙ sym (
            subst
              (λ n.
                get_elem? (edited E 0 db.files sources) j
                ≡ override (find_text E n sources) (get_elem? db.files j))
              e (get-edited 0 j db.files sources)))

  length-edited :
      (i : ℕ) (files : List (FileSlot E)) (sources : List (ℕ × Text))
      → length (edited E i files sources) ≡ length files
  unfolding edited
  length-edited i [] sources = refl
  length-edited i (s ∷ files) sources = omega (arith, length-edited (suc i) files sources)

  pub length-shadow_db :
      (db : Db E) (sources : List (ℕ × Text))
      → length (shadow_db E db sources).files ≡ length db.files
  length-shadow_db db sources =
      ap length (shadow_db-files E db sources) ∙ length-edited 0 db.files sources

  -- The shadow workspace has the files that the write leaves.
  pub shadow_db-set_sources :
      (db db' : Db E) (sources : List (ℕ × Text))
      → IsDistinct sources
      → set_sources E sources db ≡ some db'
      → (shadow_db E db sources).files ≡ db'.files
  unfolding set_sources
  shadow_db-set_sources db db' sources h p =
      elim (Bool-cases (in_range E (length db.files) sources)) [
        | inr q ↦ absurd (ground arith)
        | inl q ↦
            let start : Db E = record db { revision = db.revision + 1 } in
            let w : write_all E sources start ≡ db' = some_inj (rw q at p) in
            shadow_db-files E db sources
            ∙ (sym (write_all-edited sources start h) ∙ ap (λ (d : Db E). d.files) w)
      ]
