-- ===== src/Transactions/Shadow.antt =====
-- The shadow workspace: `shadow_db` of crates/ontixa-db/src/rename.rs, which the plans of renames and
-- patches are checked in.
use ontixa.Prelude.{
  ℕ, suc, ◌+◌, ◌-◌, ◌≤◌, ◌≡◌, refl, sym, ap, ◌∙◌, subst, List, [], ◌∷◌, ◌++◌, Option, none, some,
  length, get_elem?, ◌==◌, if◌then◌else◌, arith, length-append, get_elem?-append_left,
  get_elem?-append_length, get_elem?-lt,
}
use mathlib.Core.List.{append_assoc, append-nil}
use ontixa.Db.Query.{QueryKey, QueryKey-discrete, Entry, source}
use ontixa.Db.Task.{done, Evaluators}
use ontixa.Db.Engine.{Db, FileSlot, new, eval, insert, push}
use ontixa.Db.Edits.{add_source_named, source_entry}
use ontixa.Db.Spec.{insert_self, insert_ne, returns}
use ontixa.Db.Insert.{some_inj}
use ontixa.Db.Moves.{InvOf}

module _ (E : Evaluators) where
  open E use {Val, Diag, Text, Module}

  -- `find(|(ef, _)| ef == f)`
  unfoldable pub find_text : ℕ → List (ℕ × Text) → Option Text
  find_text i [] = none
  find_text i ((f, t) ∷ rest) = let later = find_text i rest in if f == i then some t else later

  abbrev pub or_text : Option Text → Text → Text
  or_text none t = t
  or_text (some u) t = u

  -- The loop, for the files from the `i`-th on.
  unfoldable pub register_from : ℕ → List (FileSlot E) → List (ℕ × Text) → Db E → Db E
  unfolding find_text add_source_named
  register_from i [] sources scratch = scratch
  register_from i (s ∷ files) sources scratch =
      register_from (suc i) files sources
        ((add_source_named E s.module_name (or_text (find_text i sources) s.text) scratch).0)

  unfoldable pub shadow_db : Db E → List (ℕ × Text) → Db E
  unfolding register_from new
  shadow_db db sources = register_from 0 db.files sources (new E)

  -- The files with their new texts.
  unfoldable pub edited : ℕ → List (FileSlot E) → List (ℕ × Text) → List (FileSlot E)
  unfolding find_text
  edited i [] sources = []
  edited i (s ∷ files) sources =
      record s { text = or_text (find_text i sources) s.text } ∷ edited (suc i) files sources

  register_from-files :
      (i : ℕ) (files : List (FileSlot E)) (sources : List (ℕ × Text)) (scratch : Db E)
      → (register_from i files sources scratch).files ≡ scratch.files ++ edited i files sources
  unfolding register_from edited add_source_named
  register_from-files i [] sources scratch = sym (append-nil scratch.files)
  register_from-files i (s ∷ files) sources scratch =
      register_from-files (suc i) files sources
        ((add_source_named E s.module_name (or_text (find_text i sources) s.text) scratch).0)
      ∙ append_assoc scratch.files _ _

  -- A table with inputs only.
  abbrev IsInput : Db E → QueryKey → Entry Val Diag → Type 0
  IsInput db k e =
      (f : ℕ) × (s : FileSlot E) × (k ≡ source f)
      × (get_elem? db.files f ≡ some s)
      × (e.value ≡ E.text s.text)
      × (e.deps ≡ [])
      × (e.computed_at ≤ e.verified_at)
      × (e.verified_at ≤ db.revision)

  abbrev HasInputs : Db E → Type 0
  HasInputs db = (k : QueryKey) (e : Entry Val Diag) → db.memo k ≡ some e → IsInput db k e

  new-IsInput :
      (m : Module) (t : Text) (db : Db E) (k : QueryKey) (e : Entry Val Diag)
      → k ≡ source (length db.files)
      → source_entry E t (db.revision + 1) (db.revision + 1) ≡ e
      → IsInput ((add_source_named E m t db).0) k e
  unfolding add_source_named source_entry
  new-IsInput m t db k e is_source same =
      let slot : FileSlot E = record { text = t; module_name = m } in
      (
        length db.files,
        slot,
        is_source,
        get_elem?-append_length db.files slot [],
        ap (λ (d : Entry Val Diag). d.value) (sym same),
        ap (λ (d : Entry Val Diag). d.deps) (sym same),
        subst (λ (d : Entry Val Diag). d.computed_at ≤ d.verified_at) same (omega arith),
        subst (λ (d : Entry Val Diag). d.verified_at ≤ db.revision + 1) same (omega arith),
      )

  old-IsInput :
      (m : Module) (t : Text) (db : Db E) (k : QueryKey) (e : Entry Val Diag)
      → IsInput db k e
      → IsInput ((add_source_named E m t db).0) k e
  unfolding add_source_named
  old-IsInput m t db k e (f, s, is_source, found, value, deps, stamps, past) = (
    f,
    s,
    is_source,
    get_elem?-append_left db.files _ f (get_elem?-lt db.files f found) ∙ found,
    value,
    deps,
    stamps,
    omega arith,
  )

  add_source_named-HasInputs :
      (m : Module) (t : Text) (db : Db E) → HasInputs db → HasInputs ((add_source_named E m t db).0)
  unfolding add_source_named
  add_source_named-HasInputs m t db h k e p =
      let slot : FileSlot E = record { text = t; module_name = m } in
      let n : length (push db.files slot) - 1 ≡ length db.files =
        omega (arith, length-append db.files (slot ∷ [])) in
      let entry = source_entry E t (db.revision + 1) (db.revision + 1) in
      let q = subst (λ i. insert db.memo (source i) entry k ≡ some e) n p in
      elim (QueryKey-discrete (source (length db.files)) k) [
        | yes same ↦
            let here : insert db.memo (source (length db.files)) entry k ≡ some entry =
              subst (λ j. insert db.memo (source (length db.files)) entry j ≡ some entry) same
                (insert_self db.memo (source (length db.files)) entry) in
            new-IsInput m t db k e (sym same) (some_inj (sym here ∙ q))
        | no other ↦
            old-IsInput m t db k e
              (h k e (sym (insert_ne db.memo (source (length db.files)) entry k other) ∙ q))
      ]

  HasInputs-Inv : (db : Db E) → HasInputs db → InvOf E db
  unfolding eval
  HasInputs-Inv db h k e p low =
      let (f, s, is_source, found, value, deps, stamps, past) = h k e p in
      record {
        task = done (E.text s.text) [];
        is_task = rw is_source (rw (found, eval) refl);
        stamps = stamps;
        past = past;
        deps_ok = rw deps tt;
        replays = λ z. rw (deps, value) returns;
      }

  register_from-HasInputs :
      (i : ℕ) (files : List (FileSlot E)) (sources : List (ℕ × Text)) (scratch : Db E)
      → HasInputs scratch
      → HasInputs (register_from i files sources scratch)
  unfolding register_from
  register_from-HasInputs i [] sources scratch h = h
  register_from-HasInputs i (s ∷ files) sources scratch h =
      register_from-HasInputs (suc i) files sources _
        (add_source_named-HasInputs s.module_name (or_text (find_text i sources) s.text) scratch h)

  pub shadow_db-files :
      (db : Db E) (sources : List (ℕ × Text))
      → (shadow_db db sources).files ≡ edited 0 db.files sources
  unfolding shadow_db new
  shadow_db-files db sources = register_from-files 0 db.files sources (new E)

  pub shadow_db-Inv : (db : Db E) (sources : List (ℕ × Text)) → InvOf E (shadow_db db sources)
  unfolding shadow_db new
  shadow_db-Inv db sources =
      HasInputs-Inv (shadow_db db sources)
        (register_from-HasInputs 0 db.files sources (new E) (λ k e p. absurd (ground arith)))
