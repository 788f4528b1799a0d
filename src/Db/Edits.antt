-- ===== src/Db/Edits.antt =====
-- The inputs of the database: crates/ontixa-db/src/db.rs, `add_source_named`, `set_source`,
-- `set_sources` and `write_source`. An assertion that fails is `none`.
use ontixa.Prelude.{
  ℕ, ◌+◌, ◌-◌, Bool, true, ◌&&◌, List, [], ◌∷◌, Option, none, some, length, get_elem?, set, ltb,
  if◌then◌else◌,
}
use ontixa.Db.Query.{Entry, source}
use ontixa.Db.Task.{Evaluators}
use ontixa.Db.Engine.{Db, FileSlot, insert, push, restamp}

module _ (E : Evaluators) where
  open E use {Val, Diag, Text, Module}

  unfoldable pub source_entry : Text → ℕ → ℕ → Entry Val Diag
  source_entry t computed_at verified_at = record {
    value = E.text t;
    deps = [];
    diags = [];
    computed_at = computed_at;
    verified_at = verified_at;
  }

  unfoldable pub add_source_named : Module → Text → Db E → Db E × ℕ
  unfolding source_entry
  add_source_named m t db =
      let revision = db.revision + 1 in
      let files = push db.files (record { text = t; module_name = m }) in
      (
        record db {
          revision = revision;
          files = files;
          memo = insert db.memo (source (length files - 1)) (source_entry t revision revision);
        },
        length files - 1,
      )

  -- `files[file].text = text`
  unfoldable pub set_text : List (FileSlot E) → ℕ → Text → List (FileSlot E)
  set_text files f t = elim (get_elem? files f) [
    | none ↦ files
    | some s ↦ set files f (record s { text = t })
  ]

  unfoldable pub write_source : ℕ → Text → Db E → Db E
  unfolding set_text restamp source_entry
  write_source f t db = record db {
    files = set_text db.files f t;
    memo =
        insert db.memo (source f)
          (source_entry t (restamp E (db.memo (source f)) (E.text t) db.revision) db.revision);
  }

  unfoldable pub set_source : ℕ → Text → Db E → Option (Db E)
  unfolding write_source
  set_source f t db =
      if ltb f (length db.files)
      then some (write_source f t (record db { revision = db.revision + 1 }))
      else none

  unfoldable pub in_range : ℕ → List (ℕ × Text) → Bool
  in_range n [] = true
  in_range n ((f, t) ∷ edits) = ltb f n && in_range n edits

  unfoldable pub write_all : List (ℕ × Text) → Db E → Db E
  unfolding write_source
  write_all [] db = db
  write_all ((f, t) ∷ edits) db = write_all edits (write_source f t db)

  unfoldable pub set_sources : List (ℕ × Text) → Db E → Option (Db E)
  unfolding in_range write_all
  set_sources edits db =
      if in_range (length db.files) edits
      then some (write_all edits (record db { revision = db.revision + 1 }))
      else none
