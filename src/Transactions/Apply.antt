-- ===== src/Transactions/Apply.antt =====
-- The application of a plan: `apply_patch` of crates/ontixa-db/src/patch.rs, `apply_rename` and
-- `sources_fingerprint` of crates/ontixa-db/src/rename.rs, `workspace_fingerprint` and `check` of
-- crates/ontixa-db/src/db.rs.
-- The texts and module names of the database are read as bytes. A panic is `none`. A report has the
-- diagnostics value of `check`; the sort of the diagnostics and the times are left out.
use Prim.Native.Nat.{bit_xor}
use ontixa.Prelude.{
  ℕ, zero, suc, ◌*◌, ◌/◌, ◌%◌, ◌^◌, Bool, true, false, ◌&&◌, List, [], ◌∷◌, map, Option, none, some,
  length, get_elem?, ◌==◌, if◌then◌else◌,
}
use ontixa.Source.Span.{Span}
use ontixa.Source.File.{get_range}
use ontixa.Db.Query.{QueryKey, stages}
use ontixa.Db.Task.{Evaluators}
use ontixa.Db.Engine.{Db, FileSlot, top_demand}
use ontixa.Db.Edits.{set_sources}
use ontixa.Transactions.Splice.{Edit}

-- One byte of FNV-1a-64.
unfoldable pub mix_byte : ℕ → ℕ → ℕ
mix_byte h b = bit_xor h b * 1099511628211 % 2 ^ 64

unfoldable pub mix : ℕ → List ℕ → ℕ
unfolding mix_byte
mix h [] = h
mix h (b ∷ bs) = mix (mix_byte h b) bs

-- `to_le_bytes` of an integer of `k` bytes.
unfoldable pub le_bytes : ℕ → ℕ → List ℕ
le_bytes zero n = []
le_bytes (suc k) n = n % 256 ∷ le_bytes k (n / 256)

abbrev pub offset_basis : ℕ
offset_basis = 14695981039346656037

unfoldable pub same_bytes : List ℕ → List ℕ → Bool
same_bytes [] [] = true
same_bytes (a ∷ as') (b ∷ bs) = a == b && same_bytes as' bs
same_bytes _ _ = false

-- `get(start..end).is_some_and(|s| s == expected)`
unfoldable pub covers : List ℕ → Span → List ℕ → Bool
unfolding same_bytes get_range
covers text s expected = elim (get_range text s.start s.end) [
  | none ↦ false
  | some site ↦ same_bytes site expected
]

pub data ApplyError : Type 0 where
  other_database : ApplyError
  stale : ℕ → ℕ → ApplyError
  workspace_changed candidate_changed : ApplyError
  moved_site : Span → ApplyError

pub data Outcome {ℓ} (A : Type ℓ) : Type ℓ where
  rejected : ApplyError → Outcome A
  applied : A → Outcome A

module _ (E : Evaluators) (bytes : E.Text → List ℕ) (module_bytes : E.Module → List ℕ) where
  open E use {Val, Diag, Text, Module}

  -- A database with its incarnation.
  pub record Session : Type 0 where
    pub id : ℕ
    pub db : Db E

  -- A rename plan is one without op summaries, whose edits all expect the old name.
  pub record Plan : Type 0 where
    pub root : ℕ
    pub ops : List (List ℕ)
    pub revision : ℕ
    pub db_id : ℕ
    pub workspace_fp : ℕ
    pub candidate_fp : ℕ
    pub edits : List Edit
    pub new_sources : List (ℕ × Text)

  -- A rename report has no count of ops.
  pub record Report : Type 0 where
    pub files : List ℕ
    pub ops : ℕ
    pub edits : ℕ
    pub diags : Val
    pub revision : ℕ

  unfoldable pub mix_files : ℕ → List (FileSlot E) → ℕ
  unfolding mix
  mix_files h [] = h
  mix_files h (f ∷ fs) =
      mix_files
        (mix (mix (mix (mix h (module_bytes f.module_name)) (0 ∷ [])) (bytes f.text)) (255 ∷ [])) fs

  unfoldable pub workspace_fingerprint : Db E → ℕ
  unfolding mix_files le_bytes
  workspace_fingerprint db = mix_files (mix offset_basis (le_bytes 8 (length db.files))) db.files

  unfoldable pub mix_sources : ℕ → List (ℕ × Text) → ℕ
  unfolding mix le_bytes
  mix_sources h [] = h
  mix_sources h ((f, t) ∷ rest) = mix_sources (mix (mix h (le_bytes 8 f)) (bytes t)) rest

  unfoldable pub sources_fingerprint : List (ℕ × Text) → ℕ
  unfolding mix_sources
  sources_fingerprint sources = mix_sources (mix offset_basis (le_bytes 8 (length sources))) sources

  -- The first edit whose site has other bytes than the plan recorded; the outer `none` is the panic
  -- of a file that is not registered.
  unfoldable pub find_moved : List (FileSlot E) → List Edit → Option (Option Span)
  unfolding covers
  find_moved files [] = some none
  find_moved files (e ∷ es) =
      let rest = find_moved files es in
      elim (get_elem? files e.file) [
        | none ↦ none
        | some s ↦ if covers (bytes s.text) e.span e.expected then rest else some (some e.span)
      ]

  abbrev pub file_of : ℕ × Text → ℕ
  file_of (f, t) = f

  -- The write and the check that follows it.
  unfoldable pub commit : Plan → Session → Option (Outcome Report × Session)
  unfolding set_sources top_demand
  commit p s = elim (set_sources E p.new_sources s.db) [
    | none ↦ none
    | some db ↦ elim (top_demand E stages (QueryKey.diagnostics p.root) db) [
      | none ↦ none
      | some (v, db') ↦ some (
        applied (record {
          files = map file_of p.new_sources;
          ops = length p.ops;
          edits = length p.edits;
          diags = v;
          revision = db'.revision;
        }),
        record s { db = db' },
      )
    ]
  ]

  -- The last guard.
  unfoldable pub check_sites : Plan → Session → Option (Outcome Report × Session)
  unfolding find_moved commit
  check_sites p s = elim (find_moved s.db.files p.edits) [
    | none ↦ none
    | some none ↦ commit p s
    | some (some at) ↦ some (rejected (moved_site at), s)
  ]

  unfoldable pub apply_patch : Plan → Session → Option (Outcome Report × Session)
  unfolding workspace_fingerprint sources_fingerprint check_sites
  apply_patch p s =
      if p.db_id == s.id
      then (if s.db.revision == p.revision
          then (if workspace_fingerprint s.db == p.workspace_fp
              then (if sources_fingerprint p.new_sources == p.candidate_fp
                  then check_sites p s
                  else some (rejected candidate_changed, s))
              else some (rejected workspace_changed, s))
          else some (rejected (stale p.revision s.db.revision), s))
      else some (rejected other_database, s)

  -- The edits of a rename expect the old name.
  abbrev pub expecting : List ℕ → Edit → Edit
  expecting name e = record e { expected = name }

  unfoldable pub apply_rename : List ℕ → Plan → Session → Option (Outcome Report × Session)
  unfolding apply_patch
  apply_rename old_name p s = apply_patch (record p { edits = map (expecting old_name) p.edits }) s
