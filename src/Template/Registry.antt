-- ===== src/Template/Registry.antt =====
-- internal/template/registry.go: the registry of built templates and its file. `encode` and `decode`
-- stand for `json.MarshalIndent` and `json.Unmarshal` of the document around the map of entries.
pub mod Order
pub mod File
pub mod Removal
mod Tests
use firefork_ai.Prelude.{
  ℕ, ◌+◌, ◌^◌, Bool, true, false, not, ◌||◌, ◌&&◌, List, [], ◌∷◌, ◌++◌, Option, none, some,
  if◌then◌else◌, ltb, ◌==◌, Result, ok, err, ◌>>=◌, ◌>>◌, fail_if, or_fail, length, take, map,
}
use firefork_ai.Prelude.Text.{Text, codes, text_eq, is_empty}
use firefork_ai.Prelude.Table.{Table, lookup, insert, delete}
use firefork_ai.Template.Key.{entry_key}

pub record Entry : Type 0 where
  pub name : Text
  pub version : Text
  pub vcpus : ℕ
  pub mem_mib : ℕ
  pub local_mem_file : Text
  pub local_state_file : Text
  pub manifest_key : Text
  pub remote_bucket : Text
  pub created_at : ℕ
  pub notes : Text
  pub agent_secret_hex : Text

pub record Registry : Type 0 where
  pub path : Text
  pub entries : List (Text × Entry)

-- The registry's file and its temporary, if they exist.
pub record Disk : Type 0 where
  pub file : Option Text
  pub tmp : Option Text

pub data Error : Type 0 where
  path_required mkdir_failed open_failed read_failed too_large parse_failed incomplete_entry
        marshal_failed write_failed rename_failed chmod_failed :
      Error

abbrev pub max_registry_file_bytes : ℕ
max_registry_file_bytes = 2 ^ 20

abbrev pub max_notes_bytes : ℕ
max_notes_bytes = 4096

-- How far `persist` gets. A failed write leaves a part of the bytes, or nothing, in the temporary.
pub data Persist : Type 0 where
  marshal_fails rename_fails chmod_fails completes : Persist
  write_fails : (partial : Option Text) → Persist

-- `e.Notes[:MaxNotesBytes]`
unfoldable pub truncate_notes : Entry → Entry
truncate_notes e =
    if ltb max_notes_bytes (length e.notes)
    then record e { notes = take max_notes_bytes e.notes }
    else e

module _ (encode : List (Text × Entry) → Text) where
  -- `persist`: the disk and the error, if any.
  unfoldable pub persist : Persist → List (Text × Entry) → Disk → Disk × Option Error
  persist marshal_fails m d = (d, some marshal_failed)
  persist (write_fails partial) m d = (record d { tmp = partial }, some write_failed)
  persist rename_fails m d = (record d { tmp = some (encode m) }, some rename_failed)
  persist chmod_fails m d = (record { file = some (encode m); tmp = none }, some chmod_failed)
  persist completes m d = (record { file = some (encode m); tmp = none }, none)

  put_entry : Entry → Registry → Registry
  put_entry e r = record r { entries = insert (entry_key e.name e.version) e r.entries }

  put_checked : Persist → Entry → Registry → Disk → Bool → Registry × Disk × Option Error
  unfolding truncate_notes put_entry
  put_checked o e r d true = (r, d, some incomplete_entry)
  put_checked o e r d false =
      let r' = put_entry (truncate_notes e) r in let (d', f) = persist o r'.entries d in (r', d', f)

  -- `Put` of a non-nil entry.
  unfoldable pub put : Persist → Entry → Registry → Disk → Registry × Disk × Option Error
  unfolding put_checked
  put o e r d = put_checked o e r d (is_empty e.name || is_empty e.version)

  unfoldable pub delete_found :
      Persist → Text → Registry → Disk → Option Entry → Registry × Disk × Bool × Option Error
  delete_found o key r d none = (r, d, false, none)
  delete_found o key r d (some e) =
      let r' = record r { entries = delete key r.entries } in
      let (d', f) = persist o r'.entries d in (r', d', true, f)

  -- `Delete`
  unfoldable pub delete_entry :
      Persist → Text → Text → Registry → Disk → Registry × Disk × Bool × Option Error
  unfolding delete_found
  delete_entry o name version r d =
      let key = entry_key name version in delete_found o key r d (lookup key r.entries)

-- `Get`
unfoldable pub get : Text → Text → Registry → Option Entry
get name version r = lookup (entry_key name version) r.entries

-- How opening and reading the file goes, when it is there.
pub data Opening : Type 0 where
  mkdir_fails open_fails read_fails opens : Opening

module _ (decode : Text → Option (Option (List (Text × Entry)))) where
  -- The bytes that were read, at most one more than the bound. `decode` gives `none` where it fails,
  -- `some none` where the document has no map.
  load_entries : Text → Text → Result Error Registry
  load_entries path b =
      if ltb max_registry_file_bytes (length b)
      then err too_large
      else if length b == 0
      then ok (record { path = path; entries = [] })
      else elim (decode b) [
        | none ↦ err parse_failed
        | some none ↦ ok (record { path = path; entries = [] })
        | some (some m) ↦ ok (record { path = path; entries = m })
      ]

  read_file : Opening → Text → Option Text → Result Error Registry
  unfolding load_entries
  read_file mkdir_fails path f = err mkdir_failed
  read_file open_fails path f = err open_failed
  read_file o path none = ok (record { path = path; entries = [] })
  read_file read_fails path (some b) = err read_failed
  read_file opens path (some b) = load_entries path (take (max_registry_file_bytes + 1) b)

  -- `OpenRegistry`
  unfoldable pub open_registry : Opening → Text → Disk → Result Error Registry
  unfolding read_file
  open_registry o path d = do fail_if (is_empty path) path_required; read_file o path d.file

-- `<` on strings
unfoldable pub text_lt : Text → Text → Bool
text_lt s [] = false
text_lt [] (d ∷ t) = true
text_lt (c ∷ s) (d ∷ t) = ltb c d || ((c == d) && text_lt s t)

unfoldable pub entry_less : Entry → Entry → Bool
unfolding text_lt
entry_less a b =
    if not (text_eq a.name b.name) then text_lt a.name b.name else text_lt a.version b.version

insert_sorted : Entry → List Entry → List Entry
insert_sorted e [] = e ∷ []
insert_sorted e (f ∷ l) =
    let rest = insert_sorted e l in if entry_less f e then f ∷ rest else e ∷ f ∷ l

sort_entries : List Entry → List Entry
unfolding insert_sorted
sort_entries [] = []
sort_entries (e ∷ l) = insert_sorted e (sort_entries l)

-- `List`: the map's values in its order of iteration, sorted by `sort.Slice`.
unfoldable pub list_entries : Registry → List Entry
unfolding sort_entries
list_entries r = sort_entries (map (λ p. p.1) r.entries)
