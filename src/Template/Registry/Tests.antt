-- ===== src/Template/Registry/Tests.antt =====
-- The registry with one entry, put to a disk that takes it. The codec is a toy: it writes one byte, and
-- reading gives back the map of the test.
use firefork_ai.Prelude.{
  ◌≡◌, refl, ◌&&◌, List, [], ◌∷◌, Option, none, some, if◌then◌else◌, ltb, ◌==◌, ok, err, length,
  map, arith,
}
use mathlib.Core.List.{Perm}
use firefork_ai.Prelude.Table.{insert}
use firefork_ai.Template.Key.{entry_key}
use firefork_ai.Prelude.Text.{Text, codes, text_eq}
use firefork_ai.Template.Key.Laws.{IsHalf}
use firefork_ai.Template.Registry.{
  Entry, Registry, Disk, Error, too_large, completes, persist, put, put_checked, put_entry,
  delete_entry, truncate_notes, get, opens, open_registry, max_registry_file_bytes, list_entries,
}
use firefork_ai.Template.Registry.Order.{IsOrdered, list_entries-IsOrdered}
use firefork_ai.Template.Registry.Removal.{IsAnswered, get-delete_entry}
use firefork_ai.Template.Registry.File.{open_registry-put}

abbrev entry : Entry
entry = record {
  name = codes "py";
  version = codes "v1";
  vcpus = 1;
  mem_mib = 256;
  local_mem_file = [];
  local_state_file = [];
  manifest_key = [];
  remote_bucket = [];
  created_at = 0;
  notes = codes "hi";
  agent_secret_hex = [];
}

abbrev registry : Registry
registry = record { path = codes "/r.json"; entries = [] }

abbrev disk : Disk
disk = record { file = none; tmp = none }

abbrev encode : List (Text × Entry) → Text
encode m = length m ∷ []

abbrev after : List (Text × Entry)
after = (codes "py/v1", entry) ∷ []

abbrev decode : Text → Option (Option (List (Text × Entry)))
decode [] = none
decode (n ∷ b) = if n == 1 then some (some after) else some none

py-IsHalf : IsHalf (codes "py")
py-IsHalf = omega arith

v1-IsHalf : IsHalf (codes "v1")
v1-IsHalf = omega arith

abbrev done : Registry × Disk × Option Error
done = put encode completes entry registry disk

decodes : decode (encode (done.0).entries) ≡ some (some (done.0).entries)
unfolding put put_checked put_entry truncate_notes persist insert entry_key text_eq
decodes = refl

saved : done.2 ≡ none
unfolding put put_checked persist
saved = refl

open_registry-put_example :
    open_registry decode opens (codes "/r.json") done.1
    ≡ (if ltb max_registry_file_bytes 1 then err too_large else ok done.0)
open_registry-put_example =
    open_registry-put encode completes entry registry disk decode decodes (omega arith) refl saved

abbrev held : Registry
held = record { path = codes "/r.json"; entries = after }

get-delete_entry_example :
    let t = delete_entry encode completes (codes "py") (codes "v1") held disk in
    (get (codes "py") (codes "v1") t.0 ≡ (
      if text_eq (codes "py") (codes "py") && text_eq (codes "v1") (codes "v1")
      then none
      else get (codes "py") (codes "v1") held))
    × IsAnswered encode held disk (get (codes "py") (codes "v1") held) t
get-delete_entry_example =
    get-delete_entry encode disk completes held (codes "py") (codes "v1") (codes "py") (codes "v1")
      py-IsHalf v1-IsHalf py-IsHalf v1-IsHalf

-- Two versions of one template, and another before them.
abbrev three : Registry
three = record {
  path = codes "/r.json";
  entries =
      (codes "py/v2", record entry { version = codes "v2" })
      ∷ (codes "py/v1", entry)
      ∷ (codes "go/v3", record entry { name = codes "go"; version = codes "v3" })
      ∷ [];
}

list_entries-IsOrdered_example :
    IsOrdered (list_entries three) × Perm (list_entries three) (map (λ p. p.1) three.entries)
list_entries-IsOrdered_example = list_entries-IsOrdered three
