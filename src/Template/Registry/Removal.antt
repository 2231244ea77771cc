-- ===== src/Template/Registry/Removal.antt =====
-- internal/template/registry.go: `Delete` against `Get` and the file.
use firefork_ai.Prelude.{
  ◌≡◌, refl, sym, ap, ◌∙◌, Bool, true, false, ◌&&◌, List, Option, none, some, if◌then◌else◌,
  Bool-cases, ◌⊎◌, inl, inr,
}
use firefork_ai.Prelude.Text.{Text, text_eq, text_eq_iff}
use firefork_ai.Prelude.Table.{lookup, delete, lookup-delete}
use firefork_ai.Template.Key.{entry_key}
use firefork_ai.Template.Key.Laws.{IsHalf}
use firefork_ai.Template.Registry.{
  Entry, Registry, Disk, Error, Persist, marshal_fails, rename_fails, chmod_fails, completes,
  write_fails, persist, delete_found, delete_entry, get,
}
use firefork_ai.Template.Registry.File.{text_eq-entry_key}

-- The whole map is in the file, or there is an error and the file may be the old one.
pub IsSaved : Option Text → Text → Option Text → Option Error → Type 0
IsSaved old b new none = new ≡ some b
IsSaved old b new (some x) = (new ≡ old) ⊎ (new ≡ some b)

-- What `Delete` answers, for what `Get` finds: nothing is done, or what is left goes to the file.
pub IsAnswered :
    (List (Text × Entry) → Text)
    → Registry
    → Disk
    → Option Entry
    → Registry × Disk × Bool × Option Error
    → Type 0
IsAnswered encode r d none t = t ≡ (r, d, false, none)
IsAnswered encode r d (some e) t =
    (t.2 ≡ true) × IsSaved d.file (encode (t.0).entries) (t.1).file t.3

nothing_there :
    (key k : Text) (m : List (Text × Entry))
    → lookup key m ≡ none
    → lookup k m ≡ (if text_eq key k then none else lookup k m)
nothing_there key k m e = elim (Bool-cases (text_eq key k)) [
  | inl q ↦ rw q (ap (λ x. lookup x m) (sym ((text_eq_iff key k).0 q)) ∙ e)
  | inr q ↦ rw q refl
]

module _ (encode : List (Text × Entry) → Text) (d : Disk) where
  persist-IsSaved :
      (q : Persist) (m : List (Text × Entry))
      → let t = persist encode q m d in IsSaved d.file (encode m) (t.0).file t.1
  unfolding persist IsSaved
  persist-IsSaved marshal_fails m = inl refl
  persist-IsSaved (write_fails p) m = inl refl
  persist-IsSaved rename_fails m = inl refl
  persist-IsSaved chmod_fails m = inr refl
  persist-IsSaved completes m = refl

  module _ (o : Persist) (r : Registry) where
    delete_found_lem :
        (key : Text) (x : Option Entry)
        → lookup key r.entries ≡ x
        → let t = delete_found encode o key r d x in
          ((k : Text)
            → lookup k (t.0).entries ≡ (if text_eq key k then none else lookup k r.entries))
          × IsAnswered encode r d x t
    unfolding delete_found IsAnswered
    delete_found_lem key none h = (λ k. nothing_there key k r.entries h, refl)
    delete_found_lem key (some e) h =
        (λ k. lookup-delete key k r.entries, (refl, persist-IsSaved o (delete key r.entries)))

    -- After `Delete`, `Get` finds nothing under the pair and under any other what it found before,
    -- whether the file could be written or not. When there was nothing under the pair, `Delete` answers
    -- false without an error and changes neither the registry nor the disk; otherwise it answers true,
    -- and without an error the file holds the map that is left, while with one it holds that or is the
    -- old one. Names and versions are such as a key may have.
    pub get-delete_entry :
        (n v m w : Text)
        → IsHalf n
        → IsHalf v
        → IsHalf m
        → IsHalf w
        → let t = delete_entry encode o n v r d in
          (get m w t.0 ≡ (if text_eq n m && text_eq v w then none else get m w r))
          × IsAnswered encode r d (get n v r) t
    unfolding delete_entry get
    get-delete_entry n v m w a b c f =
        let (others, answer) =
          delete_found_lem (entry_key n v) (lookup (entry_key n v) r.entries) refl in
        (
          others (entry_key m w)
              ∙ ap (λ q. if q then none else lookup (entry_key m w) r.entries)
                  (text_eq-entry_key n v m w a b c f),
          answer,
        )
