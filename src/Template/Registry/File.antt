-- ===== src/Template/Registry/File.antt =====
-- internal/template/registry.go: the map of entries against its file, in `Put`, `persist` and `OpenRegistry`.
use firefork_ai.Prelude.{
  ◌+◌, ◌≤◌, ◌<◌, ◌≡◌, refl, sym, ap, ◌∙◌, Bool, true, false, ◌||◌, ◌&&◌, List, Option, none, some,
  if◌then◌else◌, ltb, ok, err, length, take, take_all, length-take, Bool-cases, ◌⊎◌, inl, inr,
  arith,
}
use firefork_ai.Prelude.Text.{Text, text_eq, text_eq_iff, is_empty}
use firefork_ai.Template.Key.{entry_key}
use firefork_ai.Template.Key.Laws.{IsHalf, entry_key_injective}
use firefork_ai.Template.Registry.{
  Entry, Registry, Disk, too_large, Persist, marshal_fails, write_fails, rename_fails, chmod_fails,
  completes, persist, put_entry, put_checked, put, opens, load_entries, read_file, open_registry,
  max_registry_file_bytes, max_notes_bytes,
}

-- The notes of an entry fit the bound.
abbrev pub HasShortNotes : Entry → Type 0
HasShortNotes e = length e.notes ≤ max_notes_bytes

-- On the names that a key may have, keys are equal when the names are.
pub text_eq-entry_key :
    (n v m w : Text)
    → IsHalf n
    → IsHalf v
    → IsHalf m
    → IsHalf w
    → text_eq (entry_key n v) (entry_key m w) ≡ text_eq n m && text_eq v w
text_eq-entry_key n v m w a b c d = elim (Bool-cases (text_eq (entry_key n v) (entry_key m w))) [
  | inl q ↦
      let (x, y) = entry_key_injective n v m w a b c d ((text_eq_iff _ _).0 q) in
      q ∙ sym (ap (λ z. z && text_eq v w) ((text_eq_iff n m).1 x) ∙ (text_eq_iff v w).1 y)
  | inr q ↦ elim (Bool-cases (text_eq n m)) [
    | inr x ↦ ground arith
    | inl x ↦ elim (Bool-cases (text_eq v w)) [
      | inr y ↦ ground arith
      | inl y ↦
          let same : entry_key n v ≡ entry_key m w =
            ap (λ t. entry_key t v) ((text_eq_iff n m).0 x)
            ∙ ap (entry_key m) ((text_eq_iff v w).0 y) in
          absurd (ground (arith, (text_eq_iff (entry_key n v) (entry_key m w)).1 same))
    ]
  ]
]

module _ (decode : Text → Option (Option (List (Text × Entry)))) (path : Text) where
  loads :
      (b : Text) (m : List (Text × Entry))
      → decode b ≡ some (some m)
      → 0 < length b
      → ltb max_registry_file_bytes (length b) ≡ false
      → load_entries decode path b ≡ ok (record { path = path; entries = m })
  unfolding load_entries
  loads b m u p q = ground (arith, u)

  refuses :
      (b : Text)
      → ltb max_registry_file_bytes (length b) ≡ true
      → load_entries decode path b ≡ err too_large
  unfolding load_entries
  refuses b q = rw q refl

  opens_saved :
      (d : Disk) (b : Text) (m : List (Text × Entry))
      → is_empty path ≡ false
      → decode b ≡ some (some m)
      → 0 < length b
      → d.file ≡ some b
      → open_registry decode opens path d ≡ (
          if ltb max_registry_file_bytes (length b)
          then err too_large
          else ok (record { path = path; entries = m }))
  unfolding open_registry read_file
  opens_saved d b m e u p f = elim (Bool-cases (ltb max_registry_file_bytes (length b))) [
    | inl q ↦
        rw (e, f, q, open_registry)
          (refuses (take (max_registry_file_bytes + 1) b) (
            ap (ltb max_registry_file_bytes)
              (length-take (max_registry_file_bytes + 1) b (ground arith))))
    | inr q ↦
        rw (e, f, q, open_registry)
          (ap (load_entries decode path) (take_all (max_registry_file_bytes + 1) b (ground arith))
            ∙ loads b m u p q)
  ]

module _ (encode : List (Text × Entry) → Text) where
  -- The file is never half written: after `persist`, wherever it stops, it is the old one or the whole
  -- encoding of the map, and it is the latter when there is no error.
  pub persist_atomic :
      (o : Persist) (m : List (Text × Entry)) (d : Disk)
      → let t = persist encode o m d in
        (((t.0).file ≡ d.file) ⊎ ((t.0).file ≡ some (encode m)))
        × (t.1 ≡ none → (t.0).file ≡ some (encode m))
  unfolding persist
  persist_atomic marshal_fails m d = (inl refl, λ e. absurd (ground arith))
  persist_atomic (write_fails p) m d = (inl refl, λ e. absurd (ground arith))
  persist_atomic rename_fails m d = (inl refl, λ e. absurd (ground arith))
  persist_atomic chmod_fails m d = (inr refl, λ e. refl)
  persist_atomic completes m d = (inr refl, λ e. refl)

module _ (encode : List (Text × Entry) → Text) (o : Persist) (e : Entry) (r : Registry)
    (d : Disk) where
  put_path : (c : Bool) → ((put_checked encode o e r d c).0).path ≡ r.path
  unfolding put_checked put_entry
  put_path true = refl
  put_path false = refl

  put_saved :
      (c : Bool)
      → (put_checked encode o e r d c).2 ≡ none
      → ((put_checked encode o e r d c).1).file
        ≡ some (encode ((put_checked encode o e r d c).0).entries)
  unfolding put_checked put_entry
  put_saved true q = absurd (ground arith)
  put_saved false q = (persist_atomic encode o _ d).1 q

  module _ (decode : Text → Option (Option (List (Text × Entry)))) where
    -- A `Put` without an error survives a restart, for every entry and a path that is not empty: if decoding undoes the encoding of its map, which
    -- is not empty, `OpenRegistry` of the same path then loads exactly the registry that `Put` left, unless
    -- its file is larger than the bound, which `Put` does not check and `OpenRegistry` refuses.
    pub open_registry-put :
        let m = ((put encode o e r d).0).entries in
        decode (encode m) ≡ some (some m)
        → 0 < length (encode m)
        → is_empty r.path ≡ false
        → (put encode o e r d).2 ≡ none
        → let t = put encode o e r d in
          open_registry decode opens r.path t.1 ≡ (
            if ltb max_registry_file_bytes (length (encode (t.0).entries))
            then err too_large
            else ok t.0)
    unfolding put put_checked
    open_registry-put undo full p q =
        let t = put encode o e r d in
        opens_saved decode r.path t.1 (encode (t.0).entries) (t.0).entries p undo full
          (put_saved (is_empty e.name || is_empty e.version) q)
        ∙ ap
            (λ w.
              if ltb max_registry_file_bytes (length (encode (t.0).entries))
              then err too_large
              else ok (record { path = w; entries = (t.0).entries }))
            (sym (put_path (is_empty e.name || is_empty e.version)))
