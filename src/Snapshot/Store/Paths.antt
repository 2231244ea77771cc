-- ===== src/Snapshot/Store/Paths.antt =====
-- The local paths of internal/snapshot/store.go, and what a table of local files says at them.
use firefork_ai.Prelude.{
  ◌≡◌, refl, ap, ◌∙◌, Bool, true, false, ◌&&◌, [], ◌∷◌, ◌++◌, Option, none, some, if◌then◌else◌,
  ◌==◌, Bool-cases, inl, inr,
}
use firefork_ai.Prelude.Text.{Text, codes, text_eq, text_eq_refl, is_empty}
use firefork_ai.Prelude.Table.{lookup, insert, delete, lookup-insert, lookup-delete}
use firefork_ai.Snapshot.Manifest.{Files, mem_file_key_for}
use firefork_ai.Snapshot.Manifest.Keys.{text_eq-append}
use firefork_ai.Snapshot.Store.Load.{strip_slashes, after_slash, base, join}

append_filled : (p q : Text) → is_empty q ≡ false → is_empty (p ++ q) ≡ false
append_filled [] q f = f
append_filled (c ∷ p) q f = refl

strip_slashes-append :
    (p q : Text) → strip_slashes q ≡ q → is_empty q ≡ false → strip_slashes (p ++ q) ≡ p ++ q
unfolding strip_slashes
strip_slashes-append [] q e f = e
strip_slashes-append (ch ∷ p) q e f =
    ap (λ r. if is_empty r && ch == 47 then [] else ch ∷ r) (strip_slashes-append p q e f)
    ∙ ap (λ x. if x && ch == 47 then [] else ch ∷ (p ++ q)) (append_filled p q f)

after_slash-append : (acc p q : Text) → after_slash acc (p ++ 47 ∷ q) ≡ after_slash q q
unfolding after_slash
after_slash-append acc [] q = refl
after_slash-append acc (ch ∷ p) q = elim (Bool-cases (ch == 47)) [
  | inl e ↦ rw (e, after_slash) (after_slash-append (p ++ 47 ∷ q) p q)
  | inr e ↦ rw (e, after_slash) (after_slash-append acc p q)
]

base-append : (p q : Text) → strip_slashes (47 ∷ q) ≡ 47 ∷ q → base (p ++ 47 ∷ q) ≡ after_slash q q
unfolding base
base-append p q e =
    let w = p ++ 47 ∷ q in
    let filled = append_filled p (47 ∷ q) refl in
    let strip = strip_slashes-append p (47 ∷ q) e refl in
    ap
      (λ x.
        if x
        then codes "."
        else if is_empty (strip_slashes w)
        then codes "/"
        else after_slash (strip_slashes w) (strip_slashes w))
      filled
    ∙ ap (λ x. if is_empty x then codes "/" else after_slash x x) strip
    ∙ ap (λ x. if x then codes "/" else after_slash w w) filled
    ∙ after_slash-append w p q

-- What `Load` names the downloaded file.
abbrev pub file_name : Bool → Text
file_name z = if z then codes "memfile.zst" else codes "memfile.bin"

pub base-mem_file_key_for : (n v : Text) (z : Bool) → base (mem_file_key_for n v z) ≡ file_name z
unfolding mem_file_key_for strip_slashes after_slash
base-mem_file_key_for n v true = base-append (n ++ codes "/" ++ v) (codes "memfile.zst") refl
base-mem_file_key_for n v false = base-append (n ++ codes "/" ++ v) (codes "memfile.bin") refl

pub text_eq-join : (dir a b : Text) → text_eq (join dir a) (join dir b) ≡ text_eq a b
unfolding join
text_eq-join dir a b = text_eq-append (dir ++ codes "/") a b

-- A file after another was written or removed.
pub inserted :
    (k j v : Text) (o : Option Text) (d : Files)
    → text_eq k j ≡ false
    → lookup j d ≡ o
    → lookup j (insert k v d) ≡ o
inserted k j v o d n e = lookup-insert k j v d ∙ ap (λ x. if x then some v else lookup j d) n ∙ e

pub inserted_there : (k v : Text) (d : Files) → lookup k (insert k v d) ≡ some v
inserted_there k v d =
    lookup-insert k k v d ∙ ap (λ x. if x then some v else lookup k d) (text_eq_refl k)

pub deleted :
    (k j : Text) (o : Option Text) (d : Files)
    → text_eq k j ≡ false
    → lookup j d ≡ o
    → lookup j (delete k d) ≡ o
deleted k j o d n e = lookup-delete k j d ∙ ap (λ x. if x then none else lookup j d) n ∙ e
