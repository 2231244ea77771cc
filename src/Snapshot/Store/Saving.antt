-- ===== src/Snapshot/Store/Saving.antt =====
-- What `Save` leaves in the store.
use firefork_ai.Prelude.{
  ℕ, ◌≡◌, refl, ap, sym, subst, ◌∙◌, Bool, false, [], Option, none, some, if◌then◌else◌, Result, ok,
  err, length, arith,
}
use firefork_ai.Prelude.Text.{Text, codes, text_eq, text_eq_refl}
use firefork_ai.Prelude.Table.{lookup}
use firefork_ai.Storage
use firefork_ai.Storage.{Storage}
use firefork_ai.Snapshot.Manifest.{Manifest, Files, manifest_key, mem_file_key_for, state_key}
use firefork_ai.Snapshot.Manifest.Keys.{mem_file-state, manifest-state, manifest-mem_file}
use firefork_ai.Snapshot.Store.{
  Codec, Store, LocalPaths, SaveOptions, Error, Shape, Call, chosen_compression, chosen_level,
  artifact, putting_state, putting_memfile, putting_manifest, new_manifest, manifest_put,
  put_manifest, memfile_put, put_memfile, open_memfile, state_put, put_state, check_save,
  save_checked, save,
}

module _ (c : Codec) (s : Storage) where
  -- The bundle of a manifest is in the store: the manifest itself, and the two objects it names, with
  -- the hashes it gives.
  pub record Saved (q : Shape) (m : Manifest) (uploaded state : Text) (b : s.Bucket) : Type 0 where
    pub buf : Text
    pub encoded : c.encode m ≡ some buf
    pub manifest_there : s.contents (manifest_key q.name q.version) b ≡ some buf
    pub mem_there : s.contents m.mem_file_key b ≡ some uploaded
    pub state_there : s.contents m.state_key_of b ≡ some state

  -- A put that succeeded, seen in the bucket it left.
  pub wrote :
      (f : Bool) (k v j : Text) (b b' : s.Bucket) (t : Unit {0})
      → s.put f k v b ≡ (b', ok t)
      → s.contents j b' ≡ (if text_eq k j then some v else s.contents j b)
  wrote f k v j b b' tt e =
      ap (λ p. s.contents j p.0) (sym e) ∙ s.put_writes f k v j b (ap (λ p. p.1) e)

  wrote_there :
      (f : Bool) (k v : Text) (b b' : s.Bucket) (t : Unit {0})
      → s.put f k v b ≡ (b', ok t)
      → s.contents k b' ≡ some v
  wrote_there f k v b b' t e =
      wrote f k v k b b' t e ∙ ap (λ x. if x then some v else s.contents k b) (text_eq_refl k)

  wrote_elsewhere :
      (f : Bool) (k v j w : Text) (b b' : s.Bucket) (t : Unit {0})
      → s.put f k v b ≡ (b', ok t)
      → text_eq k j ≡ false
      → s.contents j b ≡ some w
      → s.contents j b' ≡ some w
  wrote_elsewhere f k v j w b b' t e n h =
      wrote f k v j b b' t e ∙ ap (λ x. if x then some v else s.contents j b) n ∙ h

  module _ (fails : Call → Bool) (q : Shape) (opt : SaveOptions) (z : Bool) (state : Text) where
    module _ (uploaded : Text) where
      abbrev man : Manifest
      man = new_manifest c s q opt z uploaded state

      -- What a successful result means.
      abbrev IsDone : Manifest → s.Bucket × Result Error Manifest → Type 0
      IsDone m t = t.1 ≡ ok m → (m ≡ man) × Saved q man uploaded state t.0

      manifest_put-Saved :
          (m : Manifest) (b : s.Bucket) (buf : Text)
          (p : s.Bucket × Result Storage.Error (Unit {0}))
          → s.put (fails putting_manifest) (manifest_key q.name q.version) buf b ≡ p
          → c.encode man ≡ some buf
          → s.contents (mem_file_key_for q.name q.version z) b ≡ some uploaded
          → s.contents (state_key q.name q.version) b ≡ some state
          → IsDone m (manifest_put c s man p)
      unfolding manifest_put new_manifest
      manifest_put-Saved m b buf (b', err e) f u x y h = absurd (ground arith)
      manifest_put-Saved m b buf (b', ok t) f u x y h = (
        ground arith,
        record {
          buf = buf;
          encoded = u;
          manifest_there = wrote_there _ _ buf b b' t f;
          mem_there =
              wrote_elsewhere _ _ buf _ uploaded b b' t f (manifest-mem_file q.name q.version z) x;
          state_there =
              wrote_elsewhere _ _ buf _ state b b' t f (manifest-state q.name q.version) y;
        },
      )

      put_manifest-Saved :
          (m : Manifest) (b : s.Bucket) (o : Option Text)
          → c.encode man ≡ o
          → s.contents (mem_file_key_for q.name q.version z) b ≡ some uploaded
          → s.contents (state_key q.name q.version) b ≡ some state
          → IsDone m (put_manifest c s fails man b o)
      unfolding put_manifest new_manifest
      put_manifest-Saved m b none u x y h = absurd (ground arith)
      put_manifest-Saved m b (some buf) u x y h = manifest_put-Saved m b buf _ refl u x y h

      memfile_put-Saved :
          (m : Manifest) (b : s.Bucket) (p : s.Bucket × Result Storage.Error (Unit {0}))
          → s.put (fails putting_memfile) (mem_file_key_for q.name q.version z) uploaded b ≡ p
          → s.contents (state_key q.name q.version) b ≡ some state
          → IsDone m (memfile_put c s fails man p)
      unfolding memfile_put
      memfile_put-Saved m b (b', err e) f y h = absurd (ground arith)
      memfile_put-Saved m b (b', ok t) f y h =
          put_manifest-Saved m b' (c.encode man) refl (wrote_there _ _ uploaded b b' t f)
            (wrote_elsewhere _ _ uploaded _ state b b' t f (mem_file-state q.name q.version z) y) h

    -- The artifact that was uploaded, and what a successful result means.
    abbrev pub IsSaved : ℕ → Option Text → Manifest → s.Bucket × Result Error Manifest → Type 0
    IsSaved level mem m t =
        t.1 ≡ ok m
        → (raw : Text) × (uploaded : Text) × (mem ≡ some raw)
          × (artifact c s z level raw ≡ ok uploaded)
          × (m ≡ man uploaded)
          × Saved q (man uploaded) uploaded state t.0

    put_memfile-Saved :
        (m : Manifest) (b : s.Bucket) (level : ℕ) (raw : Text) (r : Result Error Text)
        → artifact c s z level raw ≡ r
        → s.contents (state_key q.name q.version) b ≡ some state
        → IsSaved level (some raw) m (put_memfile c s fails q opt z state b r)
    unfolding put_memfile
    put_memfile-Saved m b level raw (err e) a y h = absurd (ground arith)
    put_memfile-Saved m b level raw (ok uploaded) a y h =
        let (p, v) = memfile_put-Saved uploaded m b _ refl y h in (raw, uploaded, refl, a, p, v)

    open_memfile-Saved :
        (m : Manifest) (b : s.Bucket) (level : ℕ) (mem : Option Text)
        → s.contents (state_key q.name q.version) b ≡ some state
        → IsSaved level mem m (open_memfile c s fails q opt z level state mem b)
    unfolding open_memfile
    open_memfile-Saved m b level none y h = absurd (ground arith)
    open_memfile-Saved m b level (some raw) y h = put_memfile-Saved m b level raw _ refl y h

    state_put-Saved :
        (m : Manifest) (b : s.Bucket) (level : ℕ) (mem : Option Text)
        (p : s.Bucket × Result Storage.Error (Unit {0}))
        → s.put (fails putting_state) (state_key q.name q.version) state b ≡ p
        → IsSaved level mem m (state_put c s fails q opt z level state mem p)
    unfolding state_put
    state_put-Saved m b level mem (b', err e) f h = absurd (ground arith)
    state_put-Saved m b level mem (b', ok t) f h =
        open_memfile-Saved m b' level mem (wrote_there _ _ state b b' t f) h

-- What a manifest says of what was saved, and how it was asked for.
pub record Describes (c : Codec) (q : Shape) (opt : SaveOptions) (z : Bool) (uploaded state : Text)
    (m : Manifest) : Type 0 where
  pub current : m.schema_version ≡ 1
  pub for_name : m.name ≡ q.name
  pub for_version : m.version ≡ q.version
  pub for_shape : (m.vcpus ≡ q.vcpus) × (m.mem_mib ≡ q.mem_mib) × (m.created_at ≡ q.created_at)
  pub for_options : (m.kernel_version ≡ opt.kernel_version) × (m.notes ≡ opt.notes)
  pub mem_size : m.mem_file_size ≡ length uploaded
  pub mem_sha : m.mem_file_sha256 ≡ c.sha uploaded
  pub mem_compression : m.mem_file_compression ≡ (if z then codes "zstd" else [])
  pub size_of_state : m.state_size ≡ length state
  pub sha_of_state : m.state_sha256 ≡ c.sha state

new_manifest-Describes :
    (c : Codec) (s : Storage) (q : Shape) (opt : SaveOptions) (z : Bool) (uploaded state : Text)
    → Describes c q opt z uploaded state (new_manifest c s q opt z uploaded state)
unfolding new_manifest
new_manifest-Describes c s q opt z uploaded state = record {
  current = refl;
  for_name = refl;
  for_version = refl;
  for_shape = (refl, refl, refl);
  for_options = (refl, refl);
  mem_size = refl;
  mem_sha = refl;
  mem_compression = refl;
  size_of_state = refl;
  sha_of_state = refl;
}

-- A successful `Save`, from the files to the store.
pub record SavedFrom (c : Codec) (s : Storage) (st : Store) (q : Shape) (opt : SaveOptions)
    (local : LocalPaths) (files : Files) (m : Manifest) (b : s.Bucket) : Type 0 where
  pub raw : Text
  pub state : Text
  pub uploaded : Text
  pub raw_read : lookup local.mem_file files ≡ some raw
  pub state_read : lookup local.state files ≡ some state
  pub made : artifact c s (chosen_compression st opt) (chosen_level st opt) raw ≡ ok uploaded
  pub manifest : m ≡ new_manifest c s q opt (chosen_compression st opt) uploaded state
  pub describes : Describes c q opt (chosen_compression st opt) uploaded state m
  pub saved :
      Saved c s q
        (new_manifest c s q opt (chosen_compression st opt) uploaded state)
        uploaded
        state
        b

module _ (c : Codec) (s : Storage) (fails : Call → Bool) (st : Store) (q : Shape)
    (opt : SaveOptions) (local : LocalPaths) (files : Files) (b : s.Bucket) (m : Manifest) where
  put_state-SavedFrom :
      (o p : Option Text)
      → lookup local.state files ≡ o
      → lookup local.mem_file files ≡ p
      → (put_state c s fails st q opt o p b).1 ≡ ok m
      → SavedFrom c s st q opt local files m (put_state c s fails st q opt o p b).0
  unfolding put_state
  put_state-SavedFrom none p e f h = absurd (ground arith)
  put_state-SavedFrom (some state) p e f h =
      let (raw, uploaded, r, a, x, v) =
        state_put-Saved c s fails q opt (chosen_compression st opt) state m b (chosen_level st opt)
          p _ refl h in
      record {
        raw = raw;
        state = state;
        uploaded = uploaded;
        raw_read = f ∙ r;
        state_read = e;
        made = a;
        manifest = x;
        describes =
            subst (Describes c q opt (chosen_compression st opt) uploaded state) (sym x)
              (new_manifest-Describes c s q opt (chosen_compression st opt) uploaded state);
        saved = v;
      }

  save_checked-SavedFrom :
      (r : Result Error (Unit {0}))
      → (save_checked c s fails st q opt local files b r).1 ≡ ok m
      → SavedFrom c s st q opt local files m (save_checked c s fails st q opt local files b r).0
  unfolding save_checked
  save_checked-SavedFrom (err e) h = absurd (ground arith)
  save_checked-SavedFrom (ok _) h = put_state-SavedFrom _ _ refl refl h

  pub save-SavedFrom :
      (save c s fails st q opt local files b).1 ≡ ok m
      → SavedFrom c s st q opt local files m (save c s fails st q opt local files b).0
  unfolding save
  save-SavedFrom h = save_checked-SavedFrom (check_save c s q local) h
