-- ===== src/Fc/Socket.antt =====
-- internal/fc/restore_socket.go: the requests that drive a Firecracker process over its API socket.
-- `serves` says which of them the process answers with a status below 400.
mod Tests
use firefork_ai.Prelude.{
  ℕ, ◌+◌, ◌≡◌, refl, Bool, true, false, not, ◌||◌, ◌&&◌, List, [], ◌∷◌, ◌++◌, if◌then◌else◌, Result,
  ok, err, total, All, Bool-cases, inl, inr, arith,
}
use firefork_ai.Prelude.Text.{Text, is_empty}
use firefork_ai.Fc.Host.{SnapshotPaths}

pub data Request : Type 0 where
  -- `PUT /snapshot/load`, with whether `resume_vm` is in the body
  put_load : SnapshotPaths → (resume_vm : Bool) → Request
  -- `PATCH /vm` to `Resumed`
  patch_resumed : Request

pub data Error : Type 0 where
  socket_required paths_required load_failed resume_failed : Error

-- `RestoreOptions` of snapshot.go; there is one memory backend.
pub record RestoreOptions : Type 0 where
  pub resume_on_load : Bool
  pub combined_load_resume : Bool

-- The last section of `RestoreOnSocket`: resume the loaded machine.
unfoldable pub resume_loaded :
    (Request → Bool) → RestoreOptions → List Request → List Request × Result Error (Unit {0})
resume_loaded serves opts sent =
    if opts.resume_on_load && not opts.combined_load_resume
    then (sent ++ patch_resumed ∷ [], if serves patch_resumed then ok tt else err resume_failed)
    else (sent, ok tt)

-- The requests sent, in order, and the result.
unfoldable pub restore_on_socket :
    (Request → Bool)
    → Text
    → SnapshotPaths
    → RestoreOptions
    → List Request × Result Error (Unit {0})
unfolding resume_loaded
restore_on_socket serves socket snap opts =
    let load = put_load snap opts.combined_load_resume in
    if is_empty socket
    then ([], err socket_required)
    else if serves load
    then resume_loaded serves opts (load ∷ [])
    else (load ∷ [], err load_failed)

unfoldable pub load_on_socket :
    (Request → Bool) → Text → SnapshotPaths → List Request × Result Error (Unit {0})
load_on_socket serves socket snap =
    let load = put_load snap false in
    if is_empty socket
    then ([], err socket_required)
    else if is_empty snap.mem_file_path || is_empty snap.state_path
    then ([], err paths_required)
    else (load ∷ [], if serves load then ok tt else err load_failed)

unfoldable pub resume_on_socket : (Request → Bool) → Text → List Request × Result Error (Unit {0})
resume_on_socket serves socket =
    if is_empty socket
    then ([], err socket_required)
    else (patch_resumed ∷ [], if serves patch_resumed then ok tt else err resume_failed)

-- How often a request resumes the guest.
abbrev pub resumes : Request → ℕ
resumes (put_load snap true) = 1
resumes (put_load snap false) = 0
resumes patch_resumed = 1

abbrev pub loads : Request → ℕ
loads (put_load snap b) = 1
loads patch_resumed = 0

-- A request that loads no other snapshot.
abbrev pub LoadsOnly : SnapshotPaths → Request → Type 0
LoadsOnly snap (put_load p b) = p ≡ snap
LoadsOnly snap patch_resumed = Unit

restores_with :
    (serves : Request → Bool) (c : ℕ) (socket : Text) (snap : SnapshotPaths)
    (resume combined : Bool)
    → let r =
        restore_on_socket serves
          (c ∷ socket)
          snap
          (record { resume_on_load = resume; combined_load_resume = combined }) in
      r.1 ≡ ok tt
      → (total loads r.0 ≡ 1)
        × (total resumes r.0 ≡ (if resume || combined then 1 else 0))
        × All (LoadsOnly snap) r.0
        × All (λ q. serves q ≡ true) r.0
unfolding restore_on_socket resume_loaded
restores_with serves c socket snap true true h = elim (Bool-cases (serves (put_load snap true))) [
  | inl a ↦ rw a (refl, refl, (refl, tt), (a, tt))
  | inr a ↦ absurd (ground arith)
]
restores_with serves c socket snap false true h = elim (Bool-cases (serves (put_load snap true))) [
  | inl a ↦ rw a (refl, refl, (refl, tt), (a, tt))
  | inr a ↦ absurd (ground arith)
]
restores_with serves c socket snap true false h = elim (Bool-cases (serves (put_load snap false))) [
  | inl a ↦ elim (Bool-cases (serves patch_resumed)) [
    | inl b ↦ rw (a, b) (refl, refl, (refl, (tt, tt)), (a, (refl, tt)))
    | inr b ↦ absurd (ground arith)
  ]
  | inr a ↦ absurd (ground arith)
]
restores_with serves c socket snap false false h =
    elim (Bool-cases (serves (put_load snap false))) [
      | inl a ↦ rw a (refl, refl, (refl, tt), (a, tt))
      | inr a ↦ absurd (ground arith)
    ]

-- When a restore on a socket succeeds, it has loaded a snapshot in exactly one request, whose paths
-- are the ones asked for, the process has served all its requests, and it has resumed the guest exactly once if the options ask for it in either
-- way, in the load or after it, and never otherwise.
pub restore_on_socket-resumes :
    (serves : Request → Bool) (socket : Text) (snap : SnapshotPaths) (opts : RestoreOptions)
    → let r = restore_on_socket serves socket snap opts in
      r.1 ≡ ok tt
      → (total loads r.0 ≡ 1)
        × (total resumes r.0 ≡ (if opts.resume_on_load || opts.combined_load_resume then 1 else 0))
        × All (LoadsOnly snap) r.0
        × All (λ q. serves q ≡ true) r.0
unfolding restore_on_socket resume_loaded
restore_on_socket-resumes serves [] snap opts h = absurd (ground arith)
restore_on_socket-resumes serves (c ∷ socket) snap opts h =
    restores_with serves c socket snap opts.resume_on_load opts.combined_load_resume h

-- A preload on a socket followed by the resume of the fork sends what a restore without the combined
-- option sends, if both succeed.
pub load_on_socket-resume_on_socket :
    (serves : Request → Bool) (socket : Text) (snap : SnapshotPaths)
    → (load_on_socket serves socket snap).1 ≡ ok tt
    → (resume_on_socket serves socket).1 ≡ ok tt
    → restore_on_socket serves socket snap
        (record { resume_on_load = true; combined_load_resume = false })
      ≡ ((load_on_socket serves socket snap).0 ++ (resume_on_socket serves socket).0, ok tt)
unfolding restore_on_socket resume_loaded load_on_socket resume_on_socket
load_on_socket-resume_on_socket serves socket snap h k = ground arith
