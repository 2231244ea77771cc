-- ===== src/Server/Context.antt =====
-- `defer cancel()` of `handleFork` in cmd/firefork-server/main.go: what the end of the request's context
-- does to the processes that the request has started.
use firefork_ai.Prelude.{ℕ, ◌≡◌, refl, Bool, true, false, Bool-cases, inl, inr}
use firefork_ai.Prelude.Text.{Text, is_empty}
use firefork_ai.Fc.Host.{Host}
use firefork_ai.Template.Registry.{Entry}
use firefork_ai.Fork.Pool
use firefork_ai.Fork.Pool.{Fork, fork}
use firefork_ai.Fork.Pool.Forking.{IsLedger}
use firefork_ai.Server.{Server}
use firefork_ai.Server.Forking.{put_secret, cache_secret}

-- The pool of a server, and who owns the processes.
abbrev pub IsKept : (Text → ℕ) → Server → Type 0
IsKept others s = IsLedger others s.state

put_secret-state : (k : Text) (p : Text × Bool) (s : Server) → (put_secret k p s).state ≡ s.state
unfolding put_secret
put_secret-state k (secret, true) s = refl
put_secret-state k (secret, false) s = refl

put_secret-jailer :
    (k : Text) (p : Text × Bool) (s : Server) → (put_secret k p s).jailer_cfg ≡ s.jailer_cfg
unfolding put_secret
put_secret-jailer k (secret, true) s = refl
put_secret-jailer k (secret, false) s = refl

pub cache_secret-state : (e : Entry) (s : Server) → (cache_secret e s).state ≡ s.state
unfolding cache_secret
cache_secret-state e s = elim (Bool-cases (is_empty e.agent_secret_hex)) [
  | inl h ↦ rw (h, cache_secret) refl
  | inr h ↦ rw (h, cache_secret) (put_secret-state _ _ s)
]

pub cache_secret-jailer : (e : Entry) (s : Server) → (cache_secret e s).jailer_cfg ≡ s.jailer_cfg
unfolding cache_secret
cache_secret-jailer e s = elim (Bool-cases (is_empty e.agent_secret_hex)) [
  | inl h ↦ rw (h, cache_secret) refl
  | inr h ↦ rw (h, cache_secret) (put_secret-jailer _ _ s)
]
