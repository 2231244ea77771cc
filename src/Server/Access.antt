-- ===== src/Server/Access.antt =====
-- What clients without the token can do.
use firefork_ai.Prelude.{
  ◌≡◌, ◌≢◌, refl, ◌∙◌, true, false, List, [], ◌∷◌, All, then_branch, else_branch, Bool-cases, ◌⊎◌,
  inl, inr, arith,
}
use firefork_ai.Prelude.Text.{Text, text_eq, text_eq_iff, is_empty}
use firefork_ai.Server.{Server, refuse, unauthorized}
use firefork_ai.Server.Routes.{
  Route, get_healthz, get_forks, get_templates, get_metrics, post_fork, post_exec, delete_fork,
  Request, bearer, denied, is_public, auth, handle, serve, serve_all,
}

-- A request without the token of the server.
abbrev pub IsStranger : {R : Type 0} → Text → Request R → Type 0
IsStranger token q = q.authorization ≢ bearer token

denied_lem :
    (token got : Text) → is_empty token ≡ false → got ≢ bearer token → denied token got ≡ true
unfolding denied
denied_lem token got t n = elim (Bool-cases (text_eq got (bearer token))) [
  | inl h ↦ absurd (n ((text_eq_iff _ _).0 h))
  | inr h ↦ ground arith
]

-- The only public route is the health check.
public_lem :
    {R : Type 0} (r : Route R) (s : Server)
    → is_public r ≡ true
    → handle r s ≡ (s, (handle {R = R} get_healthz s).1)
unfolding handle
public_lem get_healthz s h = refl
public_lem get_forks s h = absurd (ground arith)
public_lem get_templates s h = absurd (ground arith)
public_lem get_metrics s h = absurd (ground arith)
public_lem (post_fork m) s h = absurd (ground arith)
public_lem (post_exec m) s h = absurd (ground arith)
public_lem (delete_fork id e) s h = absurd (ground arith)

module _ {R : Type 0} (s : Server) (set : is_empty s.auth_token ≡ false) where
  serve-stranger :
      (q : Request R)
      → IsStranger s.auth_token q
      → (serve q s ≡ (s, refuse 401 unauthorized))
        ⊎ (serve q s ≡ (s, (handle {R = R} get_healthz s).1))
  unfolding serve auth
  serve-stranger q n =
      let no = denied_lem s.auth_token q.authorization set n in
      elim (Bool-cases (is_public q.route)) [
        | inl h ↦ inr (
            then_branch h (handle q.route s) (auth q.authorization s (handle q.route s))
            ∙ public_lem q.route s h)
        | inr h ↦ inl (
            else_branch h (handle q.route s) (auth q.authorization s (handle q.route s))
            ∙ then_branch no (s, refuse 401 unauthorized) (handle q.route s))
      ]

  -- On a server with a token, clients that do not present it change nothing, whatever they send and
  -- however often, and get no answer but 401 and that of the health check.
  pub serve_all-stranger :
      (qs : List (Request R))
      → All (IsStranger s.auth_token) qs
      → ((serve_all qs s).0 ≡ s)
        × All
            (λ r. (r ≡ refuse 401 unauthorized) ⊎ (r ≡ (handle {R = R} get_healthz s).1))
            (serve_all qs s).1
  unfolding serve_all
  serve_all-stranger [] h = (refl, tt)
  serve_all-stranger (q ∷ l) (n, h) =
      let (same, all) = serve_all-stranger l h in
      elim (serve-stranger q n) [
        | inl e ↦ rw e (same, (inl refl, all))
        | inr e ↦ rw e (same, (inr refl, all))
      ]
