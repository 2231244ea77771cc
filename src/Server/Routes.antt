-- ===== src/Server/Routes.antt =====
-- The routes of cmd/firefork-server/main.go with `auth`, and the end of `main`. Requests are served one
-- after another; a request that matches no route has no handler and is not modelled.
use firefork_ai.Prelude.{ℕ, Bool, true, false, not, ◌&&◌, List, [], ◌∷◌, ◌++◌, if◌then◌else◌}
use firefork_ai.Prelude.Text.{Text, codes, text_eq, is_empty}
use firefork_ai.Fork.Pool.Teardown.{End, shutdown}
use firefork_ai.Server.{Server, unauthorized, Response, refuse}
use firefork_ai.Server.Forking.{ForkMeets, handle_fork}
use firefork_ai.Server.Commands.{ExecMeets, handle_exec}
use firefork_ai.Server.Views.{
  handle_delete, handle_list_forks, handle_list_templates, handle_metrics, handle_healthz,
}

-- A request that matched a route, with what its handler meets.
pub data Route (R : Type 0) : Type 0 where
  get_healthz get_forks get_templates get_metrics : Route R
  post_fork : ForkMeets → Route R
  post_exec : ExecMeets R → Route R
  delete_fork : Text → End → Route R

-- With the value of its Authorization header, empty if there is none.
pub record Request (R : Type 0) : Type 0 where
  pub authorization : Text
  pub route : Route R

unfoldable pub bearer : Text → Text
bearer token = codes "Bearer " ++ token

-- Whether `auth` refuses.
unfoldable pub denied : Text → Text → Bool
unfolding bearer
denied token got = not (is_empty token) && not (text_eq got (bearer token))

module _ {R : Type 0} where
  unfoldable pub auth : Text → Server → Server × Response R → Server × Response R
  unfolding denied
  auth got s handled = if denied s.auth_token got then (s, refuse 401 unauthorized) else handled

  -- The handler of a route.
  unfoldable pub handle : Route R → Server → Server × Response R
  handle get_healthz s = (s, handle_healthz s)
  handle get_forks s = (s, handle_list_forks s)
  handle get_templates s = (s, handle_list_templates s)
  handle get_metrics s = (s, handle_metrics s)
  handle (post_fork m) s = handle_fork m s
  handle (post_exec m) s = handle_exec m s
  handle (delete_fork id e) s = handle_delete id e s

  -- Only `GET /healthz` is outside `auth`.
  abbrev pub is_public : Route R → Bool
  is_public get_healthz = true
  is_public _ = false

  unfoldable pub serve : Request R → Server → Server × Response R
  unfolding handle auth
  serve q s =
      if is_public q.route then handle q.route s else auth q.authorization s (handle q.route s)

  unfoldable pub serve_all : List (Request R) → Server → Server × List (Response R)
  serve_all [] s = (s, [])
  serve_all (q ∷ l) s = let (s', r) = serve q s in let (t, rs) = serve_all l s' in (t, r ∷ rs)

-- The teardown at the end of `main`, with the two numbers that it logs. It does not wait for the
-- refills of the warm pool that are in flight, which Fork/WarmPool/Leftover is about.
unfoldable pub tear_down : (Text → End) → Server → Server × ℕ × ℕ
tear_down ends s =
    let (st, stopped, failed) = shutdown ends s.state in (record s { state = st }, stopped, failed)
