-- ===== src/Server/Startup/Lifecycle.antt =====
-- `main` of cmd/firefork-server/main.go from the start to the first request.
use firefork_ai.Prelude.{ℕ}
use firefork_ai.Prelude.Text.{Text}
use firefork_ai.Fc.Host.{Host, count}
use firefork_ai.Template.Registry
use firefork_ai.Template.Registry.{Registry}
use firefork_ai.Fork.WarmPool
use firefork_ai.Fork.WarmPool.{WarmPool, Slot, new_warm_pool}
use firefork_ai.Server.{Server}
use firefork_ai.Server.Startup.{Flags, StartMeets}

module _ (f : Flags) (m : StartMeets) where
  -- The processes that ran before the server.
  abbrev pub before : Text → ℕ
  before x = count x (m.host).running
