-- ===== src/Frp/Engine.antt =====
-- internal/frp/engine.go, `Engine`: the desired instances, the running ones, and how `Apply` brings
-- the second to the first. A method takes the engine and the trace of what was done so far, and
-- returns both. A runtime stands in the map under its identifier; the lock makes `Configure`, `Stop`
-- and the reads one step, and `Apply` and `ApplyTunnels` are taken as calls that do not overlap.
pub mod Start
pub mod Apply
pub mod Queries
pub mod Stop
pub mod Statuses
use Prim.Native.String
use ycfrp.Base.{
  ℕ, zero, suc, String, Bool, true, false, Option, none, some, List, [], ◌∷◌, ◌++◌, ℤ, pos, is_pos,
  ◌==◌, if◌then◌else◌, itoa, Assoc, lookup, insert, select,
}
use ycfrp.Frp.Instance.{Instance, is_server}
use ycfrp.Frp.Tunnel.{Tunnel}
use ycfrp.Frp.Kernel.{Kernel, Trace, Action, graceful_close, close_server, cancel, log, Level}

-- `dashAuth`
pub record DashAuth : Type 0 where
  pub addr : String
  pub user : String
  pub pass : String

-- `runtime`; a nil pointer is `none`. The context is known by the number that cancels it.
pub record Runtime : Type 0 where
  pub inst : Instance
  pub tunnels : List Tunnel
  pub server_svc : Option ℕ
  pub client_svc : Option ℕ
  pub cancels : Option ℕ
  pub up : Bool
  pub err : String
  pub tunnel_count : ℕ
  pub dash : DashAuth

-- `Engine`, without the traffic figures
pub record Engine : Type 0 where
  pub desired : List Instance
  pub tunnels : List Tunnel
  pub order : List String
  pub runtimes : Assoc Runtime
  -- false where there is no logger
  pub logged : Bool

-- `New`
unfoldable pub new : Bool → Engine
new logged = record { desired = []; tunnels = []; order = []; runtimes = []; logged = logged }

-- one more action at the end of a trace
abbrev pub act : Action → Trace → Trace
act a w = w ++ (a ∷ [])

-- `logf`
abbrev pub logf : Bool → Level → String → String → Trace → Trace
logf logged level source text w = if logged then act (log level source text) w else w

-- `Configure`
unfoldable pub configure : List Instance → List Tunnel → Engine → Engine
configure instances tunnels e = record e { desired = instances; tunnels = tunnels }

-- `dashFor`
unfoldable pub dash_for : Instance → DashAuth
unfolding itoa
dash_for i = record {
  addr = String.◌++◌ "127.0.0.1:" (itoa i.server.dashboard_port);
  user = i.server.dashboard_user;
  pass = i.server.dashboard_pwd;
}

-- `tunnelsFor`
unfoldable pub tunnels_for : List Tunnel → String → List Tunnel
unfolding select
tunnels_for tunnels id = if id == "" then [] else select (λ t. t.instance_id == id) tunnels

abbrev pub on_service : (ℕ → Action) → Option ℕ → Trace → Trace
on_service f none w = w
on_service f (some n) w = act (f n) w

-- what `close` does to the runtime
unfoldable pub closed : Runtime → Runtime
closed rt = record rt { server_svc = none; client_svc = none; cancels = none; up = false }

-- and to the kernel
unfoldable pub close_actions : Runtime → Trace → Trace
close_actions rt w =
    on_service close_server rt.server_svc
      (on_service cancel rt.cancels (on_service graceful_close rt.client_svc w))

-- `orderedRuntimesLocked`
unfoldable pub ordered : List String → Assoc Runtime → List Runtime
unfolding lookup
ordered [] m = []
ordered (id ∷ ids) m = elim (lookup id m) [ none ↦ ordered ids m | some rt ↦ rt ∷ ordered ids m ]

-- The loop of `Stop`. Two mentions of one runtime are one object, closed the first time.
unfoldable pub close_all : List String → Assoc Runtime → Trace → Trace
close_all [] m w = w
close_all (id ∷ ids) m w = elim (lookup id m) [
  | none ↦ close_all ids m w
  | some rt ↦ close_all ids (insert id (closed rt) m) (close_actions rt w)
]

-- `Stop`
unfoldable pub stop : Engine → Trace → Engine × Trace
stop e w = (record e { runtimes = []; order = [] }, close_all e.order e.runtimes w)
