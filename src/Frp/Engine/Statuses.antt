-- ===== src/Frp/Engine/Statuses.antt =====
-- internal/frp/engine.go: the status of each instance, the address of the dashboard, and what of the kernel's
-- output reaches the log. `I` and `C` are what the dashboard answers of a server and of its clients.
use ycfrp.Base.{
  ℕ, String, Bool, false, not, ◌&&◌, ◌||◌, Option, none, some, List, [], ◌∷◌, ℤ, is_pos, itoa, ◌==◌,
  if◌then◌else◌, trim_space, contains,
}
use Prim.Native.String.{◌++◌}
use ycfrp.Frp.Instance.{is_server, enabled, ports}
use ycfrp.Frp.Engine.{Runtime, Engine, ordered}

-- `InstanceStatus`
pub record InstanceStatus (I C : Type 0) : Type 0 where
  pub id : String
  pub name : String
  pub kind : String
  pub enable : Bool
  pub running : Bool
  pub err : String
  pub server : Option I
  pub clients : List C
  pub tunnel_count : ℕ
  pub ports : List ℤ

-- what `fetchServerInfo` and `fetchClients` answer for a runtime, `none` for an error
pub record Dashboard (I C : Type 0) : Type 0 where
  pub info_of : Runtime → Option I
  pub clients_of : Runtime → Option (List C)

module _ {I C : Type 0} (d : Dashboard I C) where
  abbrev listed : Option (List C) → List C
  listed none = []
  listed (some l) = l

  unfoldable pub status_of : Runtime → InstanceStatus I C
  unfolding enabled ports
  status_of rt =
      let asks = rt.up && is_server rt.inst in
      record {
        id = rt.inst.id;
        name = rt.inst.name;
        kind = rt.inst.kind;
        enable = enabled rt.inst;
        running = rt.up;
        err = rt.err;
        server = if asks then d.info_of rt else none;
        clients = if asks then listed (d.clients_of rt) else [];
        tunnel_count = rt.tunnel_count;
        ports = ports rt.inst;
      }

  unfoldable pub statuses_of : List Runtime → List (InstanceStatus I C)
  unfolding status_of
  statuses_of [] = []
  statuses_of (rt ∷ l) = status_of rt ∷ statuses_of l

  -- `InstanceStatuses`
  unfoldable pub instance_statuses : Engine → List (InstanceStatus I C)
  unfolding statuses_of ordered
  instance_statuses e = statuses_of (ordered e.order e.runtimes)

-- the loop of `ServerDashboardURL`
unfoldable pub dashboard_of : List Runtime → String
unfolding itoa
dashboard_of [] = ""
dashboard_of (rt ∷ l) =
    let rest = dashboard_of l in
    if not (is_server rt.inst) || not (is_pos rt.inst.server.dashboard_port)
    then rest
    else "http://127.0.0.1:" ++ itoa rt.inst.server.dashboard_port

-- `ServerDashboardURL`
unfoldable pub server_dashboard_url : Engine → String
unfolding dashboard_of ordered
server_dashboard_url e = dashboard_of (ordered e.order e.runtimes)

-- `isDashboardNoise`
unfoldable pub is_dashboard_noise : String → Bool
unfolding contains
is_dashboard_noise line =
    if not (contains line "http/middleware.go")
    then false
    else contains line "http request:" || contains line "http response"

-- the lines that `kernelWriter.Write` hands to the log
unfoldable pub kernel_lines : List String → List String
unfolding is_dashboard_noise trim_space
kernel_lines [] = []
kernel_lines (line ∷ lines) =
    let rest = kernel_lines lines in
    if (trim_space line == "") || is_dashboard_noise line then rest else line ∷ rest
