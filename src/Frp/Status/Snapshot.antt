-- ===== src/Frp/Status/Snapshot.antt =====
-- internal/frp/engine.go, `Snapshot` and `fillClientStatus`: the runtime state of every tunnel. What
-- the dashboards and the clients of the kernel answer is given; the traffic figure that `Snapshot`
-- also keeps is left out.
pub mod Online
pub mod Servers
use ycfrp.Base.{
  String, Bool, true, false, not, ◌||◌, ◌&&◌, Option, none, some, List, [], ◌∷◌, map, ◌++◌, ◌≡◌,
  refl, ◌==◌, if◌then◌else◌, Runes, to_lower, trim_space, Assoc, lookup, insert, All, ◌⊎◌, inl, inr,
  Bool-cases, Option-cases, ap, ◌∙◌, arith, eq_iff, lookup-insert,
}
use ycfrp.Frp.Instance.{is_server}
use ycfrp.Frp.Tunnel.{Tunnel, ProxyStatus}
use ycfrp.Frp.Engine.{Runtime, Engine, ordered}
use ycfrp.Frp.Engine.Queries.{running}
use ycfrp.Frp.Status.{prefer_proxy, merge_stats, rank}

-- the `WorkingStatus` of frp's client, as far as the panel reads it
pub record WorkingStatus : Type 0 where
  pub phase : String
  pub err : String
  pub remote_addr : String

-- What the dashboard of a runtime and its client's status exporter answer.
pub record Answers (Info Client : Type 0) : Type 0 where
  pub info : Runtime → Option Info
  pub stats : Runtime → Option (Assoc ProxyStatus)
  pub clients : Runtime → Option (List Client)
  pub working : Runtime → String → Option WorkingStatus

-- `StatusResponse`, without its time
pub record StatusResponse (Info Client : Type 0) : Type 0 where
  pub server_running : Bool
  pub client_running : Bool
  pub server : Option Info
  pub clients : List Client
  pub tunnels : List Tunnel

-- the body of the loop over the answer of one dashboard
unfoldable pub keep_better : String → ProxyStatus → Assoc ProxyStatus → Assoc ProxyStatus
unfolding lookup insert prefer_proxy
keep_better name st stats = elim (lookup name stats) [
  | none ↦ insert name st stats
  | some prev ↦ (if not (prefer_proxy st prev) then stats else insert name st stats)
]

unfoldable pub keep_all : Assoc ProxyStatus → Assoc ProxyStatus → Assoc ProxyStatus
unfolding keep_better
keep_all [] stats = stats
keep_all ((name, st) ∷ rest) stats = keep_all rest (keep_better name st stats)

-- `clientPhase`
unfoldable pub client_phase : ⦃r : Runes⦄ → String → String
unfolding to_lower trim_space
client_phase phase =
    let p = to_lower (trim_space phase) in
    if p == "running"
    then "online"
    else if p == ""
    then ""
    else if p == "start error"
    then "start error"
    else if p == "check failed"
    then "check failed"
    else phase

-- the body of the loop of `fillClientStatus`, of a status that is there
unfoldable pub fill_one : ⦃r : Runes⦄ → WorkingStatus → Tunnel → Tunnel
unfolding client_phase
fill_one st t =
    let addr = if t.remote_addr == "" then st.remote_addr else t.remote_addr in
    if not (st.err == "")
    then record t {
      err = st.err;
      status = if not (t.status == "online") then "start error" else t.status;
      remote_addr = addr;
    }
    else if t.status == ""
    then record t { status = client_phase st.phase; remote_addr = addr }
    else record t { remote_addr = addr }

-- the last loop of `Snapshot`
unfoldable pub settle : Tunnel → Tunnel
settle t =
    if not (t.status == "")
    then t
    else if t.external
    then record t { status = "offline" }
    else if not t.enabled
    then record t { status = "not running" }
    else record t { status = "offline" }

module _ ⦃r : Runes⦄ {Info Client : Type 0} (answers : Answers Info Client) where
  open answers use {info, stats, working}

  abbrev filled : Runtime → Tunnel → Tunnel
  filled rt t =
      if not (t.instance_id == rt.inst.id)
      then t
      else elim (working rt t.name) [ none ↦ t | some st ↦ fill_one st t ]

  -- `fillClientStatus`
  unfoldable pub fill_client_status : Runtime → List Tunnel → List Tunnel
  unfolding fill_one
  fill_client_status rt ts = elim rt.client_svc [ none ↦ ts | some _ ↦ map (filled rt) ts ]

  -- the loop that fills in the status of the clients
  unfoldable pub fill_all : List Runtime → List Tunnel → List Tunnel
  unfolding fill_client_status
  fill_all [] ts = ts
  fill_all (rt ∷ rts) ts =
      fill_all rts (if rt.up && not (is_server rt.inst) then fill_client_status rt ts else ts)

  abbrev answered {ℓ} : {A : Type ℓ} → Option A → Option A → Option A
  answered (some a) _ = some a
  answered none o = o

  abbrev or_nil {ℓ} : {A : Type ℓ} → Option (List A) → List A
  or_nil none = []
  or_nil (some l) = l

  -- the figures of a server that answers are merged into those of the servers before
  abbrev pub heard : Option (Assoc ProxyStatus) → Assoc ProxyStatus → Assoc ProxyStatus
  heard none s = s
  heard (some m) s = keep_all m s

  -- one round of the first loop of `Snapshot`, with the merged figures
  unfoldable pub collect_one :
      Runtime
      → StatusResponse Info Client × Assoc ProxyStatus
      → StatusResponse Info Client × Assoc ProxyStatus
  unfolding keep_all
  collect_one rt (out, s) =
      if not rt.up
      then (out, s)
      else if not (is_server rt.inst)
      then (record out { client_running = true }, s)
      else (
        record out {
          server_running = true;
          server = answered out.server (info rt);
          clients = out.clients ++ or_nil (answers.clients rt);
        },
        heard (stats rt) s,
      )

  unfoldable pub collect :
      List Runtime
      → StatusResponse Info Client × Assoc ProxyStatus
      → StatusResponse Info Client × Assoc ProxyStatus
  unfolding collect_one
  collect [] p = p
  collect (rt ∷ rts) p = collect rts (collect_one rt p)

  -- `Snapshot`
  unfoldable pub snapshot : Engine → StatusResponse Info Client
  unfolding collect fill_all settle ordered
  snapshot e =
      let rts = ordered e.order e.runtimes in
      let (out, s) = collect rts (
        record {
          server_running = false;
          client_running = false;
          server = none;
          clients = [];
          tunnels = e.tunnels;
        },
        [],
      ) in
      record out { tunnels = map settle (fill_all rts (merge_stats out.tunnels s)) }
