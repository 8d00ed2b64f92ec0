-- ===== src/Frp/Engine/Start.antt =====
-- internal/frp/engine.go: one instance is started, and the tunnels of the running ones are updated.
use Prim.Native.String.{◌++◌}
use ycfrp.Base.{
  ℕ, String, Bool, Option, none, some, List, [], ◌∷◌, map, pos, is_pos, if◌then◌else◌, Runes, itoa,
  length, Assoc, lookup, insert,
}
use ycfrp.Frp.Instance.{Instance, is_server}
use ycfrp.Frp.Tunnel.{Tunnel}
use ycfrp.Frp.Kernel.{
  Kernel, Trace, Action, Proxy, ClientConfig, run_server, run_client, update_client, cancel, Result,
  ok, err, ◌>>=◌, info, error,
}
use ycfrp.Frp.Build.{server_input, client_input, build_server_config, build_client_common, check}
use ycfrp.Frp.Convert.{build_proxies}
use ycfrp.Frp.Engine.{Runtime, Engine, act, logf, tunnels_for}

abbrev prefixed {ℓ} : {A : Type ℓ} → String → Result A → Result A
prefixed prefix (ok a) = ok a
prefixed prefix (err e) = err (prefix ++ e)

abbrev pub first_error : Option String → String → Option String
first_error none e = some e
first_error (some e) _ = some e

-- the service whose tunnels `ApplyTunnels` updates
abbrev pub updatable : Runtime → Option ℕ
updatable rt = if is_server rt.inst then none else rt.client_svc

module _ ⦃r : Runes⦄ (k : Kernel) where
  -- `startServer`, up to the service that runs; services and contexts are numbered by the trace
  unfoldable pub start_server : Runtime → Trace → Result (Runtime × Action)
  start_server rt w = do
    cfg ← build_server_config k (server_input rt.inst)
    _ ← check (k.new_server w cfg) "服务端初始化失败: "
    ok (record rt { server_svc = some (length w) }, run_server (length w) (length w) cfg)

  -- what `startClient` makes of the tunnels before it asks for a service
  unfoldable pub client_setup : Instance → List Tunnel → Result (ClientConfig × List Proxy)
  client_setup inst tunnels = do
    proxies ← build_proxies k tunnels
    let common = build_client_common k (client_input inst)
    _ ← check (k.replace_all proxies) "隧道配置不合法: "
    loaded ← prefixed "加载隧道配置失败: " (k.load proxies)
    let complete = map k.complete_proxy loaded
    _ ← check (k.validate_client common complete) "隧道参数不合法: "
    ok (common, complete)

  -- `startClient`, up to the service that runs
  unfoldable pub start_client : Runtime → List Tunnel → Trace → Result (Runtime × Action)
  start_client rt tunnels w = do
    (common, proxies) ← client_setup rt.inst tunnels
    _ ← check (k.new_client w common proxies) "客户端初始化失败: "
    ok (
      record rt { client_svc = some (length w); tunnels = tunnels; tunnel_count = length tunnels },
      run_client (length w) (length w) common proxies,
    )

  unfoldable pub start_service : Runtime → List Tunnel → Trace → Result (Runtime × Action)
  start_service rt all w =
      if is_server rt.inst
      then start_server rt w
      else start_client rt (tunnels_for all rt.inst.id) w

  -- `startInstance`
  unfoldable pub start_instance : Runtime → List Tunnel → Trace → Option String × Runtime × Trace
  start_instance rt all w = elim (start_service rt all w) [
    | ok (rt', a) ↦ (none, record rt' { cancels = some (length w) }, act a w)
    | err e ↦ (some e, record rt { cancels = none }, act (cancel (length w)) w)
  ]

  -- `applyInstanceTunnels` on a running service
  unfoldable pub apply_instance_tunnels :
      ℕ → Instance → List Tunnel → Trace → Result (ClientConfig × List Proxy)
  apply_instance_tunnels n inst tunnels w = do
    proxies ← build_proxies k tunnels
    let common = build_client_common k (client_input inst)
    let complete = map k.complete_proxy proxies
    _ ← check (k.update w n common complete) "应用隧道配置失败: "
    ok (common, complete)

  -- the loop of `ApplyTunnels`
  unfoldable pub update_each :
      Bool
      → List Tunnel
      → List String
      → Assoc Runtime
      → Option String
      → Trace
      → Option String × Assoc Runtime × Trace
  update_each logged tunnels [] m failed w = (failed, m, w)
  update_each logged tunnels (id ∷ ids) m failed w = elim (lookup id m) [
    | none ↦ update_each logged tunnels ids m failed w
    | some rt ↦ elim (updatable rt) [
      | none ↦ update_each logged tunnels ids m failed w
      | some n ↦
          let mine = tunnels_for tunnels rt.inst.id in
          elim (apply_instance_tunnels n rt.inst mine w) [
            | err e ↦
                update_each logged tunnels ids m (first_error failed e)
                  (logf logged error "客户端" ("实例 " ++ rt.inst.name ++ " 隧道热更新失败: " ++ e) w)
            | ok (common, proxies) ↦
                update_each logged tunnels ids
                  (insert id (record rt { tunnels = mine; tunnel_count = length mine }) m) failed
                  (logf logged info "客户端"
                    ("实例 " ++ rt.inst.name ++ " 隧道已热更新，共 " ++ itoa (pos (length mine)) ++ " 条")
                    (act (update_client n common proxies) w))
          ]
    ]
  ]

  -- `ApplyTunnels`
  unfoldable pub apply_tunnels : List Tunnel → Engine → Trace → Option String × Engine × Trace
  apply_tunnels tunnels e w =
      let (failed, m, w') = update_each e.logged tunnels e.order e.runtimes none w in
      (failed, record e { tunnels = tunnels; runtimes = m }, w')

-- `startSummary`
unfoldable pub start_summary : Runtime → String
start_summary rt =
    let s = rt.inst.server in
    let c = rt.inst.client in
    if is_server rt.inst
    then "，监听端口 "
      ++ itoa s.bind_port
      ++ (if is_pos s.dashboard_port then "，仪表盘端口 " ++ itoa s.dashboard_port else "")
    else "，共 "
      ++ itoa (pos rt.tunnel_count)
      ++ " 条隧道，连接 "
      ++ c.server_addr
      ++ ":"
      ++ itoa c.server_port
