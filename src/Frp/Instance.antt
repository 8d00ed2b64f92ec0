-- ===== src/Frp/Instance.antt =====
-- internal/frp/instance.go: a named frps server or frpc client.
pub mod Checks
use Prim.Native.String.{◌++◌}
use ycfrp.Base.{
  ℕ, zero, suc, String, Bool, true, false, ◌&&◌, ◌||◌, not, Option, none, some, List, [], ◌∷◌, ℤ,
  pos, is_pos, is_neg, exceeds, eqb_ℤ, ◌==◌, if◌then◌else◌, Runes, trim_space, to_lower, select,
}
use ycfrp.Config.{FrpsConfig, FrpcConfig, FrpsConfig-discrete, FrpcConfig-discrete}

abbrev pub kind_server : String
kind_server = "server"

abbrev pub kind_client : String
kind_client = "client"

-- `Instance`; an instant is a number, 0 for Go's zero time
pub record Instance : Type 0 where
  pub id : String
  pub name : String
  pub kind : String
  pub note : String
  pub server : FrpsConfig
  pub client : FrpcConfig
  pub running : Bool
  pub err : String
  pub tunnel_count : ℤ
  pub dashboard_url : String
  pub created_at : ℕ
  pub updated_at : ℕ

-- `SetEntityMeta`
unfoldable pub set_entity_meta : String → ℕ → ℕ → Instance → Instance
set_entity_meta id zero updated i = record i { id = id; updated_at = updated }
set_entity_meta id (suc created) updated i = record i {
  id = id;
  created_at = suc created;
  updated_at = updated;
}

-- `IsServer`
abbrev pub is_server : Instance → Bool
is_server i = i.kind == kind_server

-- `KindLabel`
unfoldable pub kind_label : Instance → String
kind_label i = if is_server i then "服务端" else "客户端"

-- `Enabled`
unfoldable pub enabled : Instance → Bool
enabled i = if is_server i then i.server.enable else i.client.enable

-- `SetEnabled`
unfoldable pub set_enabled : Bool → Instance → Instance
set_enabled v i =
    if is_server i
    then record i { server = record i.server { enable = v } }
    else record i { client = record i.client { enable = v } }

-- `DisplayName`
unfoldable pub display_name : Instance → String
unfolding trim_space kind_label
display_name i = if trim_space i.name == "" then i.id else i.name ++ "（" ++ kind_label i ++ "）"

-- `Normalize`
unfoldable pub normalize : ⦃r : Runes⦄ → Instance → Instance
unfolding trim_space to_lower
normalize i = record i {
  name = trim_space i.name;
  note = trim_space i.note;
  kind = to_lower (trim_space i.kind);
}

-- the case `KindServer` of `Validate`
unfoldable pub validate_server : FrpsConfig → Option String
validate_server s =
    if not (is_pos s.bind_port) || exceeds s.bind_port 65535
    then some "服务端监听端口必须在 1 到 65535 之间"
    else if is_neg s.dashboard_port || exceeds s.dashboard_port 65535
    then some "仪表盘端口必须在 0 到 65535 之间（0 表示关闭）"
    else if is_pos s.dashboard_port && eqb_ℤ s.dashboard_port s.bind_port
    then some "仪表盘端口不能与监听端口相同"
    else if is_pos s.vhost_http_port && eqb_ℤ s.vhost_http_port s.bind_port
    then some "HTTP 虚拟主机端口不能与监听端口相同"
    else if is_pos s.vhost_https_port && eqb_ℤ s.vhost_https_port s.bind_port
    then some "HTTPS 虚拟主机端口不能与监听端口相同"
    else none

-- the case `KindClient` of `Validate`
unfoldable pub validate_client : FrpcConfig → Option String
unfolding trim_space
validate_client c =
    if trim_space c.server_addr == ""
    then some "客户端必须填写服务端地址"
    else if not (is_pos c.server_port) || exceeds c.server_port 65535
    then some "服务端端口必须在 1 到 65535 之间"
    else none

-- `Validate`; `none` is `nil`
unfoldable pub validate : Instance → Option String
validate i =
    if trim_space i.name == ""
    then some "实例名称不能为空"
    else if i.kind == kind_server
    then validate_server i.server
    else if i.kind == kind_client
    then validate_client i.client
    else some "实例类型必须是 server 或 client"

-- `Ports`
unfoldable pub ports : Instance → List ℤ
unfolding select
ports i =
    let s = i.server in
    if is_server i
    then select is_pos (
        s.bind_port ∷ s.dashboard_port ∷ s.vhost_http_port ∷ s.vhost_https_port ∷ s.kcp_bind_port
        ∷ s.quic_bind_port ∷ [])
    else []

abbrev pub same_bool : Bool → Bool → Bool
same_bool true b = b
same_bool false b = not b

abbrev pub deep_equal {ℓ} : {P : Type ℓ} → Dec P → Bool
deep_equal (yes _) = true
deep_equal (no _) = false

-- `sameInstanceConfig` of internal/frp/engine.go
unfoldable pub same_config : Instance → Instance → Bool
unfolding enabled
same_config a b =
    if not (a.kind == b.kind) || not (same_bool (enabled a) (enabled b))
    then false
    else deep_equal (FrpsConfig-discrete a.server b.server)
      && deep_equal (FrpcConfig-discrete a.client b.client)
