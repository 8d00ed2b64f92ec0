-- ===== src/Frp/Tunnel.antt =====
-- internal/frp/model.go: the records that the panel keeps and reports.
use ycfrp.Base.{ℕ, zero, suc, String, Bool, List, ℤ, Assoc, ◌==◌, if◌then◌else◌}

-- `Tunnel`; an instant is a number, 0 for Go's zero time
pub record Tunnel : Type 0 where
  pub id : String
  pub instance_id : String
  pub name : String
  pub type : String
  pub enabled : Bool
  pub local_ip : String
  pub local_port : ℤ
  pub remote_port : ℤ
  pub custom_domains : List String
  pub subdomain : String
  pub secret_key : String
  pub group : String
  pub group_key : String
  pub load_balance_group : String
  pub load_balance_key : String
  pub use_encryption : Bool
  pub use_compression : Bool
  pub bandwidth_limit : String
  pub proxy_protocol_version : String
  pub health_check_type : String
  pub health_check_url : String
  pub health_check_interval : ℤ
  pub health_check_timeout : ℤ
  pub health_check_max_failed : ℤ
  pub locations : List String
  pub http_user : String
  pub http_password : String
  pub host_header_rewrite : String
  pub request_headers : Assoc String
  pub response_headers : Assoc String
  pub route_by_http_user : String
  pub note : String
  pub created_at : ℕ
  pub updated_at : ℕ
  pub external : Bool
  pub status : String
  pub remote_addr : String
  pub err : String
  pub today_in : ℤ
  pub today_out : ℤ
  pub total_in : ℤ
  pub total_out : ℤ
  pub cur_conns : ℤ

-- `SetEntityMeta`
unfoldable pub set_entity_meta : String → ℕ → ℕ → Tunnel → Tunnel
set_entity_meta id zero updated t = record t { id = id; updated_at = updated }
set_entity_meta id (suc created) updated t = record t {
  id = id;
  created_at = suc created;
  updated_at = updated;
}

-- `ProxyConf`, with the type of `PluginConf`
pub record ProxyConf : Type 0 where
  pub name : String
  pub type : String
  pub local_ip : String
  pub local_port : ℤ
  pub remote_port : ℤ
  pub custom_domains : List String
  pub subdomain : String
  pub plugin_type : String
  pub metadatas : Assoc String

-- `ProxyStatus`
pub record ProxyStatus : Type 0 where
  pub name : String
  pub type : String
  pub status : String
  pub user : String
  pub client_id : String
  pub conf : ProxyConf
  pub today_traffic_in : ℤ
  pub today_traffic_out : ℤ
  pub cur_conns : ℤ
  pub last_start_time : String
  pub last_close_time : String

-- `ProxyTypeLabel`
unfoldable pub proxy_type_label : String → String
proxy_type_label t =
    if t == "tcp"
    then "TCP"
    else if t == "udp"
    then "UDP"
    else if t == "http"
    then "HTTP"
    else if t == "https"
    then "HTTPS"
    else if t == "tcpmux"
    then "TCPMux"
    else if t == "stcp"
    then "STCP"
    else if t == "xtcp"
    then "XTCP"
    else if t == "sudp"
    then "SUDP"
    else t

-- `ProxyPhaseLabel`
unfoldable pub proxy_phase_label : String → String
proxy_phase_label phase =
    if phase == "online"
    then "运行中"
    else if phase == "offline"
    then "已离线"
    else if phase == "running"
    then "运行中"
    else if phase == "start error"
    then "启动失败"
    else if phase == "waiting"
    then "等待中"
    else if phase == "wait start"
    then "等待中"
    else if phase == "new"
    then "新建"
    else if phase == "check failed"
    then "检测失败"
    else if phase == "closed"
    then "已停止"
    else if phase == "not running"
    then "未启动"
    else if phase == ""
    then "未知"
    else phase
