-- ===== src/Frp/Build.antt =====
-- internal/frp/config.go, with the inputs that internal/frp/instance.go makes for it: the panel's
-- settings turned into kernel configurations.
pub mod Settings
use Prim.Native.Char.{Char, code}
use Prim.Native.String.{◌++◌}
use ycfrp.Base.{
  ℕ, String, Bool, true, false, ◌&&◌, ◌||◌, Option, none, some, List, [], ◌∷◌, ℤ, pos, is_pos,
  leb_ℤ, eqb, ◌==◌, if◌then◌else◌, Runes, trim_space, to_lower, Assoc, insert, select, not,
}
use ycfrp.Frp.Instance.{Instance}
use ycfrp.Frp.Tunnel.{Tunnel}
use ycfrp.Frp.Kernel.{
  ServerConfig, ClientConfig, ProxyBase, HttpExtras, Proxy, tcp, udp, http, https, tcpmux, stcp,
  xtcp, sudp, Result, ok, err, ◌>>=◌, Kernel,
}

-- `ServerConfigInput`
pub record ServerInput : Type 0 where
  pub bind_addr : String
  pub bind_port : ℤ
  pub kcp_bind_port : ℤ
  pub quic_bind_port : ℤ
  pub vhost_http_port : ℤ
  pub vhost_https_port : ℤ
  pub token : String
  pub subdomain_host : String
  pub max_ports_per_client : ℤ
  pub allow_ports_start : ℤ
  pub allow_ports_end : ℤ
  pub log_level : String
  pub log_max_days : ℤ
  pub transport_tls : Bool
  pub dashboard_addr : String
  pub dashboard_port : ℤ
  pub dashboard_user : String
  pub dashboard_pwd : String

-- `ServerInput`, the method
unfoldable pub server_input : Instance → ServerInput
server_input i =
    let s = i.server in
    record {
      bind_addr = s.bind_addr;
      bind_port = s.bind_port;
      kcp_bind_port = s.kcp_bind_port;
      quic_bind_port = s.quic_bind_port;
      vhost_http_port = s.vhost_http_port;
      vhost_https_port = s.vhost_https_port;
      token = s.token;
      subdomain_host = s.subdomain_host;
      max_ports_per_client = s.max_ports_per_client;
      allow_ports_start = s.allow_ports_start;
      allow_ports_end = s.allow_ports_end;
      log_level = s.log_level;
      log_max_days = s.log_max_days;
      transport_tls = s.transport_tls;
      dashboard_addr = "127.0.0.1";
      dashboard_port = s.dashboard_port;
      dashboard_user = s.dashboard_user;
      dashboard_pwd = s.dashboard_pwd;
    }

-- `ClientCommonInput`
pub record ClientInput : Type 0 where
  pub server_addr : String
  pub server_port : ℤ
  pub token : String
  pub user : String
  pub login_fail_exit : Bool
  pub log_level : String
  pub log_max_days : ℤ
  pub transport_tls : Bool
  pub transport_proto : String

-- `ClientInput`, the method
unfoldable pub client_input : Instance → ClientInput
client_input i =
    let c = i.client in
    record {
      server_addr = c.server_addr;
      server_port = c.server_port;
      token = c.token;
      user = c.user;
      login_fail_exit = c.login_fail_exit;
      log_level = c.log_level;
      log_max_days = c.log_max_days;
      transport_tls = c.transport_tls;
      transport_proto = c.transport_proto;
    }

-- what `BuildServerConfig` fills in
unfoldable pub server_config : Kernel → ServerInput → ServerConfig
server_config k s =
    let dashboard = is_pos s.dashboard_port in
    record {
      bind_addr = k.empty_or s.bind_addr "0.0.0.0";
      bind_port = s.bind_port;
      kcp_bind_port = s.kcp_bind_port;
      quic_bind_port = s.quic_bind_port;
      vhost_http_port = s.vhost_http_port;
      vhost_https_port = s.vhost_https_port;
      sub_domain_host = s.subdomain_host;
      max_ports_per_client = s.max_ports_per_client;
      auth_method = "token";
      auth_token = s.token;
      allow_ports =
          if is_pos s.allow_ports_start && leb_ℤ s.allow_ports_start s.allow_ports_end
          then some (s.allow_ports_start, s.allow_ports_end)
          else none;
      log_level = k.empty_or s.log_level "info";
      log_max_days = if is_pos s.log_max_days then s.log_max_days else pos 0;
      log_to = "console";
      disable_print_color = true;
      tls_force = s.transport_tls;
      web_addr = if dashboard then k.empty_or s.dashboard_addr "127.0.0.1" else "";
      web_port = if dashboard then s.dashboard_port else pos 0;
      web_user = if dashboard then k.empty_or s.dashboard_user "admin" else "";
      web_password = if dashboard then k.empty_or s.dashboard_pwd "admin" else "";
    }

abbrev pub check : Option String → String → Result (Unit {0})
check none prefix = ok tt
check (some e) prefix = err (prefix ++ e)

abbrev wrap {ℓ} : {A : Type ℓ} → String → Result A → Result A
wrap prefix (ok a) = ok a
wrap prefix (err e) = err (prefix ++ e)

-- `BuildServerConfig`
unfoldable pub build_server_config : Kernel → ServerInput → Result ServerConfig
unfolding server_config
build_server_config k s = do
  cfg ← wrap "服务端配置校验失败: " (k.complete_server (server_config k s))
  _ ← check (k.validate_server cfg) "服务端参数不合法: "
  ok cfg

-- `BuildClientCommon`
unfoldable pub build_client_common : Kernel → ClientInput → ClientConfig
build_client_common k c = k.complete_client (record {
  server_addr = k.empty_or c.server_addr "127.0.0.1";
  server_port = if is_pos c.server_port then c.server_port else pos 7000;
  user = c.user;
  auth_method = "token";
  auth_token = c.token;
  login_fail_exit = c.login_fail_exit;
  log_level = k.empty_or c.log_level "info";
  log_max_days = if is_pos c.log_max_days then c.log_max_days else pos 0;
  log_to = "console";
  disable_print_color = true;
  protocol = k.empty_or c.transport_proto "tcp";
  tls_enable = c.transport_tls;
})

abbrev is_separator : ℕ → Bool
is_separator c = eqb c b',' || eqb c b' ' || eqb c b';'

-- a field in front of the fields of what follows
abbrev add_field : String → List String → List String
add_field field rest = if field == "" then rest else field ∷ rest

-- `strings.FieldsFunc`; the first text is the field read so far
unfoldable pub fields_from : String → String → List String
fields_from field String.[] = add_field field []
fields_from field (String.◌∷◌ c s) =
    let broken = add_field field (fields_from "" s) in
    let longer = fields_from (field ++ String.◌∷◌ c String.[]) s in
    if is_separator (code c) then broken else longer

-- the loop that trims the parts and drops the empty ones
unfoldable pub trim_parts : List String → List String
trim_parts [] = []
trim_parts (p ∷ ps) = add_field (trim_space p) (trim_parts ps)

-- `splitList`
unfoldable pub split_list : String → List String
unfolding fields_from trim_space trim_parts
split_list s = if trim_space s == "" then [] else trim_parts (fields_from "" s)

copy_onto : Assoc String → Assoc String → Assoc String
copy_onto out [] = out
copy_onto out ((k, v) ∷ rest) =
    copy_onto (if trim_space k == "" then out else insert (trim_space k) v out) rest

-- `copyHeaders`; a nil map is an empty one
unfoldable pub copy_headers : Assoc String → Assoc String
unfolding copy_onto insert trim_space
copy_headers headers = copy_onto [] headers

-- `applyHTTPExtras`, of a configuration whose extras are not set
unfoldable pub http_extras : Tunnel → HttpExtras
unfolding copy_headers trim_space
http_extras t = record {
  locations = t.locations;
  user = trim_space t.http_user;
  password = t.http_password;
  host_header_rewrite = trim_space t.host_header_rewrite;
  route_by_user = trim_space t.route_by_http_user;
  request_headers = copy_headers t.request_headers;
  response_headers = copy_headers t.response_headers;
}
