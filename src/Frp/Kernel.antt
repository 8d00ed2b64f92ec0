-- ===== src/Frp/Kernel.antt =====
-- The frp kernel as the panel calls it: the parts of its configuration that the panel sets, what it
-- answers, and what the panel did to it, in order. The kernel's own code is no part of the model.
use ycfrp.Base.{ℕ, String, Bool, false, ◌≡◌, Option, List, ℤ, Assoc, ◌==◌}

-- the fields of frp's `v1.ServerConfig` that the panel sets
pub record ServerConfig : Type 0 where
  pub bind_addr : String
  pub bind_port : ℤ
  pub kcp_bind_port : ℤ
  pub quic_bind_port : ℤ
  pub vhost_http_port : ℤ
  pub vhost_https_port : ℤ
  pub sub_domain_host : String
  pub max_ports_per_client : ℤ
  pub auth_method : String
  pub auth_token : String
  -- one range, or none
  pub allow_ports : Option (ℤ × ℤ)
  pub log_level : String
  pub log_max_days : ℤ
  pub log_to : String
  pub disable_print_color : Bool
  pub tls_force : Bool
  pub web_addr : String
  pub web_port : ℤ
  pub web_user : String
  pub web_password : String

-- of `v1.ClientCommonConfig`
pub record ClientConfig : Type 0 where
  pub server_addr : String
  pub server_port : ℤ
  pub user : String
  pub auth_method : String
  pub auth_token : String
  pub login_fail_exit : Bool
  pub log_level : String
  pub log_max_days : ℤ
  pub log_to : String
  pub disable_print_color : Bool
  pub protocol : String
  pub tls_enable : Bool

-- of `v1.ProxyBaseConfig`; a bandwidth is known by its text, and "" is the zero bandwidth
pub record ProxyBase : Type 0 where
  pub name : String
  pub type : String
  -- `none` is the nil pointer
  pub enabled : Option Bool
  pub local_ip : String
  pub local_port : ℤ
  pub bandwidth_limit : String
  pub use_encryption : Bool
  pub use_compression : Bool
  pub proxy_protocol_version : String
  pub metadatas : Assoc String
  pub balancer_group : String
  pub balancer_key : String
  pub check_type : String
  pub check_path : String
  pub check_interval : ℤ
  pub check_timeout : ℤ
  pub check_max_failed : ℤ

-- of `v1.HTTPProxyConfig`, beyond the base and the domains
pub record HttpExtras : Type 0 where
  pub locations : List String
  pub user : String
  pub password : String
  pub host_header_rewrite : String
  pub route_by_user : String
  pub request_headers : Assoc String
  pub response_headers : Assoc String

-- `v1.ProxyConfigurer`
pub data Proxy : Type 0 where
  tcp udp : ProxyBase → (remote_port : ℤ) → Proxy
  http : ProxyBase → (domains : List String) → (subdomain : String) → HttpExtras → Proxy
  https : ProxyBase → (domains : List String) → (subdomain : String) → Proxy
  tcpmux : ProxyBase → (domains : List String) → (subdomain : String) → (muxer : String) → Proxy
  stcp xtcp sudp : ProxyBase → (secret : String) → (allow_users : List String) → Proxy

abbrev pub base_of : Proxy → ProxyBase
base_of (tcp b _) = b
base_of (udp b _) = b
base_of (http b _ _ _) = b
base_of (https b _ _) = b
base_of (tcpmux b _ _ _) = b
base_of (stcp b _ _) = b
base_of (xtcp b _ _) = b
base_of (sudp b _ _) = b

-- An error is its text.
pub data Result {ℓ} (A : Type ℓ) : Type ℓ where
  ok : A → Result A
  err : String → Result A

infixl 5 ◌>>=◌
abbrev pub ◌>>=◌ {ℓ κ} : {A : Type ℓ} {B : Type κ} → Result A → (A → Result B) → Result B
ok a >>= f = f a
err e >>= f = err e

pub data Level : Type 0 where
  debug info warn error : Level

-- What the engine does to the kernel, the contexts, the ports and the log. A service and a context
-- go by a number.
pub data Action : Type 0 where
  run_server : (service context : ℕ) → ServerConfig → Action
  run_client : (service context : ℕ) → ClientConfig → List Proxy → Action
  update_client : (service : ℕ) → ClientConfig → List Proxy → Action
  graceful_close close_server : (service : ℕ) → Action
  cancel : (context : ℕ) → Action
  wait_ports : List ℤ → Action
  log : Level → (source text : String) → Action

abbrev pub Trace : Type 0
Trace = List Action

-- What the kernel answers; where it depends on the machine, it may depend on all that was done.
pub record Kernel : Type 0 where
  -- `util.EmptyOr`
  pub empty_or : String → String → String
  -- `ServerConfig.Complete` and `ValidateServerConfig`
  pub complete_server : ServerConfig → Result ServerConfig
  pub validate_server : ServerConfig → Option String
  -- `ClientCommonConfig.Complete`, whose error the panel drops
  pub complete_client : ClientConfig → ClientConfig
  -- `types.NewBandwidthQuantity`
  pub parse_bandwidth : String → Result String
  pub complete_proxy : Proxy → Proxy
  -- `ConfigSource.ReplaceAll`, and `Aggregator.Load` after it
  pub replace_all : List Proxy → Option String
  pub load : List Proxy → Result (List Proxy)
  pub validate_client : ClientConfig → List Proxy → Option String
  -- `server.NewService`, `client.NewService` and `UpdateConfigSource`
  pub new_server : Trace → ServerConfig → Option String
  pub new_client : Trace → ClientConfig → List Proxy → Option String
  pub update : Trace → ℕ → ClientConfig → List Proxy → Option String
  -- `util.EmptyOr` gives the second text for an empty first one, else the first.
  pub empty_or-nil : (d : String) → empty_or "" d ≡ d
  pub empty_or_some : (v d : String) → (v == "") ≡ false → empty_or v d ≡ v
