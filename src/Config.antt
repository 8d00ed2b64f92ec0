-- ===== src/Config.antt =====
-- internal/config/config.go: the settings document of the panel.
pub mod Channels
pub mod Document
pub mod Normalize
use native.Mathlib.Decide.{ℕ_discrete}
use ycfrp.Base.{String, Bool, ℤ, eq_iff, ◌==◌, inl, inr, Bool-cases}

-- `FRPSConfig`
pub record FrpsConfig : Type 0 where
  pub enable : Bool
  pub bind_port : ℤ
  pub kcp_bind_port : ℤ
  pub quic_bind_port : ℤ
  pub dashboard_port : ℤ
  pub dashboard_user : String
  pub dashboard_pwd : String
  pub vhost_http_port : ℤ
  pub vhost_https_port : ℤ
  pub token : String
  pub subdomain_host : String
  pub max_ports_per_client : ℤ
  pub allow_ports_start : ℤ
  pub allow_ports_end : ℤ
  pub log_level : String
  pub log_max_days : ℤ
  pub bind_addr : String
  pub transport_tls : Bool

-- `FRPCConfig`
pub record FrpcConfig : Type 0 where
  pub enable : Bool
  pub server_addr : String
  pub server_port : ℤ
  pub token : String
  pub user : String
  pub login_fail_exit : Bool
  pub log_level : String
  pub log_max_days : ℤ
  pub transport_tls : Bool
  pub transport_proto : String
  pub use_encryption : Bool
  pub use_compression : Bool

unfoldable pub String-discrete : Discrete String
String-discrete s t = elim (Bool-cases (s == t)) [
  | inl e ↦ yes ((eq_iff s t).0 e)
  | inr e ↦ no (λ p. cc ((eq_iff s t).1 p))
]

unfoldable pub ℤ-discrete : Discrete ℤ
ℤ-discrete = hlevel ℕ_discrete

-- `reflect.DeepEqual` at the two records decides equality.
unfoldable pub FrpsConfig-discrete : Discrete FrpsConfig
unfolding String-discrete ℤ-discrete
FrpsConfig-discrete = hlevel (String-discrete, ℤ-discrete)

unfoldable pub FrpcConfig-discrete : Discrete FrpcConfig
unfolding String-discrete ℤ-discrete
FrpcConfig-discrete = hlevel (String-discrete, ℤ-discrete)
