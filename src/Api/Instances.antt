-- ===== src/Api/Instances.antt =====
-- internal/api/instances.go: the view of an instance, and how the panel takes one back. The export of a client's
-- configuration, which holds its token, is not part of it.
pub mod Secrets
use ycfrp.Base.{
  ℕ, String, Bool, true, false, not, Option, none, some, List, [], ◌∷◌, ℤ, pos, ◌==◌, if◌then◌else◌,
  trim_space, text_lt, Assoc, lookup, insert,
}
use ycfrp.Config.{FrpsConfig, FrpcConfig}
use ycfrp.Frp.Instance.{Instance, kind_server, kind_label, enabled, ports}
use ycfrp.Frp.Tunnel.{Tunnel}
use ycfrp.Frp.Engine.Statuses.{InstanceStatus}

-- `keepInstanceSecrets`
unfoldable pub keep_instance_secrets : Instance → Instance → Instance
unfolding trim_space
keep_instance_secrets next old = record next {
  server = record next.server {
    token = if trim_space next.server.token == "" then old.server.token else next.server.token;
    dashboard_pwd =
        if trim_space next.server.dashboard_pwd == ""
        then old.server.dashboard_pwd
        else next.server.dashboard_pwd;
  };
  client = record next.client {
    token = if trim_space next.client.token == "" then old.client.token else next.client.token;
  };
  kind = if next.kind == "" then old.kind else next.kind;
}

-- the part `server` of a view
pub record ServerView (I : Type 0) : Type 0 where
  pub bind_addr : String
  pub bind_port : ℤ
  pub kcp_bind_port : ℤ
  pub quic_bind_port : ℤ
  pub dashboard_port : ℤ
  pub dashboard_user : String
  pub vhost_http_port : ℤ
  pub vhost_https_port : ℤ
  pub subdomain_host : String
  pub max_ports_per_client : ℤ
  pub allow_ports_start : ℤ
  pub allow_ports_end : ℤ
  pub log_level : String
  pub log_max_days : ℤ
  pub transport_tls : Bool
  pub has_token : Bool
  pub has_dashboard_pwd : Bool
  pub info : Option I

-- the part `client` of a view
pub record ClientView : Type 0 where
  pub server_addr : String
  pub server_port : ℤ
  pub user : String
  pub login_fail_exit : Bool
  pub log_level : String
  pub log_max_days : ℤ
  pub transport_tls : Bool
  pub transport_protocol : String
  pub use_encryption : Bool
  pub use_compression : Bool
  pub has_token : Bool

-- the view of an instance
pub record View (I C : Type 0) : Type 0 where
  pub id : String
  pub name : String
  pub kind : String
  pub kind_label : String
  pub note : String
  pub enabled : Bool
  pub running : Bool
  pub err : String
  pub ports : List ℤ
  pub tunnel_count : ℕ
  pub created_at : ℕ
  pub updated_at : ℕ
  pub server : ServerView I
  pub client : ClientView
  pub clients : List C

abbrev pub has : String → Bool
has v = not (trim_space v == "")

unfoldable pub server_view : {I : Type 0} → Option I → FrpsConfig → ServerView I
unfolding trim_space
server_view info s = record {
  bind_addr = s.bind_addr;
  bind_port = s.bind_port;
  kcp_bind_port = s.kcp_bind_port;
  quic_bind_port = s.quic_bind_port;
  dashboard_port = s.dashboard_port;
  dashboard_user = s.dashboard_user;
  vhost_http_port = s.vhost_http_port;
  vhost_https_port = s.vhost_https_port;
  subdomain_host = s.subdomain_host;
  max_ports_per_client = s.max_ports_per_client;
  allow_ports_start = s.allow_ports_start;
  allow_ports_end = s.allow_ports_end;
  log_level = s.log_level;
  log_max_days = s.log_max_days;
  transport_tls = s.transport_tls;
  has_token = has s.token;
  has_dashboard_pwd = has s.dashboard_pwd;
  info = info;
}

module _ {I C : Type 0} where
  -- `instanceViewWith`
  unfoldable pub instance_view_with : Instance → InstanceStatus I C → View I C
  unfolding server_view kind_label enabled ports trim_space
  instance_view_with inst st =
      let c = inst.client in
      record {
        id = inst.id;
        name = inst.name;
        kind = inst.kind;
        kind_label = kind_label inst;
        note = inst.note;
        enabled = enabled inst;
        running = st.running;
        err = st.err;
        ports = ports inst;
        tunnel_count = st.tunnel_count;
        created_at = inst.created_at;
        updated_at = inst.updated_at;
        server = server_view st.server inst.server;
        client = record {
          server_addr = c.server_addr;
          server_port = c.server_port;
          user = c.user;
          login_fail_exit = c.login_fail_exit;
          log_level = c.log_level;
          log_max_days = c.log_max_days;
          transport_tls = c.transport_tls;
          transport_protocol = c.transport_proto;
          use_encryption = c.use_encryption;
          use_compression = c.use_compression;
          has_token = has c.token;
        };
        clients = st.clients;
      }

  -- Go's zero status
  abbrev pub no_status : InstanceStatus I C
  no_status = record {
    id = "";
    name = "";
    kind = "";
    enable = false;
    running = false;
    err = "";
    server = none;
    clients = [];
    tunnel_count = 0;
    ports = [];
  }

  -- the status with an identifier, the first or none
  unfoldable pub status_with : String → List (InstanceStatus I C) → InstanceStatus I C
  status_with id [] = no_status
  status_with id (st ∷ l) = let rest = status_with id l in if st.id == id then st else rest

  -- `instanceView`
  unfoldable pub instance_view : Instance → List (InstanceStatus I C) → View I C
  unfolding status_with instance_view_with
  instance_view inst statuses = instance_view_with inst (status_with inst.id statuses)

-- the order of `instanceViews`: servers first, then by name
abbrev pub goes_before : Instance → Instance → Bool
goes_before a b = if a.kind == b.kind then text_lt a.name b.name else a.kind == kind_server

unfoldable pub insert_view : Instance → List Instance → List Instance
unfolding text_lt
insert_view a [] = a ∷ []
insert_view a (b ∷ l) =
    let later = b ∷ insert_view a l in if goes_before b a then later else a ∷ b ∷ l

unfoldable pub sort_views : List Instance → List Instance
unfolding insert_view
sort_views [] = []
sort_views (a ∷ l) = insert_view a (sort_views l)

-- the tunnels of `listInstanceTunnels`
unfoldable pub tunnels_of : String → List Tunnel → List Tunnel
tunnels_of id [] = []
tunnels_of id (t ∷ l) = let rest = tunnels_of id l in if t.instance_id == id then t ∷ rest else rest
