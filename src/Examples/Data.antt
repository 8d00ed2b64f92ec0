-- ===== src/Examples/Data.antt =====
-- Concrete instances of what the model leaves open.
use Prim.Native.String.{char_at}
use text.Mathlib.TextLemmas.{cons≢nil}
use ycfrp.Base.{
  Char, ◌∙◌, eq_iff, String, true, false, Option, none, some, List, [], ◌∷◌, ◌≡◌, refl, ap, sym,
  eqb, code, ◌==◌, if◌then◌else◌, Runes, pos, Bool-cases, inl, inr, some_inj,
}
use ycfrp.Store.Collection.{Entity, Codec}
use ycfrp.Config.{FrpsConfig, FrpcConfig}
use ycfrp.Frp.Instance.{Instance}
use ycfrp.Frp.Tunnel.{Tunnel}
use ycfrp.Frp.Kernel.{Kernel, ok}

-- letters beyond ASCII have no other case
abbrev pub plain : Runes
plain = record { lower = λ c. c }

abbrev pub named_text : Entity String
named_text = record {
  entity_id = λ s. s;
  created_at = λ s. 0;
  stamp = λ id c u s. s;
  id-stamp = λ t c u. refl;
}

-- no record, or one
abbrev encode_text : List String → Option String
encode_text [] = some "-"
encode_text (s ∷ []) = some (String.◌∷◌ (char_at "+" 0) s)
encode_text _ = none

abbrev decode_text : String → Option (List String)
decode_text String.[] = none
decode_text (String.◌∷◌ c s) = if eqb (code c) b'-' then some [] else some (s ∷ [])

pub decode-encode_text :
    (l : List String) {text : String} → encode_text l ≡ some text → decode_text text ≡ some l
decode-encode_text [] h = ap decode_text (sym (some_inj h))
decode-encode_text (s ∷ []) h = ap decode_text (sym (some_inj h))
decode-encode_text (s ∷ t ∷ l) h = cc

cons-ne : (c : Char) (s : String) → (String.◌∷◌ c s == "") ≡ false
cons-ne c s = elim (Bool-cases (String.◌∷◌ c s == "")) [
  | inl e ↦ absurd (cons≢nil ((eq_iff (String.◌∷◌ c s) "").0 e))
  | inr e ↦ e
]

pub encode_text-some :
    (l : List String) {text : String} → encode_text l ≡ some text → (text == "") ≡ false
encode_text-some [] h = ap (λ t. t == "") (sym (some_inj h))
encode_text-some (s ∷ []) h = ap (λ t. t == "") (sym (some_inj h)) ∙ cons-ne (char_at "+" 0) s
encode_text-some (s ∷ t ∷ l) h = cc

abbrev pub text_codec : Codec String
text_codec = record {
  encode = encode_text;
  decode = decode_text;
  decode-encode = decode-encode_text;
  encode_some = encode_text-some;
}

abbrev pub no_server : FrpsConfig
no_server = record {
  enable = false;
  bind_port = pos 0;
  kcp_bind_port = pos 0;
  quic_bind_port = pos 0;
  dashboard_port = pos 0;
  dashboard_user = "";
  dashboard_pwd = "";
  vhost_http_port = pos 0;
  vhost_https_port = pos 0;
  token = "";
  subdomain_host = "";
  max_ports_per_client = pos 0;
  allow_ports_start = pos 0;
  allow_ports_end = pos 0;
  log_level = "";
  log_max_days = pos 0;
  bind_addr = "";
  transport_tls = false;
}

abbrev pub no_client : FrpcConfig
no_client = record {
  enable = false;
  server_addr = "";
  server_port = pos 0;
  token = "";
  user = "";
  login_fail_exit = false;
  log_level = "";
  log_max_days = pos 0;
  transport_tls = false;
  transport_proto = "";
  use_encryption = false;
  use_compression = false;
}

-- a server that listens at port 7000, with a dashboard at port 7500
abbrev pub hub : Instance
hub = record {
  id = "hub";
  name = "Hub";
  kind = "server";
  note = "";
  server = record no_server { enable = true; bind_port = pos 7000; dashboard_port = pos 7500 };
  client = no_client;
  running = false;
  err = "";
  tunnel_count = pos 0;
  dashboard_url = "";
  created_at = 0;
  updated_at = 0;
}

-- a client of it
abbrev pub leaf : Instance
leaf = record hub {
  id = "leaf";
  name = "Leaf";
  kind = "client";
  server = no_server;
  client = record no_client { enable = true; server_addr = "10.0.0.1"; server_port = pos 7000 };
}

abbrev pub ssh : Tunnel
ssh = record {
  id = "t1";
  instance_id = "leaf";
  name = "ssh";
  type = "tcp";
  enabled = true;
  local_ip = "";
  local_port = pos 22;
  remote_port = pos 6022;
  custom_domains = [];
  subdomain = "";
  secret_key = "";
  group = "";
  group_key = "";
  load_balance_group = "pool";
  load_balance_key = "";
  use_encryption = true;
  use_compression = false;
  bandwidth_limit = "";
  proxy_protocol_version = "";
  health_check_type = "";
  health_check_url = "";
  health_check_interval = pos 0;
  health_check_timeout = pos 0;
  health_check_max_failed = pos 0;
  locations = [];
  http_user = "";
  http_password = "";
  host_header_rewrite = "";
  request_headers = [];
  response_headers = [];
  route_by_http_user = "";
  note = "office";
  created_at = 0;
  updated_at = 0;
  external = false;
  status = "";
  remote_addr = "";
  err = "";
  today_in = pos 0;
  today_out = pos 0;
  total_in = pos 0;
  total_out = pos 0;
  cur_conns = pos 0;
}

abbrev default : String → String → String
default v d = if v == "" then d else v

pub default_some : (v d : String) → (v == "") ≡ false → default v d ≡ v
default_some v d h = rw h refl

-- a kernel that accepts all that it is given
abbrev pub willing : Kernel
willing = record {
  empty_or = default;
  complete_server = λ c. ok c;
  validate_server = λ c. none;
  complete_client = λ c. c;
  parse_bandwidth = λ s. ok s;
  complete_proxy = λ p. p;
  replace_all = λ ps. none;
  load = λ ps. ok ps;
  validate_client = λ c ps. none;
  new_server = λ w c. none;
  new_client = λ w c ps. none;
  update = λ w n c ps. none;
  empty_or-nil = λ d. refl;
  empty_or_some = default_some;
}
