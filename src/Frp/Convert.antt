-- ===== src/Frp/Convert.antt =====
-- internal/frp/config.go and internal/frp/parse.go: a tunnel as a kernel proxy, and back.
pub mod RoundTrip
use Prim.Native.String.{◌++◌}
use ycfrp.Base.{
  String, Bool, true, false, not, Option, none, some, List, [], ◌∷◌, ℤ, pos, is_pos, ◌==◌,
  if◌then◌else◌, Runes, trim_space, to_lower, join, Assoc, lookup, insert,
}
use ycfrp.Frp.Tunnel.{Tunnel}
use ycfrp.Frp.Kernel.{
  ProxyBase, HttpExtras, Proxy, tcp, udp, http, https, tcpmux, stcp, xtcp, sudp, base_of, Result,
  ok, err, ◌>>=◌, Kernel,
}
use ycfrp.Frp.Build.{split_list, http_extras}

abbrev prefixed {ℓ} : {A : Type ℓ} → String → Result A → Result A
prefixed prefix (ok a) = ok a
prefixed prefix (err e) = err (prefix ++ e)

-- `parseBandwidth`, where there is a limit
abbrev bandwidth : Kernel → String → Result String
bandwidth k s = if s == "" then ok "" else prefixed "带宽限制格式不正确: " (k.parse_bandwidth s)

-- the metadata that `TunnelToProxy` writes
unfoldable pub metadata : Tunnel → Assoc String
unfolding insert
metadata t = insert "ycfrpID" t.id (if t.note == "" then [] else ("note", t.note) ∷ [])

-- a count that is not positive is left at zero
abbrev positive : ℤ → ℤ
positive n = if is_pos n then n else pos 0

-- the base that `TunnelToProxy` fills in, given the bandwidth
unfoldable pub proxy_base : Kernel → Tunnel → String → ProxyBase
unfolding metadata trim_space
proxy_base k t limit =
    let checked = not (t.health_check_type == "") in
    record {
      name = t.name;
      type = t.type;
      enabled = some t.enabled;
      local_ip = k.empty_or t.local_ip "127.0.0.1";
      local_port = t.local_port;
      bandwidth_limit = limit;
      use_encryption = t.use_encryption;
      use_compression = t.use_compression;
      proxy_protocol_version = t.proxy_protocol_version;
      metadatas = metadata t;
      balancer_group = trim_space t.load_balance_group;
      balancer_key = trim_space t.load_balance_key;
      check_type = t.health_check_type;
      check_path = if checked then t.health_check_url else "";
      check_interval = if checked then positive t.health_check_interval else pos 0;
      check_timeout = if checked then positive t.health_check_timeout else pos 0;
      check_max_failed = if checked then positive t.health_check_max_failed else pos 0;
    }

-- the `switch` of `TunnelToProxy`, on the type in lower case
unfoldable pub proxy_of_type : String → ProxyBase → Tunnel → Result Proxy
unfolding http_extras split_list
proxy_of_type type b t =
    if type == "tcp"
    then ok (tcp b t.remote_port)
    else if type == "udp"
    then ok (udp b t.remote_port)
    else if type == "http"
    then ok (http b t.custom_domains t.subdomain (http_extras t))
    else if type == "https"
    then ok (https b t.custom_domains t.subdomain)
    else if type == "tcpmux"
    then ok (tcpmux b t.custom_domains t.subdomain "httpconnect")
    else if type == "stcp"
    then ok (stcp b t.secret_key (split_list t.group))
    else if type == "xtcp"
    then ok (xtcp b t.secret_key (split_list t.group))
    else if type == "sudp"
    then ok (sudp b t.secret_key (split_list t.group))
    else err ("不支持的隧道类型: " ++ t.type)

-- `TunnelToProxy`
unfoldable pub tunnel_to_proxy : ⦃r : Runes⦄ → Kernel → Tunnel → Result Proxy
unfolding proxy_base proxy_of_type to_lower
tunnel_to_proxy k t = do
  limit ← bandwidth k t.bandwidth_limit
  proxy_of_type (to_lower t.type) (proxy_base k t limit) t

-- `buildProxies` of internal/frp/engine.go; it makes no visitors
unfoldable pub build_proxies : ⦃r : Runes⦄ → Kernel → List Tunnel → Result (List Proxy)
unfolding tunnel_to_proxy trim_space
build_proxies k [] = ok []
build_proxies k (t ∷ ts) =
    let rest = build_proxies k ts in
    if trim_space t.name == ""
    then err "隧道名称不能为空"
    else do p ← prefixed ("隧道 " ++ t.name ++ ": ") (tunnel_to_proxy k t); ps ← rest; ok (p ∷ ps)

abbrev pub text_at : String → Assoc String → String
text_at k m = elim (lookup k m) [ none ↦ "" | some v ↦ v ]

abbrev enabled_or_nil : Option Bool → Bool
enabled_or_nil none = true
enabled_or_nil (some v) = v

-- what `proxyToTunnel` sets whatever the type of the proxy is
unfoldable pub tunnel_of_base : ProxyBase → Tunnel
unfolding lookup
tunnel_of_base b =
    let checked = not (b.check_type == "") in
    record {
      id = "";
      instance_id = "";
      name = b.name;
      type = b.type;
      enabled = enabled_or_nil b.enabled;
      local_ip = b.local_ip;
      local_port = b.local_port;
      remote_port = pos 0;
      custom_domains = [];
      subdomain = "";
      secret_key = "";
      group = b.balancer_group;
      group_key = b.balancer_key;
      load_balance_group = "";
      load_balance_key = "";
      use_encryption = b.use_encryption;
      use_compression = b.use_compression;
      bandwidth_limit = if b.bandwidth_limit == "0" then "" else b.bandwidth_limit;
      proxy_protocol_version = b.proxy_protocol_version;
      health_check_type = b.check_type;
      health_check_url = if checked then b.check_path else "";
      health_check_interval = if checked then b.check_interval else pos 0;
      health_check_timeout = if checked then b.check_timeout else pos 0;
      health_check_max_failed = if checked then b.check_max_failed else pos 0;
      locations = [];
      http_user = "";
      http_password = "";
      host_header_rewrite = "";
      request_headers = [];
      response_headers = [];
      route_by_http_user = "";
      note = text_at "note" b.metadatas;
      created_at = 0;
      updated_at = 0;
      external = false;
      status = "";
      remote_addr = "";
      err = "";
      today_in = pos 0;
      today_out = pos 0;
      total_in = pos 0;
      total_out = pos 0;
      cur_conns = pos 0;
    }

abbrev secret_tunnel : String → ProxyBase → String → List String → Tunnel
secret_tunnel type b secret users = record (tunnel_of_base b) {
  type = type;
  secret_key = secret;
  group = join users ",";
}

-- `proxyToTunnel`; each proxy is of a type that it knows
unfoldable pub proxy_to_tunnel : Proxy → Tunnel
unfolding tunnel_of_base join
proxy_to_tunnel (tcp b port) = record (tunnel_of_base b) { type = "tcp"; remote_port = port }
proxy_to_tunnel (udp b port) = record (tunnel_of_base b) { type = "udp"; remote_port = port }
proxy_to_tunnel (http b domains sub _) = record (tunnel_of_base b) {
  type = "http";
  custom_domains = domains;
  subdomain = sub;
}
proxy_to_tunnel (https b domains sub) = record (tunnel_of_base b) {
  type = "https";
  custom_domains = domains;
  subdomain = sub;
}
proxy_to_tunnel (tcpmux b domains sub _) = record (tunnel_of_base b) {
  type = "tcpmux";
  custom_domains = domains;
  subdomain = sub;
}
proxy_to_tunnel (stcp b secret users) = secret_tunnel "stcp" b secret users
proxy_to_tunnel (xtcp b secret users) = secret_tunnel "xtcp" b secret users
proxy_to_tunnel (sudp b secret users) = secret_tunnel "sudp" b secret users
