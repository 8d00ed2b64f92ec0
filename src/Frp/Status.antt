-- ===== src/Frp/Status.antt =====
-- internal/frp/engine.go: the proxies that a server's dashboard reports are put to the tunnels of the
-- panel. A map is an association list, in the order in which Go ranges over it.
pub mod Merge
pub mod Snapshot
use Prim.Native.String.{◌++◌}
use ycfrp.Base
use ycfrp.Base.{
  ℕ, ◌+◌, String, Bool, true, false, not, ◌||◌, Option, none, some, List, [], ◌∷◌, map, ℤ, pos,
  eqb_ℤ, ltb, ◌==◌, if◌then◌else◌, Runes, to_lower, trim_space, trim_prefix, has_suffix, itoa,
  Assoc, lookup, insert, keys, select, sort_by,
}
use ycfrp.Frp.Tunnel.{Tunnel, ProxyStatus}
use ycfrp.Frp.Convert.{text_at}

-- `Conf.Metadatas["ycfrpID"]`
abbrev pub panel_id : ProxyStatus → String
panel_id st = text_at "ycfrpID" st.conf.metadatas

-- the closure of `preferProxy`
abbrev pub rank : ProxyStatus → ℕ
rank st = (if st.status == "online" then 2 else 0) + (if not (panel_id st == "") then 1 else 0)

-- `preferProxy`
unfoldable pub prefer_proxy : ProxyStatus → ProxyStatus → Bool
unfolding lookup
prefer_proxy candidate current = ltb (rank current) (rank candidate)

-- `dashEntry`
pub record DashEntry : Type 0 where
  pub key : String
  pub st : ProxyStatus

-- `byName`; the names of `stats` are different
abbrev pub by_name : Assoc ProxyStatus → Assoc DashEntry
by_name = map (λ e. (e.0, record { key = e.0; st = e.1 }))

abbrev insert_new : String → DashEntry → Assoc DashEntry → Assoc DashEntry
insert_new id e m = elim (lookup id m) [ none ↦ insert id e m | some _ ↦ m ]

-- `byID`
unfoldable pub by_id : Assoc DashEntry → Assoc ProxyStatus → Assoc DashEntry
unfolding lookup insert
by_id m [] = m
by_id m ((name, st) ∷ rest) =
    let id = panel_id st in
    by_id (if id == "" then m else insert_new id (record { key = name; st = st }) m) rest

abbrev first_key : List String → Assoc DashEntry → Option DashEntry
first_key [] m = none
first_key (k ∷ _) m = lookup k m

-- `lookupProxy`
unfoldable pub lookup_proxy : Assoc DashEntry → Assoc DashEntry → Tunnel → Option DashEntry
unfolding lookup has_suffix select sort_by
lookup_proxy ids names t = elim (lookup t.id ids) [
  | some e ↦ some e
  | none ↦ elim (lookup t.name names) [
    | some e ↦ some e
    | none ↦
        first_key (sort_by (λ k. k) (select (λ k. has_suffix k ("." ++ t.name)) (keys names))) names
  ]
]

-- `kernelID`
unfoldable pub kernel_id : String → ProxyStatus → String
kernel_id name st = if not (panel_id st == "") then panel_id st else "kernel:" ++ name

-- `stripUserPrefix`
unfoldable pub strip_user_prefix : String → String → String
strip_user_prefix user name =
    if user == "" then name else elim (trim_prefix name (user ++ ".")) [ none ↦ name | some s ↦ s ]

-- `firstNonEmpty`
unfoldable pub first_non_empty : List String → String
first_non_empty [] = ""
first_non_empty (v ∷ vs) = let rest = first_non_empty vs in if not (v == "") then v else rest

abbrev first_or : List String → String → String
first_or [] s = s
first_or (d ∷ _) s = d

-- `remoteAddrOf`
unfoldable pub remote_addr_of : ⦃r : Runes⦄ → Tunnel → ProxyStatus → String
unfolding to_lower itoa
remote_addr_of t st =
    let type = to_lower t.type in
    let port = if eqb_ℤ t.remote_port (pos 0) then st.conf.remote_port else t.remote_port in
    if type == "tcp" || type == "udp"
    then if eqb_ℤ port (pos 0) then "" else ":" ++ itoa port
    else first_or t.custom_domains t.subdomain

abbrev pub or_domains : List String → List String → List String
or_domains [] ds = ds
or_domains (d ∷ ds) _ = d ∷ ds

-- the settings that `applyConf` fills in where the panel has none
unfoldable pub fill_in : Tunnel → ProxyStatus → Tunnel
fill_in t st = record t {
  local_ip = if t.local_ip == "" then st.conf.local_ip else t.local_ip;
  local_port = if eqb_ℤ t.local_port (pos 0) then st.conf.local_port else t.local_port;
  remote_port = if eqb_ℤ t.remote_port (pos 0) then st.conf.remote_port else t.remote_port;
  custom_domains = or_domains t.custom_domains st.conf.custom_domains;
  subdomain = if t.subdomain == "" then st.conf.subdomain else t.subdomain;
}

-- whether a key is in `matched`
unfoldable pub is_in : String → List String → Bool
is_in s [] = false
is_in s (k ∷ ks) = k == s || is_in s ks

module _ ⦃r : Runes⦄ where
  -- `applyConf`
  unfoldable pub apply_conf : Tunnel → ProxyStatus → Tunnel
  unfolding fill_in remote_addr_of
  apply_conf t st = let t' = fill_in t st in record t' { remote_addr = remote_addr_of t' st }

  abbrev pub counted : Tunnel → ProxyStatus → Tunnel
  counted t st = record t {
    status = st.status;
    cur_conns = st.cur_conns;
    today_in = st.today_traffic_in;
    today_out = st.today_traffic_out;
  }

  -- the first loop of `mergeStats`: the tunnels, and the keys that are matched
  unfoldable pub match_all :
      Assoc DashEntry → Assoc DashEntry → List Tunnel → List Tunnel × List String
  unfolding apply_conf lookup_proxy
  match_all ids names [] = ([], [])
  match_all ids names (t ∷ ts) =
      let (out, matched) = match_all ids names ts in
      elim (lookup_proxy ids names t) [
        | none ↦ (t ∷ out, matched)
        | some e ↦ (apply_conf (counted t e.st) e.st ∷ out, e.key ∷ matched)
      ]

  -- a row for a proxy that no tunnel matches
  unfoldable pub adopt : String → ProxyStatus → Tunnel
  unfolding apply_conf kernel_id strip_user_prefix first_non_empty
  adopt name st =
      apply_conf
        (record {
          id = kernel_id name st;
          instance_id = "";
          name = strip_user_prefix st.user name;
          type = first_non_empty (st.type ∷ st.conf.type ∷ []);
          enabled = true;
          local_ip = "";
          local_port = pos 0;
          remote_port = pos 0;
          custom_domains = [];
          subdomain = "";
          secret_key = "";
          group = "";
          group_key = "";
          load_balance_group = "";
          load_balance_key = "";
          use_encryption = false;
          use_compression = false;
          bandwidth_limit = "";
          proxy_protocol_version = "";
          health_check_type = "";
          health_check_url = "";
          health_check_interval = pos 0;
          health_check_timeout = pos 0;
          health_check_max_failed = pos 0;
          locations = [];
          http_user = "";
          http_password = "";
          host_header_rewrite = "";
          request_headers = [];
          response_headers = [];
          route_by_http_user = "";
          note = text_at "note" st.conf.metadatas;
          created_at = 0;
          updated_at = 0;
          external = true;
          status = st.status;
          remote_addr = "";
          err = "";
          today_in = st.today_traffic_in;
          today_out = st.today_traffic_out;
          total_in = pos 0;
          total_out = pos 0;
          cur_conns = st.cur_conns;
        })
        st

  -- the proxies that are not matched, in the order of the range
  unfoldable pub adopt_all : List String → Assoc ProxyStatus → List Tunnel
  unfolding adopt
  adopt_all matched [] = []
  adopt_all matched ((name, st) ∷ rest) =
      let out = adopt_all matched rest in if is_in name matched then out else adopt name st ∷ out

  -- `mergeStats`. Rows of the same identifier stay in the order of the list here; Go ranges over a map
  -- and then sorts with `sort.Slice`, which may leave them in any.
  unfoldable pub merge_stats : List Tunnel → Assoc ProxyStatus → List Tunnel
  unfolding match_all adopt_all by_id sort_by
  merge_stats tunnels [] = tunnels
  merge_stats tunnels (e ∷ es) =
      let stats = e ∷ es in
      let (out, matched) = match_all (by_id [] stats) (by_name stats) tunnels in
      Base.◌++◌ out (sort_by (λ t. t.id) (adopt_all matched stats))
