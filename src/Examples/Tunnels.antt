-- ===== src/Examples/Tunnels.antt =====
-- Tunnels and their states at small inputs.
use ycfrp.Base.{
  String, true, false, none, some, List, [], ◌∷◌, ◌++◌, ◌≡◌, ◌⊎◌, inl, refl, if◌then◌else◌, map,
  pos, is_pos, ◌==◌, to_lower, lookup, All, Any, IsSorted, Assoc, trim_space, trim_left, trim_right,
  is_space, text_before, has_prefix,
}
use ycfrp.Frp.Tunnel.{Tunnel, ProxyStatus}
use ycfrp.Frp.Kernel.{Proxy, tcp, base_of, ok}
use ycfrp.Frp.Convert.{tunnel_to_proxy, proxy_of_type, proxy_base, proxy_to_tunnel, tunnel_of_base}
use ycfrp.Frp.Convert.RoundTrip.{read-made, balancer_lost}
use ycfrp.Frp.Build.{server_config, server_input, split_list, fields_from, trim_parts}
use ycfrp.Frp.Build.Settings.{dashboard_guarded}
use ycfrp.Frp.Export.{toml_string, toml_escape}
use ycfrp.Frp.Export.Json.{json_string}
use ycfrp.Frp.Export.Quote.{open_quoted, open_quoted_lem}
use ycfrp.Frp.StartError.{first_port, digits_up_to, port_from_bind_error}
use ycfrp.Frp.Status.{merge_stats, by_id, by_name}
use ycfrp.Frp.Status.Merge.{merge_stats-parts, Finds, HasRow}
use ycfrp.Frp.Status.Snapshot.{Answers, snapshot, collect, StatusResponse}
use ycfrp.Frp.Status.Snapshot.Servers.{Reports, Lists, collect-IsOnline}
use ycfrp.Frp.Status.Snapshot.Online.{flags, snapshot-running, IsOnline}
use ycfrp.Frp.Engine.Queries.{running}
use ycfrp.Examples.Data.{plain, willing, hub, ssh}
use ycfrp.Frp.Engine.{Runtime}
use ycfrp.Examples.Running.{leaf_up, serving}

-- the proxy that the tunnel becomes
abbrev ssh_proxy : Proxy
ssh_proxy = tcp (proxy_base willing ssh "") (pos 6022)

ssh_made : tunnel_to_proxy ⦃r = plain⦄ willing ssh ≡ ok ssh_proxy
unfolding tunnel_to_proxy proxy_of_type to_lower
ssh_made = refl

read-made_example :
    ((proxy_to_tunnel ssh_proxy).name ≡ "ssh")
    × ((proxy_to_tunnel ssh_proxy).type ≡ to_lower ⦃r = plain⦄ "tcp")
    × ((proxy_to_tunnel ssh_proxy).local_ip ≡ "127.0.0.1")
    × ((proxy_to_tunnel ssh_proxy).local_port ≡ pos 22)
    × ((proxy_to_tunnel ssh_proxy).use_encryption ≡ true)
    × ((proxy_to_tunnel ssh_proxy).use_compression ≡ false)
    × ((proxy_to_tunnel ssh_proxy).proxy_protocol_version ≡ "")
    × ((proxy_to_tunnel ssh_proxy).health_check_type ≡ "")
    × ((proxy_to_tunnel ssh_proxy).note ≡ "office")
read-made_example = read-made ⦃r = plain⦄ willing ssh ssh_proxy ssh_made

-- what becomes of it when it is read and made again
abbrev ssh_again : Proxy
ssh_again = tcp (proxy_base willing (proxy_to_tunnel ssh_proxy) "") (pos 6022)

ssh_remade : tunnel_to_proxy ⦃r = plain⦄ willing (proxy_to_tunnel ssh_proxy) ≡ ok ssh_again
unfolding tunnel_to_proxy proxy_of_type to_lower proxy_to_tunnel tunnel_of_base proxy_base
ssh_remade = refl

-- the group is there the first time
ssh_group : (base_of ssh_proxy).balancer_group ≡ "pool"
unfolding proxy_base trim_space trim_left trim_right is_space
ssh_group = refl

balancer_lost_example : (base_of ssh_again).balancer_group ≡ ""
balancer_lost_example = balancer_lost ⦃r = plain⦄ willing ssh_proxy ssh_again ssh_remade

dashboard_guarded_example :
    (((server_config willing (server_input hub)).web_addr ≡ "")
      × ((server_config willing (server_input hub)).web_port ≡ pos 0))
    ⊎ (((server_config willing (server_input hub)).web_addr ≡ "127.0.0.1")
        × (is_pos (server_config willing (server_input hub)).web_port ≡ true)
        × ((server_config willing (server_input hub)).web_port ≡ pos 7500)
        × (((server_config willing (server_input hub)).web_user == "") ≡ false)
        × (((server_config willing (server_input hub)).web_password == "") ≡ false))
dashboard_guarded_example = dashboard_guarded willing hub

abbrev in_use : String
in_use = "listen tcp 0.0.0.0:7000: bind: address already in use"

in_use_port : port_from_bind_error in_use ≡ 7000
unfolding port_from_bind_error text_before first_port digits_up_to has_prefix
in_use_port = refl

-- the colons of an IPv6 address are taken for the one before the port
in_use_port6 : port_from_bind_error "listen tcp [::1]:7000: bind: address already in use" ≡ 1
unfolding port_from_bind_error text_before first_port digits_up_to has_prefix
in_use_port6 = refl

-- a dashboard's record of a proxy
abbrev seen : String → String → String → ProxyStatus
seen name id status = record {
  name = name;
  type = "tcp";
  status = status;
  user = "";
  client_id = "";
  conf = record {
    name = name;
    type = "tcp";
    local_ip = "10.0.0.9";
    local_port = pos 80;
    remote_port = pos 6022;
    custom_domains = [];
    subdomain = "";
    plugin_type = "";
    metadatas = ("ycfrpID", id) ∷ [];
  };
  today_traffic_in = pos 10;
  today_traffic_out = pos 20;
  cur_conns = pos 1;
  last_start_time = "";
  last_close_time = "";
}

abbrev reported : Assoc ProxyStatus
reported = ("web", seen "web" "" "online") ∷ ("ssh", seen "ssh" "t1" "online") ∷ []

merge_stats-parts_example :
    (owned : List Tunnel) × (added : List Tunnel) × (merge_stats ⦃r = plain⦄ (ssh ∷ []) reported
      ≡ owned ++ added)
    × (map (λ t. t.id) owned ≡ "t1" ∷ [])
    × All (λ t. t.external ≡ true) added
    × IsSorted (λ t. t.id) added
    × ((name : String) (st : ProxyStatus)
        → lookup name reported ≡ some st
        → Any (Finds ⦃r = plain⦄ (by_id [] reported) (by_name reported) name) (ssh ∷ [])
          ⊎ HasRow ⦃r = plain⦄ name st added)
merge_stats-parts_example = merge_stats-parts ⦃r = plain⦄ (ssh ∷ []) reported

-- no dashboard answers
abbrev silent : Answers String String
silent = record {
  info = λ rt. none;
  stats = λ rt. none;
  clients = λ rt. none;
  working = λ rt s. none;
}

-- two servers that report a proxy of one name, the first as offline
abbrev hub_up : Runtime
hub_up = record leaf_up { inst = hub }

abbrev hub2_up : Runtime
hub2_up = record leaf_up { inst = record hub { id = "hub2" } }

abbrev talking : Answers String String
talking = record silent {
  stats = λ rt.
      if rt.inst.id == "hub2"
      then some (("ssh", seen "ssh" "t1" "online") ∷ [])
      else some (("ssh", seen "ssh" "t1" "offline") ∷ []);
}

abbrev nothing_yet : StatusResponse String String
nothing_yet = record {
  server_running = false;
  client_running = false;
  server = none;
  clients = [];
  tunnels = [];
}

collect-IsOnline_example :
    (Any (Reports ⦃r = plain⦄ talking (IsOnline "ssh")) (hub2_up ∷ hub_up ∷ [])
      → IsOnline "ssh" (collect ⦃r = plain⦄ talking (hub2_up ∷ hub_up ∷ []) (nothing_yet, [])).1)
    × ((st : ProxyStatus)
        → lookup "ssh" (collect ⦃r = plain⦄ talking (hub2_up ∷ hub_up ∷ []) (nothing_yet, [])).1
          ≡ some st
        → Any (Reports ⦃r = plain⦄ talking (Lists "ssh" st)) (hub2_up ∷ hub_up ∷ []))
collect-IsOnline_example =
    collect-IsOnline ⦃r = plain⦄ talking "ssh" (hub2_up ∷ hub_up ∷ []) nothing_yet

-- The later report, which is offline, does not take the place of the one that is online.
first_stays :
    IsOnline "ssh" (collect ⦃r = plain⦄ talking (hub2_up ∷ hub_up ∷ []) (nothing_yet, [])).1
unfolding lookup
first_stays = (collect-IsOnline ⦃r = plain⦄ talking "ssh" (hub2_up ∷ hub_up ∷ []) nothing_yet).0 (
    inl (
      ("ssh", seen "ssh" "t1" "online") ∷ [],
      refl,
      refl,
      refl,
      (seen "ssh" "t1" "online", refl, refl),
    ))

snapshot-running_example :
    (flags ⦃r = plain⦄ silent (snapshot ⦃r = plain⦄ silent serving) ≡ running serving)
    × All (λ t. (t.status == "") ≡ false) (snapshot ⦃r = plain⦄ silent serving).tunnels
snapshot-running_example = snapshot-running ⦃r = plain⦄ silent serving

users : split_list " ann, bob;;ann" ≡ "ann" ∷ "bob" ∷ "ann" ∷ []
unfolding split_list fields_from trim_parts trim_space trim_left trim_right is_space
users = refl

quoted : toml_string "say \"hi\"\\" ≡ "\"say \\\"hi\\\"\\\\\""
unfolding toml_string toml_escape
quoted = refl

open_quoted_lem_example :
    (open_quoted (toml_string "a\"\n") ≡ some ("a\"\n", ""))
    × (open_quoted (json_string "a\"\n") ≡ some ("a\"\n", ""))
open_quoted_lem_example = open_quoted_lem "a\"\n"
