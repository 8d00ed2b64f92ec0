-- ===== src/App/Upgrade.antt =====
-- internal/app/instances.go: what is made of the data of an older panel.
use Prim.Native.String.{◌++◌}
use ycfrp.Base
use ycfrp.Base.{
  ℕ, suc, String, Bool, true, false, not, ◌&&◌, ◌||◌, Option, none, some, List, [], ◌∷◌, ◌==◌,
  if◌then◌else◌, trim_space, length, itoa, pos, select, Runes,
}
use ycfrp.Config.{FrpsConfig, FrpcConfig}
use ycfrp.Store.Collection.{Codec, Collection, Result, ok, err, list, put}
use ycfrp.Frp.Instance.{Instance, kind_server, kind_client}
use ycfrp.Frp.Tunnel.{Tunnel}
use ycfrp.Log.{Calendar, level_info}
use ycfrp.Log.Calls.{log}
use ycfrp.App.{App, Reading, Fault, tunnel_unsaved, instance_entity, tunnel_entity}
use ycfrp.App.Instances.{first_of_kind, first_client_instance, all_tunnels, say}

-- an instance as `migrateInstances` makes it
abbrev migrated : String → String → String → FrpsConfig → FrpcConfig → Instance
migrated id name kind server client = record {
  id = id;
  name = name;
  kind = kind;
  note = "";
  server = server;
  client = client;
  running = false;
  err = "";
  tunnel_count = pos 0;
  dashboard_url = "";
  created_at = 0;
  updated_at = 0;
}

-- the tokens of both sides, where an empty one takes the other
unfoldable pub aligned : FrpsConfig → FrpcConfig → FrpsConfig × FrpcConfig
unfolding trim_space
aligned s c =
    let st = trim_space s.token in
    let ct = trim_space c.token in
    (
      if (st == "") && not (ct == "") then record s { token = ct } else s,
      if (ct == "") && not (st == "") then record c { token = st } else c,
    )

module _ (instances : Codec Instance) where
  -- `coll.Put` of one instance, where its side was in use
  unfoldable pub migrate_one :
      Bool → Reading → Instance → Collection Instance → Result (List Instance) × Collection Instance
  unfolding put
  migrate_one false m i c = (ok [], c)
  migrate_one true m i c =
      let (r, c') = put instance_entity instances i m.now m.later m.outcome c in
      (elim r [ err e ↦ err e | ok _ ↦ ok (i ∷ []) ], c')

  -- the client, after the server
  unfoldable pub migrate_rest :
      Bool
      → Reading
      → Instance
      → Result (List Instance)
      → Collection Instance
      → Result (List Instance) × Collection Instance
  unfolding migrate_one
  migrate_rest uses m i (err e) c = (err e, c)
  migrate_rest uses m i (ok created) c =
      let (r, c') = migrate_one uses m i c in
      (elim r [ err e ↦ err e | ok more ↦ ok (Base.◌++◌ created more) ], c')

  -- `migrateInstances`, with two new identifiers, and Go's zero values of the two settings; the instances made,
  -- and the settings with their tokens
  unfoldable pub migrate_instances :
      FrpsConfig
      → FrpcConfig
      → Reading
      → Reading
      → String
      → String
      → FrpsConfig
      → FrpcConfig
      → Bool
      → Collection Instance
      → Result (List Instance) × Collection Instance × FrpsConfig × FrpcConfig
  unfolding trim_space aligned migrate_one migrate_rest
  migrate_instances zero_s zero_c m m' id id' s c has_tunnels coll =
      let custom = not (trim_space s.token == "") || not (trim_space c.token == "") in
      let (s', c') = aligned s c in
      let (r, coll1) = migrate_one s'.enable m (migrated id "服务端" kind_server s' zero_c) coll in
      let (r', coll2) =
        migrate_rest c'.enable m' (migrated id' "客户端" kind_client zero_s c') r coll1 in
      if not s.enable && not c.enable && not has_tunnels
      then (ok [], coll, s, c)
      else if not has_tunnels && not custom
      then (ok [], coll, s, c)
      else (r', coll2, s', c')

  -- what `fixTokenConsistency` puts, of the first server and the first client
  unfoldable pub token_fix : Instance → Instance → Option (String × Instance)
  unfolding trim_space
  token_fix server client =
      let st = trim_space server.server.token in
      let ct = trim_space client.client.token in
      if not (st == "") && (ct == "")
      then some (
        "已把客户端令牌与服务端对齐（修复旧版本不一致）",
        record client { client = record client.client { token = server.server.token } },
      )
      else if not (ct == "") && (st == "")
      then some (
        "已把服务端令牌与客户端对齐（修复旧版本不一致）",
        record server { server = record server.server { token = client.client.token } },
      )
      else none

  -- `fixTokenConsistency`, with the line that it logs
  unfoldable pub fix_token_consistency :
      Reading → Collection Instance → Option String × Collection Instance
  unfolding first_of_kind token_fix put list
  fix_token_consistency m c =
      let l = list instance_entity instances c in
      elim (first_of_kind true l) [
        | none ↦ (none, c)
        | some server ↦ elim (first_of_kind false l) [
          | none ↦ (none, c)
          | some client ↦ elim (token_fix server client) [
            | none ↦ (none, c)
            | some (message, i) ↦
                (some message, (put instance_entity instances i m.now m.later m.outcome c).1)
          ]
        ]
      ]

  module _ (tunnels : Codec Tunnel) (cal : Calendar) where
    -- the tunnels that have no instance, given one
    unfoldable pub orphans : String → List Tunnel → List Tunnel
    unfolding trim_space
    orphans client [] = []
    orphans client (t ∷ l) =
        let rest = orphans client l in
        if trim_space t.instance_id == "" then record t { instance_id = client } ∷ rest else rest

    -- the loop of `Put`, with what the clock and the file system answer for each tunnel
    unfoldable pub put_tunnels :
        (String → Reading) → List Tunnel → Collection Tunnel → Option Fault × Collection Tunnel
    unfolding put
    put_tunnels at [] c = (none, c)
    put_tunnels at (t ∷ l) c =
        let m = at t.id in
        let (r, c') = put tunnel_entity tunnels t m.now m.later m.outcome c in
        let rest = put_tunnels at l c' in
        elim r [ err e ↦ (some (tunnel_unsaved t.name e), c') | ok _ ↦ rest ]

    abbrev adopted : Reading → List Tunnel → Instance → Option Fault → App → Option Fault × App
    adopted m changed client (some e) a = (some e, a)
    adopted m changed client none a = (
      none,
      say instances tunnels cal m level_info
          ("已将 " ++ (itoa (pos (length changed)) ++ (" 条未归属隧道归入实例「" ++ (client.name ++ "」")))) a,
    )

    -- `adoptOrphanTunnels`
    unfoldable pub adopt_orphan_tunnels : Reading → (String → Reading) → App → Option Fault × App
    unfolding first_client_instance orphans put_tunnels list log itoa
    adopt_orphan_tunnels m at a = elim (first_client_instance instances tunnels cal a) [
      | none ↦ (none, a)
      | some client ↦
          (let changed = orphans client.id (all_tunnels instances tunnels cal a) in
            let (e, c) = put_tunnels at changed a.tunnels in
            elim changed [
              | [] ↦ (none, a)
              | t ∷ rest ↦ adopted m (t ∷ rest) client e (record a { tunnels = c })
            ])
    ]
