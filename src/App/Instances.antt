-- ===== src/App/Instances.antt =====
-- internal/app/instances.go: saving, switching and deleting instances.
pub mod Apart
pub mod Tidy
pub mod Switch
pub mod Session
pub mod Removal
use Prim.Native.String.{◌++◌}
use ycfrp.Base.{
  ℕ, suc, String, Char, code, Bool, true, false, not, ◌&&◌, ◌||◌, Option, none, some, List, [], ◌∷◌,
  ℤ, pos, itoa, eqb, eqb_ℤ, ◌==◌, if◌then◌else◌, Runes, trim_space, select,
}
use ycfrp.Store.Collection.{
  Codec, Collection, Outcome, Result, ok, err, Error, list, get, put, delete,
}
use ycfrp.Frp.Instance.{
  Instance, kind_server, is_server, kind_label, enabled, set_enabled, display_name, normalize,
  validate, ports,
}
use ycfrp.Frp.Tunnel.{Tunnel}
use ycfrp.Log.{Calendar, level_info, level_warn}
use ycfrp.Log.Calls.{log}
use ycfrp.App.{
  instance_entity, tunnel_entity, App, Reading, Fault, missing, refused, unsaved, tunnel_unsaved,
  Answer, done, failed, new_id,
}

-- `unicode.SimpleFold`: the least rune of each orbit.
pub record Folds : Type 0 where
  pub fold : Char → Char

-- `strings.EqualFold`
unfoldable pub equal_fold : ⦃f : Folds⦄ → String → String → Bool
equal_fold String.[] String.[] = true
equal_fold String.[] (String.◌∷◌ d t) = false
equal_fold (String.◌∷◌ c s) String.[] = false
equal_fold ⦃f⦄ (String.◌∷◌ c s) (String.◌∷◌ d t) =
    eqb (code (f.fold c)) (code (f.fold d)) && equal_fold s t

abbrev pub holds : ℤ → List ℤ → Bool
holds p [] = false
holds p (q ∷ l) = eqb_ℤ q p || holds p l

-- `firstPortConflict`
unfoldable pub first_port_conflict : List ℤ → List ℤ → Option ℤ
first_port_conflict a [] = none
first_port_conflict a (p ∷ b) =
    let rest = first_port_conflict a b in if holds p a then some p else rest

abbrev pub port_message : String → Option ℤ → Option String
port_message name none = none
port_message name (some p) = some ("端口 " ++ (itoa p ++ (" 已被实例「" ++ (name ++ "」占用，请换一个端口"))))

-- one round of the loop of `checkInstanceConflicts`
unfoldable pub check_other : ⦃f : Folds⦄ → Instance → Instance → Option String
unfolding equal_fold trim_space kind_label enabled first_port_conflict ports itoa
check_other inst other =
    if other.id == inst.id
    then none
    else if other.kind == inst.kind && equal_fold (trim_space other.name) inst.name
    then some (kind_label inst ++ ("实例名称「" ++ (inst.name ++ "」已存在")))
    else if not (other.kind == inst.kind) || not (is_server inst)
    then none
    else if not (enabled other) || not (enabled inst)
    then none
    else port_message other.name (first_port_conflict (ports other) (ports inst))

-- `checkInstanceConflicts`, given the instances that `List` answers
unfoldable pub check_conflicts : ⦃f : Folds⦄ → Instance → List Instance → Option String
unfolding check_other
check_conflicts inst [] = none
check_conflicts inst (other ∷ rest) =
    let later = check_conflicts inst rest in
    elim (check_other inst other) [ none ↦ later | some message ↦ some message ]

-- the address that a server listens on when none is given
unfoldable pub listening : Instance → Instance
unfolding trim_space
listening i =
    if i.kind == kind_server && (trim_space i.server.bind_addr == "")
    then record i { server = record i.server { bind_addr = "0.0.0.0" } }
    else i

-- a fresh identifier where there is none
unfoldable pub identified : String → Instance → Instance
identified fresh i = if i.id == "" then record i { id = fresh } else i

-- the instances of one kind, and the first of them
unfoldable pub of_kind : Bool → List Instance → List Instance
unfolding select
of_kind server l = select (λ i. if server then is_server i else not (is_server i)) l

unfoldable pub first_of_kind : Bool → List Instance → Option Instance
unfolding of_kind
first_of_kind server l = elim (of_kind server l) [ [] ↦ none | i ∷ _ ↦ some i ]

unfoldable pub any_enabled : List Instance → Bool
unfolding enabled
any_enabled [] = false
any_enabled (i ∷ l) = enabled i || any_enabled l

abbrev pub saved_message : Instance → String
unfolding display_name
saved_message i = "已保存实例 " ++ display_name i

abbrev pub switched_message : Bool → Instance → String
unfolding display_name
switched_message on i = "实例 " ++ (display_name i ++ (" " ++ (if on then "已启用" else "已停用")))

abbrev pub deleted_message : ℕ → Instance → String
unfolding display_name itoa
deleted_message n i = "已删除实例 " ++ (display_name i ++ ("（同时移除 " ++ (itoa (pos n) ++ " 条隧道）")))

-- the checks of `ToggleInstance`, which are made only to switch an instance on
unfoldable pub toggle_check : ⦃f : Folds⦄ → Bool → Instance → List Instance → Option String
unfolding validate check_conflicts
toggle_check on i others = elim (validate i) [
  | none ↦ (if on then check_conflicts i others else none)
  | some message ↦ (if on then some message else none)
]

module _ (instances : Codec Instance) (tunnels : Codec Tunnel) (cal : Calendar) where
  abbrev pub all_instances : App → List Instance
  all_instances a = list instance_entity instances a.instances

  abbrev pub all_tunnels : App → List Tunnel
  all_tunnels a = list tunnel_entity tunnels a.tunnels

  -- `FirstClientInstance`
  unfoldable pub first_client_instance : App → Option Instance
  unfolding first_of_kind list
  first_client_instance a = first_of_kind false (all_instances a)

  -- `FirstServerInstance`
  unfoldable pub first_server_instance : App → Option Instance
  unfolding first_of_kind list
  first_server_instance a = first_of_kind true (all_instances a)

  -- `instanceName`
  unfoldable pub instance_name : String → App → String
  unfolding get
  instance_name id a = elim (get instance_entity instances a.instances id) [
    | ok i ↦ i.name
    | err _ ↦ id
  ]

  abbrev pub say : Reading → String → String → App → App
  say m level message a = record a { log = log cal m.opens m.logged level "实例" message a.log }

  -- what follows `Put`: its error, or the line of the log
  abbrev pub stored : Reading → (Instance → String) → Result Instance → App → Answer Instance × App
  stored m message (err e) a = (failed (unsaved e), a)
  stored m message (ok i) a = (done i, say m level_info (message i) a)

  unfoldable pub put_instance :
      Reading → (Instance → String) → Instance → App → Answer Instance × App
  unfolding put log
  put_instance m message i a =
      let (r, c) = put instance_entity instances i m.now m.later m.outcome a.instances in
      stored m message r (record a { instances = c })

  -- `SaveInstance`, with the identifier that `NewID` answers
  unfoldable pub save_instance :
      ⦃r : Runes⦄ → ⦃f : Folds⦄ → Reading → String → Instance → App → Answer Instance × App
  unfolding normalize listening validate check_conflicts identified put_instance list display_name
  save_instance m fresh inst a =
      let i = listening (normalize inst) in
      elim (validate i) [
        | some message ↦ (failed (refused message), a)
        | none ↦ elim (check_conflicts i (all_instances a)) [
          | some message ↦ (failed (refused message), a)
          | none ↦ put_instance m saved_message (identified fresh i) a
        ]
      ]

  -- `ToggleInstance`
  unfoldable pub toggle_instance :
      ⦃f : Folds⦄ → Reading → String → Bool → App → Answer Instance × App
  unfolding get set_enabled toggle_check put_instance list
  toggle_instance m id on a = elim (get instance_entity instances a.instances id) [
    | err _ ↦ (failed missing, a)
    | ok i ↦ elim (toggle_check on (set_enabled on i) (all_instances a)) [
      | some message ↦ (failed (refused message), a)
      | none ↦ put_instance m (switched_message on) (set_enabled on i) a
    ]
  ]

  -- the loop of `DeleteInstance` over the tunnels, with how the deletion of each ends; the number of those
  -- removed, and the error that ended the loop
  unfoldable pub remove_tunnels :
      String
      → (String → Outcome)
      → List Tunnel
      → ℕ
      → Collection Tunnel
      → Option Fault × ℕ × Collection Tunnel
  unfolding delete
  remove_tunnels id ends [] n c = (none, n, c)
  remove_tunnels id ends (t ∷ l) n c =
      let (e, c') = delete tunnel_entity tunnels t.id (ends t.id) c in
      let rest = remove_tunnels id ends l (suc n) c' in
      let skip = remove_tunnels id ends l n c in
      if not (t.instance_id == id)
      then skip
      else elim e [ none ↦ rest | some x ↦ (some (tunnel_unsaved t.name x), n, c') ]

  -- the end of `DeleteInstance`, once its tunnels are gone
  abbrev pub removed : Reading → Instance → ℕ → Option Error → App → ℕ × Option Fault × App
  removed m i n (some e) a = (n, some (unsaved e), a)
  removed m i n none a = (n, none, say m level_warn (deleted_message n i) a)

  -- `DeleteInstance`; `m.outcome` is how the deletion of the instance ends
  unfoldable pub delete_instance :
      Reading → (String → Outcome) → String → App → ℕ × Option Fault × App
  unfolding get delete remove_tunnels list log
  delete_instance m ends id a = elim (get instance_entity instances a.instances id) [
    | err _ ↦ (0, some missing, a)
    | ok i ↦
        (let (e, n, c) = remove_tunnels id ends (all_tunnels a) 0 a.tunnels in
          let (e', d) = delete instance_entity instances id m.outcome a.instances in
          elim e [
            | some x ↦ (n, some x, record a { tunnels = c })
            | none ↦ removed m i n e' (record a { tunnels = c; instances = d })
          ])
  ]
