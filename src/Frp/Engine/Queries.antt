-- ===== src/Frp/Engine/Queries.antt =====
-- internal/frp/engine.go: what the panel asks of the engine, `Running` and `LastError`.
use ycfrp.Base.{
  String, Bool, true, false, not, List, [], ◌∷◌, ◌≡◌, ◌↔◌, ◌⊎◌, ◌==◌, if◌then◌else◌, arith,
}
use ycfrp.Frp.Instance.{is_server}
use ycfrp.Frp.Engine.{Runtime, Engine, ordered}

-- the loop of `Running`
unfoldable pub running_in : List Runtime → Bool × Bool
running_in [] = (false, false)
running_in (rt ∷ rts) =
    let (server, client) = running_in rts in
    if not rt.up
    then (server, client)
    else if is_server rt.inst
    then (true, client)
    else (server, true)

-- `Running`
unfoldable pub running : Engine → Bool × Bool
unfolding running_in
running e = running_in (ordered e.order e.runtimes)

-- the loop of `LastError`
unfoldable pub last_error_in : List Runtime → String
last_error_in [] = ""
last_error_in (rt ∷ rts) =
    let rest = last_error_in rts in if not (rt.err == "") then rt.err else rest

-- `LastError`
unfoldable pub last_error : Engine → String
unfolding last_error_in
last_error e = last_error_in (ordered e.order e.runtimes)

-- A runtime of the list serves the role.
abbrev pub IsServing : Bool → List Runtime → Type 0
IsServing role [] = ⊥
IsServing role (rt ∷ rts) = ((rt.up ≡ true) × (is_server rt.inst ≡ role)) ⊎ IsServing role rts

running_in-server : (rts : List Runtime) → ((running_in rts).0 ≡ true) ↔ IsServing true rts
unfolding running_in
running_in-server [] = ((λ h. cc), λ h. absurd h)
running_in-server (rt ∷ rts) =
    let (to, from) = running_in-server rts in ((λ h. ground (arith, to)), λ h. ground (arith, from))

running_in-client : (rts : List Runtime) → ((running_in rts).1 ≡ true) ↔ IsServing false rts
unfolding running_in
running_in-client [] = ((λ h. cc), λ h. absurd h)
running_in-client (rt ∷ rts) =
    let (to, from) = running_in-client rts in ((λ h. ground (arith, to)), λ h. ground (arith, from))

-- `Running` answers for each role whether one of the runtimes of the engine is up in that role.
pub running_iff :
    (e : Engine)
    → (((running e).0 ≡ true) ↔ IsServing true (ordered e.order e.runtimes))
      × (((running e).1 ≡ true) ↔ IsServing false (ordered e.order e.runtimes))
unfolding running
running_iff e =
    (running_in-server (ordered e.order e.runtimes), running_in-client (ordered e.order e.runtimes))
