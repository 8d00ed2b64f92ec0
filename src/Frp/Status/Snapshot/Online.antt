-- ===== src/Frp/Status/Snapshot/Online.antt =====
-- What `Snapshot` promises of the roles that run, of the states it reports, and of the records of one
-- name that several servers report.
use ycfrp.Base.{
  String, Bool, true, false, ◌||◌, none, some, List, [], ◌∷◌, map, ◌≡◌, refl, sym, ap, ◌∙◌, ◌==◌,
  if◌then◌else◌, Runes, Assoc, lookup, lookup-insert, eq_iff, All, inl, inr, Bool-cases,
  Option-cases, arith, ◌⊎◌, subst, some_inj,
}
use ycfrp.Frp.Instance.{is_server}
use ycfrp.Frp.Tunnel.{Tunnel, ProxyStatus}
use ycfrp.Frp.Engine.{Runtime, Engine, ordered}
use ycfrp.Frp.Engine.Queries.{running, running_in}
use ycfrp.Frp.Status.{prefer_proxy}
use ycfrp.Frp.Status.Snapshot.{
  Answers, StatusResponse, keep_better, keep_all, settle, collect_one, collect, snapshot,
}

settle-status : (t : Tunnel) → ((settle t).status == "") ≡ false
unfolding settle
settle-status t = elim (Bool-cases (t.status == "")) [
  | inr e ↦ rw e e
  | inl e ↦ rw e (elim (Bool-cases t.external) [
    | inl x ↦ rw x refl
    | inr x ↦ rw x (elim (Bool-cases t.enabled) [ inl y ↦ rw y refl | inr y ↦ rw y refl ])
  ])
]

settle_each : (ts : List Tunnel) → All (λ t. (t.status == "") ≡ false) (map settle ts)
settle_each [] = tt
settle_each (t ∷ ts) = (settle-status t, settle_each ts)

-- Go's two flags, as they stand so far
abbrev both : Bool × Bool → Bool × Bool → Bool × Bool
both (a, b) (c, d) = (a || c, b || d)

or_false : (b : Bool) → b ≡ b || false
or_false true = refl
or_false false = refl

or_true : (b : Bool) → true ≡ b || true
or_true true = refl
or_true false = refl

both_nil : (p : Bool × Bool) → p ≡ both p (false, false)
both_nil (a, b) = λ i. (or_false a i, or_false b i)

both-server : (a b : Bool) (q : Bool × Bool) → both (true, b) q ≡ both (a, b) (true, q.1)
both-server a b (c, d) = λ i. (or_true a i, b || d)

both-client : (a b : Bool) (q : Bool × Bool) → both (a, true) q ≡ both (a, b) (q.0, true)
both-client a b (c, d) = λ i. (a || c, or_true b i)

module _ ⦃r : Runes⦄ {Info Client : Type 0} (answers : Answers Info Client) where
  abbrev pub flags : StatusResponse Info Client → Bool × Bool
  flags out = (out.server_running, out.client_running)

  collect-flags :
      (rts : List Runtime) (p : StatusResponse Info Client × Assoc ProxyStatus)
      → flags (collect answers rts p).0 ≡ both (flags p.0) (running_in rts)
  unfolding collect collect_one running_in
  collect-flags [] p = both_nil (flags p.0)
  collect-flags (rt ∷ rts) p =
      collect-flags rts (collect_one answers rt p) ∙ elim (Bool-cases rt.up) [
        | inr down ↦ rw down refl
        | inl up ↦ rw up (elim (Bool-cases (is_server rt.inst)) [
          | inl server ↦
              rw server (both-server p.0.server_running p.0.client_running (running_in rts))
          | inr client ↦
              rw client (both-client p.0.server_running p.0.client_running (running_in rts))
        ])
      ]

  -- `Snapshot` answers the flags of `Running`, and no tunnel without a state.
  pub snapshot-running :
      (e : Engine)
      → (flags (snapshot answers e) ≡ running e)
        × All (λ t. (t.status == "") ≡ false) (snapshot answers e).tunnels
  unfolding snapshot running
  snapshot-running e = (collect-flags (ordered e.order e.runtimes) _, settle_each _)

-- The record under the name is online.
abbrev pub IsOnline : String → Assoc ProxyStatus → Type 0
IsOnline name stats =
    (st : ProxyStatus) × (lookup name stats ≡ some st) × ((st.status == "online") ≡ true)

prefer-online :
    (st prev : ProxyStatus)
    → (prev.status == "online") ≡ true
    → prefer_proxy st prev ≡ true
    → (st.status == "online") ≡ true
unfolding prefer_proxy
prefer-online st prev h k = ground arith

online-prefer :
    (st prev : ProxyStatus)
    → (st.status == "online") ≡ true
    → prefer_proxy st prev ≡ false
    → (prev.status == "online") ≡ true
unfolding prefer_proxy
online-prefer st prev h k = ground arith

pub keep_better-other :
    (name j : String) (st : ProxyStatus) (stats : Assoc ProxyStatus)
    → (j == name) ≡ false
    → lookup name (keep_better j st stats) ≡ lookup name stats
unfolding keep_better
keep_better-other name j st stats ne = elim (Option-cases (lookup j stats)) [
  | inl e ↦ rw (e, keep_better) (rw (lookup-insert, ne))
  | inr (prev, e) ↦
      rw (e, keep_better)
        (elim (Bool-cases (prefer_proxy st prev)) [
          | inl p ↦ rw p (rw (lookup-insert, ne))
          | inr p ↦ rw p refl
        ])
]

pub keep_better-new :
    (name : String) (st u : ProxyStatus) (stats : Assoc ProxyStatus)
    → lookup name stats ≡ some u
    → lookup name (keep_better name st stats) ≡ some (if prefer_proxy st u then st else u)
unfolding keep_better
keep_better-new name st u stats at =
    rw (at, keep_better)
      (elim (Bool-cases (prefer_proxy st u)) [
        | inl p ↦ rw p (rw (lookup-insert, (eq_iff name name).1 refl))
        | inr p ↦ rw p at
      ])

pub keep_better-absent :
    (name : String) (st : ProxyStatus) (stats : Assoc ProxyStatus)
    → lookup name stats ≡ none
    → lookup name (keep_better name st stats) ≡ some st
unfolding keep_better
keep_better-absent name st stats at =
    rw (at, keep_better) (rw (lookup-insert, (eq_iff name name).1 refl))

-- Either record is online, and so is the one that is kept.
kept-online :
    (st u : ProxyStatus)
    → ((st.status == "online") ≡ true) ⊎ ((u.status == "online") ≡ true)
    → ((if prefer_proxy st u then st else u).status == "online") ≡ true
kept-online st u h = elim (Bool-cases (prefer_proxy st u)) [
  | inl p ↦ rw p (elim h [ inl e ↦ e | inr e ↦ prefer-online st u e p ])
  | inr p ↦ rw p (elim h [ inl e ↦ online-prefer st u e p | inr e ↦ e ])
]

keep_better-stays :
    (name j : String) (st : ProxyStatus) (stats : Assoc ProxyStatus)
    → IsOnline name stats
    → IsOnline name (keep_better j st stats)
keep_better-stays name j st stats (u, at, on) = elim (Bool-cases (j == name)) [
  | inr ne ↦ (u, keep_better-other name j st stats ne ∙ at, on)
  | inl e ↦
      let same = (eq_iff j name).0 e in
      subst (λ i. IsOnline name (keep_better i st stats)) (sym same)
        (_, keep_better-new name st u stats at, kept-online st u (inr on))
]

keep_better-here :
    (name : String) (st : ProxyStatus) (stats : Assoc ProxyStatus)
    → (st.status == "online") ≡ true
    → IsOnline name (keep_better name st stats)
keep_better-here name st stats on = elim (Option-cases (lookup name stats)) [
  | inl e ↦ (st, keep_better-absent name st stats e, on)
  | inr (u, e) ↦ (_, keep_better-new name st u stats e, kept-online st u (inl on))
]

keep_all-stays :
    (name : String) (m stats : Assoc ProxyStatus)
    → IsOnline name stats
    → IsOnline name (keep_all m stats)
unfolding keep_all
keep_all-stays name [] stats h = h
keep_all-stays name ((j, st) ∷ m) stats h =
    keep_all-stays name m (keep_better j st stats) (keep_better-stays name j st stats h)

keep_all_gains :
    (name : String) (m stats : Assoc ProxyStatus)
    → IsOnline name m
    → IsOnline name (keep_all m stats)
unfolding keep_all lookup
keep_all_gains name [] stats (st, at, on) = cc
keep_all_gains name ((j, st) ∷ m) stats (u, at, on) = elim (Bool-cases (j == name)) [
  | inl e ↦
      let same : st ≡ u = some_inj (rw e at at) in
      keep_all-stays name m (keep_better j st stats) (
        subst (λ i. IsOnline i (keep_better j st stats)) ((eq_iff j name).0 e)
          (keep_better-here j st stats (ap (λ s. s.status == "online") same ∙ on)))
  | inr ne ↦ keep_all_gains name m (keep_better j st stats) (u, rw ne at at, on)
]

-- Taking up the figures of one server leaves the record under a name online, or makes it so, if the one
-- before or the server's is online.
pub keep_all-IsOnline :
    (name : String) (m stats : Assoc ProxyStatus)
    → IsOnline name m ⊎ IsOnline name stats
    → IsOnline name (keep_all m stats)
keep_all-IsOnline name m stats (inl h) = keep_all_gains name m stats h
keep_all-IsOnline name m stats (inr h) = keep_all-stays name m stats h
