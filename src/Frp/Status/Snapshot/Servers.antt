-- ===== src/Frp/Status/Snapshot/Servers.antt =====
-- What is left of the records that several servers report, in the first loop of `Snapshot`.
use ycfrp.Base.{
  String, true, none, some, List, [], ◌∷◌, ◌≡◌, refl, sym, ap, ◌∙◌, ◌==◌, Assoc, lookup, eq_iff,
  Any, inl, inr, Bool-cases, Option-cases, ◌⊎◌, subst, some_inj, Runes, Option,
}
use ycfrp.Frp.Instance.{is_server}
use ycfrp.Frp.Tunnel.{ProxyStatus}
use ycfrp.Frp.Engine.{Runtime}
use ycfrp.Frp.Status.{prefer_proxy}
use ycfrp.Frp.Status.Snapshot.{
  Answers, StatusResponse, keep_better, keep_all, heard, collect_one, collect,
}
use ycfrp.Frp.Status.Snapshot.Online.{
  IsOnline, keep_better-other, keep_better-new, keep_better-absent, keep_all-IsOnline,
}

-- The record with its name.
abbrev IsThe : String → ProxyStatus → String × ProxyStatus → Type 0
IsThe name st e = e ≡ (name, st)

-- The record stands under the name in what a server reports.
abbrev pub Lists : String → ProxyStatus → Assoc ProxyStatus → Type 0
Lists name st m = Any (IsThe name st) m

keep_better-from :
    (name j : String) (st u : ProxyStatus) (stats : Assoc ProxyStatus)
    → lookup name (keep_better j u stats) ≡ some st
    → IsThe name st (j, u) ⊎ (lookup name stats ≡ some st)
keep_better-from name j st u stats at = elim (Bool-cases (j == name)) [
  | inr ne ↦ inr (sym (keep_better-other name j u stats ne) ∙ at)
  | inl e ↦
      let same : j ≡ name = (eq_iff j name).0 e in
      let at' : lookup name (keep_better name u stats) ≡ some st =
        subst (λ i. lookup name (keep_better i u stats) ≡ some st) same at in
      elim (Option-cases (lookup name stats)) [
        | inl n ↦
            let new : u ≡ st = some_inj (sym (keep_better-absent name u stats n) ∙ at') in
            inl (λ i. (same i, new i))
        | inr (v, k) ↦
            let new = some_inj (sym (keep_better-new name u v stats k) ∙ at') in
            elim (Bool-cases (prefer_proxy u v)) [
              | inl p ↦ inl (λ i. (same i, (rw p at new) i))
              | inr p ↦ inr (k ∙ ap some (rw p at new))
            ]
      ]
]

keep_all-from :
    (name : String) (st : ProxyStatus) (m stats : Assoc ProxyStatus)
    → lookup name (keep_all m stats) ≡ some st
    → Lists name st m ⊎ (lookup name stats ≡ some st)
unfolding keep_all
keep_all-from name st [] stats at = inr at
keep_all-from name st ((j, u) ∷ m) stats at =
    elim (keep_all-from name st m (keep_better j u stats) at) [
      | inl later ↦ inl (inr later)
      | inr now ↦ elim (keep_better-from name j st u stats now) [
        | inl here ↦ inl (inl here)
        | inr before ↦ inr before
      ]
    ]

module _ ⦃r : Runes⦄ {Info Client : Type 0} (answers : Answers Info Client) where
  -- A server that is up reports figures with this property.
  abbrev pub Reports : (Assoc ProxyStatus → Type 0) → Runtime → Type 0
  Reports P rt =
      (m : Assoc ProxyStatus) × (rt.up ≡ true)
      × (is_server rt.inst ≡ true)
      × (answers.stats rt ≡ some m)
      × P m

  abbrev SoFar : Type 0
  SoFar = StatusResponse Info Client × Assoc ProxyStatus

  heard-keeps :
      (name : String) (o : Option (Assoc ProxyStatus)) (s : Assoc ProxyStatus)
      → IsOnline name s
      → IsOnline name (heard answers o s)
  heard-keeps name none s h = h
  heard-keeps name (some m) s h = keep_all-IsOnline name m s (inr h)

  heard-from :
      (name : String) (st : ProxyStatus) (o : Option (Assoc ProxyStatus)) (s : Assoc ProxyStatus)
      → lookup name (heard answers o s) ≡ some st
      → ((m : Assoc ProxyStatus) × (o ≡ some m) × Lists name st m) ⊎ (lookup name s ≡ some st)
  heard-from name st none s at = inr at
  heard-from name st (some m) s at = elim (keep_all-from name st m s at) [
    | inl here ↦ inl (m, refl, here)
    | inr before ↦ inr before
  ]

  -- The figures after a round are those before, or a server that is up was heard.
  collect_one-cases :
      (rt : Runtime) (p : SoFar)
      → ((collect_one answers rt p).1 ≡ p.1)
        ⊎ ((rt.up ≡ true)
            × (is_server rt.inst ≡ true)
            × ((collect_one answers rt p).1 ≡ heard answers (answers.stats rt) p.1))
  unfolding collect_one
  collect_one-cases rt p = elim (Bool-cases rt.up) [
    | inr down ↦ inl (rw down refl)
    | inl up ↦ elim (Bool-cases (is_server rt.inst)) [
      | inr client ↦ inl (rw (up, client) refl)
      | inl server ↦ inr (up, server, rw (up, server) refl)
    ]
  ]

  collect_one-keeps :
      (name : String) (rt : Runtime) (p : SoFar)
      → IsOnline name p.1
      → IsOnline name (collect_one answers rt p).1
  collect_one-keeps name rt p h = elim (collect_one-cases rt p) [
    | inl e ↦ subst (IsOnline name) (sym e) h
    | inr (up, server, e) ↦
        subst (IsOnline name) (sym e) (heard-keeps name (answers.stats rt) p.1 h)
  ]

  collect_one-server :
      (rt : Runtime) (p : SoFar)
      → rt.up ≡ true
      → is_server rt.inst ≡ true
      → (collect_one answers rt p).1 ≡ heard answers (answers.stats rt) p.1
  unfolding collect_one
  collect_one-server rt p up server = rw (up, server) refl

  collect_one-gains :
      (name : String) (rt : Runtime) (p : SoFar)
      → Reports (IsOnline name) rt
      → IsOnline name (collect_one answers rt p).1
  collect_one-gains name rt p (m, up, server, e, on) =
      subst (IsOnline name)
        (sym (collect_one-server rt p up server ∙ ap (λ o. heard answers o p.1) e))
        (keep_all-IsOnline name m p.1 (inl on))

  collect_one-from :
      (name : String) (st : ProxyStatus) (rt : Runtime) (p : SoFar)
      → lookup name (collect_one answers rt p).1 ≡ some st
      → Reports (Lists name st) rt ⊎ (lookup name p.1 ≡ some st)
  collect_one-from name st rt p at = elim (collect_one-cases rt p) [
    | inl e ↦ inr (ap (lookup name) (sym e) ∙ at)
    | inr (up, server, e) ↦
        elim (heard-from name st (answers.stats rt) p.1 (ap (lookup name) (sym e) ∙ at)) [
          | inl (m, k, here) ↦ inl (m, up, server, k, here)
          | inr before ↦ inr before
        ]
  ]

  collect-keeps :
      (name : String) (rts : List Runtime) (p : SoFar)
      → IsOnline name p.1
      → IsOnline name (collect answers rts p).1
  unfolding collect
  collect-keeps name [] p h = h
  collect-keeps name (rt ∷ rts) p h =
      collect-keeps name rts (collect_one answers rt p) (collect_one-keeps name rt p h)

  collect-gains :
      (name : String) (rts : List Runtime) (p : SoFar)
      → Any (Reports (IsOnline name)) rts
      → IsOnline name (collect answers rts p).1
  unfolding collect
  collect-gains name [] p h = absurd h
  collect-gains name (rt ∷ rts) p (inl h) =
      collect-keeps name rts (collect_one answers rt p) (collect_one-gains name rt p h)
  collect-gains name (rt ∷ rts) p (inr h) = collect-gains name rts (collect_one answers rt p) h

  collect-from :
      (name : String) (st : ProxyStatus) (rts : List Runtime) (p : SoFar)
      → lookup name (collect answers rts p).1 ≡ some st
      → Any (Reports (Lists name st)) rts ⊎ (lookup name p.1 ≡ some st)
  unfolding collect
  collect-from name st [] p at = inr at
  collect-from name st (rt ∷ rts) p at =
      elim (collect-from name st rts (collect_one answers rt p) at) [
        | inl later ↦ inl (inr later)
        | inr now ↦ elim (collect_one-from name st rt p now) [
          | inl here ↦ inl (inl here)
          | inr before ↦ inr before
        ]
      ]

  none_kept :
      (name : String) (st : ProxyStatus) (rts : List Runtime)
      → Any (Reports (Lists name st)) rts ⊎ (none ≡ some st)
      → Any (Reports (Lists name st)) rts
  none_kept name st rts (inl h) = h
  none_kept name st rts (inr e) = cc

  -- After the loop of `Snapshot` over any runtimes in any order, the record under a name is online if one of the
  -- servers that are up reports an online one under it, and every record that is kept is one that such a server
  -- reports under that name.
  pub collect-IsOnline :
      (name : String) (rts : List Runtime) (out : StatusResponse Info Client)
      → (Any (Reports (IsOnline name)) rts → IsOnline name (collect answers rts (out, [])).1)
        × ((st : ProxyStatus)
            → lookup name (collect answers rts (out, [])).1 ≡ some st
            → Any (Reports (Lists name st)) rts)
  unfolding lookup
  collect-IsOnline name rts out = (
    collect-gains name rts (out, []),
    λ st at. none_kept name st rts (collect-from name st rts (out, []) at),
  )
