-- ===== src/Frp/Status/Merge.antt =====
-- What `mergeStats` promises of the tunnels of the panel and of the rows that it adds.
use mathlib.Core.List.{Permᴰ, append-nil}
use mathlib.Core.List.Permᴰ
use ycfrp.Base.{
  String, true, false, some, List, [], ◌∷◌, ◌++◌, map, ◌≡◌, ◌⊎◌, refl, sym, ap, subst, ◌∙◌, ◌==◌,
  if◌then◌else◌, Runes, Assoc, lookup, All, inl, inr, Bool-cases, Option-cases, some_inj, eq_iff, ℤ,
  pos, eqb_ℤ, IsSorted, sort_by, sort_by-IsSorted, sort_by-perm, All-perm, Any,
}
use ycfrp.Frp.Tunnel.{Tunnel, ProxyStatus}
use ycfrp.Frp.Status.{
  apply_conf, fill_in, remote_addr_of, match_all, adopt, adopt_all, merge_stats, lookup_proxy,
  by_id, by_name, DashEntry, is_in, or_domains,
}

or_text :
    (a b : String)
    → (if (if a == "" then b else a) == "" then b else (if a == "" then b else a))
      ≡ (if a == "" then b else a)
or_text a b = elim (Bool-cases (a == "")) [
  | inr e ↦ rw (e, e)
  | inl e ↦ rw e (elim (Bool-cases (b == "")) [ inl f ↦ rw f refl | inr f ↦ rw f refl ])
]

or_number :
    (a b : ℤ)
    → (if eqb_ℤ (if eqb_ℤ a (pos 0) then b else a) (pos 0)
        then b
        else (if eqb_ℤ a (pos 0) then b else a))
      ≡ (if eqb_ℤ a (pos 0) then b else a)
or_number a b = elim (Bool-cases (eqb_ℤ a (pos 0))) [
  | inr e ↦ rw (e, e)
  | inl e ↦ rw e (elim (Bool-cases (eqb_ℤ b (pos 0))) [ inl f ↦ rw f refl | inr f ↦ rw f refl ])
]

or_domains_idem : (a b : List String) → or_domains (or_domains a b) b ≡ or_domains a b
or_domains_idem [] [] = refl
or_domains_idem [] (b ∷ bs) = refl
or_domains_idem (a ∷ more) b = refl

fill_in_idem : (t : Tunnel) (st : ProxyStatus) → fill_in (fill_in t st) st ≡ fill_in t st
unfolding fill_in
fill_in_idem t st = λ i. record (fill_in t st) {
  local_ip = or_text t.local_ip st.conf.local_ip i;
  local_port = or_number t.local_port st.conf.local_port i;
  remote_port = or_number t.remote_port st.conf.remote_port i;
  custom_domains = or_domains_idem t.custom_domains st.conf.custom_domains i;
  subdomain = or_text t.subdomain st.conf.subdomain i;
}

Any-perm {ℓ} : {A : Type ℓ} (P : A → Type 0) {xs ys : List A} → Permᴰ xs ys → Any P xs → Any P ys
Any-perm P Permᴰ.nil h = h
Any-perm P (Permᴰ.cons e p) (inl h) = inl (subst P e h)
Any-perm P (Permᴰ.cons e p) (inr h) = inr (Any-perm P p h)
Any-perm P (Permᴰ.swap e f) (inl h) = inr (inl (subst P e h))
Any-perm P (Permᴰ.swap e f) (inr (inl h)) = inl (subst P f h)
Any-perm P (Permᴰ.swap e f) (inr (inr h)) = inr (inr h)
Any-perm P (Permᴰ.trans p q) h = Any-perm P q (Any-perm P p h)

module _ ⦃r : Runes⦄ where
  addressed : ProxyStatus → Tunnel → Tunnel
  addressed st t = record t { remote_addr = remote_addr_of t st }

  -- `applyConf` leaves the settings of the panel that are there, and doing it again changes nothing.
  apply_conf_idem :
      (t : Tunnel) (st : ProxyStatus)
      → (apply_conf (apply_conf t st) st ≡ apply_conf t st)
        × ((t.local_ip == "") ≡ false → (apply_conf t st).local_ip ≡ t.local_ip)
        × ((t.subdomain == "") ≡ false → (apply_conf t st).subdomain ≡ t.subdomain)
        × (eqb_ℤ t.local_port (pos 0) ≡ false → (apply_conf t st).local_port ≡ t.local_port)
        × (eqb_ℤ t.remote_port (pos 0) ≡ false → (apply_conf t st).remote_port ≡ t.remote_port)
  unfolding apply_conf fill_in addressed
  apply_conf_idem t st = (
    ap (addressed st) (fill_in_idem t st),
    (λ h. rw h refl),
    (λ h. rw h refl),
    (λ h. rw h refl),
    λ h. rw h refl,
  )

  module _ (ids names : Assoc DashEntry) where
    -- `lookupProxy` finds the proxy of that name for the tunnel.
    abbrev pub Finds : String → Tunnel → Type 0
    Finds name t = (e : DashEntry) × (lookup_proxy ids names t ≡ some e) × (e.key ≡ name)

    match_all-ids :
        (ts : List Tunnel) → map (λ t. t.id) (match_all ids names ts).0 ≡ map (λ t. t.id) ts
    unfolding match_all apply_conf fill_in
    match_all-ids [] = refl
    match_all-ids (t ∷ ts) = elim (Option-cases (lookup_proxy ids names t)) [
      | inl e ↦ rw (e, match_all) (ap (◌∷◌ t.id) (match_all-ids ts))
      | inr (d, e) ↦ rw (e, match_all) (ap (◌∷◌ t.id) (match_all-ids ts))
    ]

    match_all-Finds :
        (name : String) (ts : List Tunnel)
        → is_in name (match_all ids names ts).1 ≡ true
        → Any (Finds name) ts
    unfolding match_all is_in
    match_all-Finds name [] h = cc
    match_all-Finds name (t ∷ ts) h = elim (Option-cases (lookup_proxy ids names t)) [
      | inl e ↦ inr (match_all-Finds name ts (rw (e, match_all) at h))
      | inr (d, e) ↦ elim (Bool-cases (d.key == name)) [
        | inl here ↦ inl (d, e, (eq_iff d.key name).0 here)
        | inr there ↦ inr (match_all-Finds name ts (rw (e, match_all, there) at h))
      ]
    ]

  -- The row of the proxy is in the list.
  abbrev pub HasRow : String → ProxyStatus → List Tunnel → Type 0
  HasRow name st = Any (λ t. t ≡ adopt name st)

  adopt_all-HasRow :
      (matched : List String) (name : String) (st : ProxyStatus) (stats : Assoc ProxyStatus)
      → is_in name matched ≡ false
      → lookup name stats ≡ some st
      → HasRow name st (adopt_all matched stats)
  unfolding adopt_all lookup
  adopt_all-HasRow matched name st [] h e = cc
  adopt_all-HasRow matched name st ((j, u) ∷ rest) h e = elim (Bool-cases (j == name)) [
    | inl here ↦
        let same : j ≡ name = (eq_iff j name).0 here in
        let same' : u ≡ st = some_inj (rw here at e) in
        rw (ap (λ i. is_in i matched) same ∙ h) (inl (λ i. adopt (same i) (same' i)))
    | inr there ↦
        let more = adopt_all-HasRow matched name st rest h (rw there at e) in
        elim (Bool-cases (is_in j matched)) [ inl q ↦ rw q more | inr q ↦ rw q (inr more) ]
  ]

  adopt-external : (name : String) (st : ProxyStatus) → (adopt name st).external ≡ true
  unfolding adopt apply_conf fill_in
  adopt-external name st = refl

  adopt_all-external :
      (matched : List String) (stats : Assoc ProxyStatus)
      → All (λ t. t.external ≡ true) (adopt_all matched stats)
  unfolding adopt_all
  adopt_all-external matched [] = tt
  adopt_all-external matched ((j, st) ∷ rest) = elim (Bool-cases (is_in j matched)) [
    | inl e ↦ rw e (adopt_all-external matched rest)
    | inr e ↦ rw e (adopt-external j st, adopt_all-external matched rest)
  ]

  -- `mergeStats` answers the tunnels of the panel under their identifiers and in their order, then the
  -- rows that it adds, all marked as external and sorted by identifier. No proxy is lost: each one
  -- is what `lookupProxy` finds for a tunnel, or has its row.
  pub merge_stats-parts :
      (tunnels : List Tunnel) (stats : Assoc ProxyStatus)
      → (owned : List Tunnel) × (added : List Tunnel) × (merge_stats tunnels stats ≡ owned ++ added)
        × (map (λ t. t.id) owned ≡ map (λ t. t.id) tunnels)
        × All (λ t. t.external ≡ true) added
        × IsSorted (λ t. t.id) added
        × ((name : String) (st : ProxyStatus)
            → lookup name stats ≡ some st
            → Any (Finds (by_id [] stats) (by_name stats) name) tunnels ⊎ HasRow name st added)
  unfolding merge_stats lookup
  merge_stats-parts tunnels [] =
      (tunnels, [], sym (append-nil tunnels), refl, tt, tt, λ name st h. cc)
  merge_stats-parts tunnels (e ∷ es) =
      let stats = e ∷ es in
      let ids = by_id [] stats in
      let names = by_name stats in
      let rows = adopt_all (match_all ids names tunnels).1 stats in
      (
        (match_all ids names tunnels).0,
        sort_by (λ t. t.id) rows,
        refl,
        match_all-ids ids names tunnels,
        All-perm (λ t. t.id) (λ t. t.external ≡ true) (Permᴰ.symm (sort_by-perm (λ t. t.id) rows))
            (adopt_all-external _ stats),
        sort_by-IsSorted (λ t. t.id) rows,
        λ name st h. elim (Bool-cases (is_in name (match_all ids names tunnels).1)) [
          | inl found ↦ inl (match_all-Finds ids names name tunnels found)
          | inr new ↦ inr (
              Any-perm (λ t. t ≡ adopt name st) (Permᴰ.symm (sort_by-perm (λ t. t.id) rows))
                (adopt_all-HasRow _ name st stats new h))
        ],
      )
