-- ===== src/Frp/Convert/RoundTrip.antt =====
-- A tunnel made a proxy by `TunnelToProxy` and read back by `proxyToTunnel`.
use ycfrp.Base.{
  String, ◌≡◌, subst, inl, inr, refl, sym, ap, ◌∙◌, ◌==◌, if◌then◌else◌, Bool-cases, eq_iff, Runes,
  to_lower, trim_space, trim_left, trim_right, lookup, insert,
}
use ycfrp.Frp.Tunnel.{Tunnel}
use ycfrp.Frp.Kernel.{
  Kernel, Proxy, tcp, udp, http, https, tcpmux, stcp, xtcp, sudp, ProxyBase, base_of, Result, ok,
  err, ◌>>=◌,
}
use ycfrp.Frp.Convert.{
  bandwidth, metadata, proxy_base, proxy_of_type, tunnel_to_proxy, tunnel_of_base, proxy_to_tunnel,
  text_at,
}

ok_inj {ℓ} : {A : Type ℓ} {a b : A} → ok a ≡ ok b → a ≡ b
ok_inj h = cc

-- What every proxy keeps of its base.
abbrev Agrees : Tunnel → ProxyBase → Type 0
Agrees t b =
    (t.name ≡ b.name)
    × (t.local_ip ≡ b.local_ip)
    × (t.local_port ≡ b.local_port)
    × (t.use_encryption ≡ b.use_encryption)
    × (t.use_compression ≡ b.use_compression)
    × (t.proxy_protocol_version ≡ b.proxy_protocol_version)
    × (t.health_check_type ≡ b.check_type)
    × (t.note ≡ text_at "note" b.metadatas)

read_Agrees : (p : Proxy) → Agrees (proxy_to_tunnel p) (base_of p)
unfolding proxy_to_tunnel tunnel_of_base
read_Agrees (tcp b _) = (refl, refl, refl, refl, refl, refl, refl, refl)
read_Agrees (udp b _) = (refl, refl, refl, refl, refl, refl, refl, refl)
read_Agrees (http b _ _ _) = (refl, refl, refl, refl, refl, refl, refl, refl)
read_Agrees (https b _ _) = (refl, refl, refl, refl, refl, refl, refl, refl)
read_Agrees (tcpmux b _ _ _) = (refl, refl, refl, refl, refl, refl, refl, refl)
read_Agrees (stcp b _ _) = (refl, refl, refl, refl, refl, refl, refl, refl)
read_Agrees (xtcp b _ _) = (refl, refl, refl, refl, refl, refl, refl, refl)
read_Agrees (sudp b _ _) = (refl, refl, refl, refl, refl, refl, refl, refl)

-- A proxy that was made is on its base, and reads back as its type.
abbrev Made : String → ProxyBase → Result Proxy → Type 0
Made type b (err e) = Unit
Made type b (ok p) = (base_of p ≡ b) × ((proxy_to_tunnel p).type ≡ type)

if-Made :
    (type name : String) (b : ProxyBase) (here there : Result Proxy)
    → Made name b here
    → Made type b there
    → Made type b (if type == name then here else there)
if-Made type name b here there h k = elim (Bool-cases (type == name)) [
  | inr e ↦ rw e k
  | inl e ↦ rw e (subst (λ s. Made s b here) (sym ((eq_iff type name).0 e)) h)
]

proxy_of_type-Made :
    (type : String) (b : ProxyBase) (t : Tunnel) → Made type b (proxy_of_type type b t)
unfolding proxy_of_type proxy_to_tunnel
proxy_of_type-Made type b t =
    if-Made type "tcp" b _ _ (refl, refl)
      (if-Made type "udp" b _ _ (refl, refl)
        (if-Made type "http" b _ _ (refl, refl)
          (if-Made type "https" b _ _ (refl, refl)
            (if-Made type "tcpmux" b _ _ (refl, refl)
              (if-Made type "stcp" b _ _ (refl, refl)
                (if-Made type "xtcp" b _ _ (refl, refl)
                  (if-Made type "sudp" b _ _ (refl, refl) tt)))))))

note-metadata : (t : Tunnel) → text_at "note" (metadata t) ≡ t.note
unfolding metadata lookup insert
note-metadata t = elim (Bool-cases (t.note == "")) [
  | inl e ↦ rw e (sym ((eq_iff t.note "").0 e))
  | inr e ↦ rw e refl
]

module _ ⦃r : Runes⦄ (k : Kernel) (t : Tunnel) where
  -- the base of the proxy that the tunnel becomes
  IsMade : Proxy → Type 0
  IsMade p =
      (limit : String) × (base_of p ≡ proxy_base k t limit)
      × ((proxy_to_tunnel p).type ≡ to_lower t.type)

  tunnel_to_proxy-IsMade : {p : Proxy} → tunnel_to_proxy k t ≡ ok p → IsMade p
  unfolding tunnel_to_proxy IsMade
  tunnel_to_proxy-IsMade h = go (bandwidth k t.bandwidth_limit) h
    where
      go :
          (x : Result String) {p : Proxy}
          → x >>= (λ limit. proxy_of_type (to_lower t.type) (proxy_base k t limit) t) ≡ ok p
          → (limit : String) × (base_of p ≡ proxy_base k t limit)
            × ((proxy_to_tunnel p).type ≡ to_lower t.type)
      go (err e) h = cc
      go (ok limit) h =
          let (base, type) =
            subst (Made (to_lower t.type) (proxy_base k t limit)) h
              (proxy_of_type-Made (to_lower t.type) (proxy_base k t limit) t) in
          (limit, base, type)

  -- A tunnel that becomes a proxy reads back with its name, its type in lower case, its local
  -- address with the default filled in, its local port, its transport switches, the kind of its
  -- health check and its note.
  pub read-made :
      (p : Proxy)
      → tunnel_to_proxy k t ≡ ok p
      → let u = proxy_to_tunnel p in
        (u.name ≡ t.name)
        × (u.type ≡ to_lower t.type)
        × (u.local_ip ≡ k.empty_or t.local_ip "127.0.0.1")
        × (u.local_port ≡ t.local_port)
        × (u.use_encryption ≡ t.use_encryption)
        × (u.use_compression ≡ t.use_compression)
        × (u.proxy_protocol_version ≡ t.proxy_protocol_version)
        × (u.health_check_type ≡ t.health_check_type)
        × (u.note ≡ t.note)
  unfolding IsMade proxy_base
  read-made p h =
      let (limit, base, type) = tunnel_to_proxy-IsMade h in
      let (name, ip, port, enc, comp, proto, check, note) =
        subst (Agrees (proxy_to_tunnel p)) base (read_Agrees p) in
      (name, type, ip, port, enc, comp, proto, check, note ∙ note-metadata t)

read-balancer : (p : Proxy) → (proxy_to_tunnel p).load_balance_group ≡ ""
unfolding proxy_to_tunnel tunnel_of_base
read-balancer (tcp b _) = refl
read-balancer (udp b _) = refl
read-balancer (http b _ _ _) = refl
read-balancer (https b _ _) = refl
read-balancer (tcpmux b _ _ _) = refl
read-balancer (stcp b _ _) = refl
read-balancer (xtcp b _ _) = refl
read-balancer (sudp b _ _) = refl

trim_space-nil : trim_space "" ≡ ""
unfolding trim_space trim_left trim_right
trim_space-nil = refl

-- A proxy with a load balancer group, read as a tunnel and made a proxy again, has none: the group is
-- not read into the field that it is written from.
pub balancer_lost :
    ⦃r : Runes⦄ (k : Kernel) (p q : Proxy)
    → tunnel_to_proxy k (proxy_to_tunnel p) ≡ ok q
    → (base_of q).balancer_group ≡ ""
unfolding IsMade proxy_base
balancer_lost k p q h =
    let (limit, base, type) = tunnel_to_proxy-IsMade k (proxy_to_tunnel p) h in
    ap (λ b. b.balancer_group) base ∙ ap trim_space (read-balancer p) ∙ trim_space-nil
