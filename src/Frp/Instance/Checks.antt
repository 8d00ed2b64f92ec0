-- ===== src/Frp/Instance/Checks.antt =====
-- What the checks on an instance decide.
use ycfrp.Base.{
  not, ◌&&◌, ◌||◌, zero, suc, ◌≤◌, true, false, none, ◌≡◌, ◌≢◌, ◌⊎◌, ◌↔◌, refl, sym, ◌∙◌, arith, ℤ,
  pos, negsuc, ◌==◌, eq_iff, Bool-cases, inl, inr, trim_space, is_pos, exceeds, eqb_ℤ, is_neg,
}
use ycfrp.Config.{FrpsConfig, FrpcConfig, FrpsConfig-discrete, FrpcConfig-discrete}
use ycfrp.Frp.Instance.{
  Instance, enabled, kind_server, kind_client, deep_equal, same_config, validate_server,
  validate_client, validate,
}

deep_equal_yes {ℓ} : {P : Type ℓ} (d : Dec P) → P → deep_equal d ≡ true
deep_equal_yes (yes _) p = refl
deep_equal_yes (no n) p = absurd (n p)

deep_equal_sound {ℓ} : {P : Type ℓ} (d : Dec P) → deep_equal d ≡ true → P
deep_equal_sound (yes p) h = p
deep_equal_sound (no n) h = absurd (false-ne-true h)
  where
    false-ne-true : false ≡ true → ⊥
    false-ne-true e = cc

-- `sameInstanceConfig` holds exactly where the kind, the switch and both sides of the settings
-- agree; names, notes and what is shown of the run do not count.
pub same_config_iff :
    (a b : Instance)
    → (same_config a b ≡ true) ↔ (
        (a.kind ≡ b.kind) × (enabled a ≡ enabled b) × (a.server ≡ b.server) × (a.client ≡ b.client))
unfolding same_config
same_config_iff a b = (
  λ h. (
    ground (arith, eq_iff a.kind b.kind),
    ground arith,
    deep_equal_sound (FrpsConfig-discrete a.server b.server) (ground arith),
    deep_equal_sound (FrpcConfig-discrete a.client b.client) (ground arith),
  ),
  λ h. ground (
    arith,
    eq_iff a.kind b.kind,
    deep_equal_yes (FrpsConfig-discrete a.server b.server) h.2,
    deep_equal_yes (FrpcConfig-discrete a.client b.client) h.3,
  ),
)

pub same_config_refl : (a : Instance) → same_config a a ≡ true
same_config_refl a = (same_config_iff a a).1 (refl, refl, refl, refl)

-- A port that can be bound.
abbrev pub IsPort : ℤ → Type 0
IsPort (pos n) = (1 ≤ n) × (n ≤ 65535)
IsPort (negsuc n) = ⊥

-- A port that is open, and not the one given, or closed.
abbrev pub IsFreeOf : ℤ → ℤ → Type 0
IsFreeOf p q = is_pos p ≡ true → p ≢ q

eqb_ℤ_iff : (p q : ℤ) → (eqb_ℤ p q ≡ true) ↔ (p ≡ q)
eqb_ℤ_iff (pos m) (pos n) = (λ h. ground arith, λ h. ground arith)
eqb_ℤ_iff (pos m) (negsuc n) = (λ h. cc, λ h. cc)
eqb_ℤ_iff (negsuc m) (pos n) = (λ h. cc, λ h. cc)
eqb_ℤ_iff (negsuc m) (negsuc n) = (λ h. ground arith, λ h. ground arith)

unbindable_iff : (p : ℤ) → ((not (is_pos p) || exceeds p 65535) ≡ false) ↔ IsPort p
unbindable_iff (pos n) = (λ h. ground arith, λ h. ground arith)
unbindable_iff (negsuc n) = (λ h. cc, λ h. absurd h)

bad_dashboard_iff : (p : ℤ) → ((is_neg p || exceeds p 65535) ≡ false) ↔ ((p ≡ pos 0) ⊎ IsPort p)
bad_dashboard_iff (pos zero) = (λ h. inl refl, λ h. refl)
bad_dashboard_iff (pos (suc n)) = (λ h. inr (ground arith), λ h. ground arith)
bad_dashboard_iff (negsuc n) = (λ h. cc, λ h. ground arith)

clash_iff : (p q : ℤ) → ((is_pos p && eqb_ℤ p q) ≡ false) ↔ IsFreeOf p q
clash_iff p q = (
  λ h open_ same. cc (rw (open_, (eqb_ℤ_iff p q).1 same) at h),
  λ h. elim (Bool-cases (is_pos p)) [
    | inr shut ↦ rw shut
    | inl open_ ↦ elim (Bool-cases (eqb_ℤ p q)) [
      | inr other ↦ rw (open_, other)
      | inl same ↦ absurd (h open_ ((eqb_ℤ_iff p q).0 same))
    ]
  ],
)

validate_server_iff :
    (s : FrpsConfig)
    → (validate_server s ≡ none) ↔ (
        IsPort s.bind_port
        × ((s.dashboard_port ≡ pos 0) ⊎ IsPort s.dashboard_port)
        × IsFreeOf s.dashboard_port s.bind_port
        × IsFreeOf s.vhost_http_port s.bind_port
        × IsFreeOf s.vhost_https_port s.bind_port)
unfolding validate_server
validate_server_iff s = (
  λ h. (
    (unbindable_iff s.bind_port).0 (ground arith),
    (bad_dashboard_iff s.dashboard_port).0 (ground arith),
    (clash_iff s.dashboard_port s.bind_port).0 (ground arith),
    (clash_iff s.vhost_http_port s.bind_port).0 (ground arith),
    (clash_iff s.vhost_https_port s.bind_port).0 (ground arith),
  ),
  λ h. rw (
    (unbindable_iff s.bind_port).1 h.0,
    (bad_dashboard_iff s.dashboard_port).1 h.1,
    (clash_iff s.dashboard_port s.bind_port).1 h.2,
    (clash_iff s.vhost_http_port s.bind_port).1 h.3,
    (clash_iff s.vhost_https_port s.bind_port).1 h.4,
  ),
)

validate_client_iff :
    (c : FrpcConfig)
    → (validate_client c ≡ none)
      ↔ (((trim_space c.server_addr == "") ≡ false) × IsPort c.server_port)
unfolding validate_client
validate_client_iff c = (
  λ h. (ground arith, (unbindable_iff c.server_port).0 (ground arith)),
  λ h. rw (h.0, (unbindable_iff c.server_port).1 h.1),
)

validate_of_client :
    (i : Instance)
    → (trim_space i.name == "") ≡ false
    → i.kind ≡ kind_client
    → validate i ≡ validate_client i.client
unfolding validate
validate_of_client i named c = rw (named, c)

-- The settings with which `Validate` lets an instance pass, by kind.
abbrev pub IsAcceptable : Instance → Type 0
IsAcceptable i =
    (i.kind ≡ kind_server
      → IsPort i.server.bind_port
        × ((i.server.dashboard_port ≡ pos 0) ⊎ IsPort i.server.dashboard_port)
        × IsFreeOf i.server.dashboard_port i.server.bind_port
        × IsFreeOf i.server.vhost_http_port i.server.bind_port
        × IsFreeOf i.server.vhost_https_port i.server.bind_port)
    × (i.kind ≡ kind_client
        → ((trim_space i.client.server_addr == "") ≡ false) × IsPort i.client.server_port)

-- `Validate` accepts exactly the instances with a name that is not blank, of one of the two kinds,
-- and with the settings of that kind in order: a server has a bind port from 1 to 65535, a
-- dashboard port that is 0 or in that range, and no open dashboard or virtual host port equal to
-- the bind port; a client has a server address that is not blank and a server port in the range.
pub validate_iff :
    (i : Instance)
    → (validate i ≡ none) ↔ (
        ((trim_space i.name == "") ≡ false)
        × ((i.kind ≡ kind_server) ⊎ (i.kind ≡ kind_client))
        × IsAcceptable i)
unfolding validate
validate_iff i = (
  λ h. (
    ground arith,
    ground (arith, eq_iff i.kind kind_server, eq_iff i.kind kind_client),
    (
      λ server. (validate_server_iff i.server).0 (ground (arith, eq_iff i.kind kind_server)),
      λ client.
          (validate_client_iff i.client).0 (sym (validate_of_client i (ground arith) client) ∙ h),
    ),
  ),
  λ (named, kind, (server, client)). elim kind [
    | inl s ↦
        rw (named, (eq_iff i.kind kind_server).1 s) ((validate_server_iff i.server).1 (server s))
    | inr c ↦ rw (named, c) ((validate_client_iff i.client).1 (client c))
  ],
)
