-- ===== src/Frp/Build/Settings.antt =====
-- What the settings that reach the kernel promise.
use Prim.Native.String.{◌++◌}
use text.Mathlib.TextLemmas.{nil-append, cons-append}
use ycfrp.Base.{
  subst, String, true, false, ◌≡◌, ◌⊎◌, inl, inr, refl, sym, pos, is_pos, ◌==◌, Bool-cases, eq_iff,
  List, [], ◌∷◌, All, trim_space, trim_left, trim_right, keep_unless_space, is_space, Char, code,
}
use ycfrp.Frp.Instance.{Instance}
use ycfrp.Frp.Kernel.{Kernel}
use ycfrp.Frp.Build.{
  server_input, server_config, add_field, trim_parts, fields_from, split_list, is_separator,
}

module _ (k : Kernel) where
  empty_or-ne : (v d : String) → (d == "") ≡ false → (k.empty_or v d == "") ≡ false
  empty_or-ne v d h = elim (Bool-cases (v == "")) [
    | inr ne ↦ rw (k.empty_or_some v d ne) ne
    | inl e ↦ rw ((eq_iff v "").0 e, k.empty_or-nil d) h
  ]

  -- The dashboard of the kernel is off, or listens on the loopback address at the port of the
  -- settings behind a user and a password that are not empty.
  pub dashboard_guarded :
      (i : Instance)
      → let cfg = server_config k (server_input i) in
        ((cfg.web_addr ≡ "") × (cfg.web_port ≡ pos 0))
        ⊎ ((cfg.web_addr ≡ "127.0.0.1")
            × (is_pos cfg.web_port ≡ true)
            × (cfg.web_port ≡ i.server.dashboard_port)
            × ((cfg.web_user == "") ≡ false)
            × ((cfg.web_password == "") ≡ false))
  unfolding server_config server_input
  dashboard_guarded i = elim (Bool-cases (is_pos i.server.dashboard_port)) [
    | inr off ↦ rw off (inl (refl, refl))
    | inl on ↦ rw on (
        inr (
          k.empty_or_some "127.0.0.1" "127.0.0.1" refl,
          on,
          refl,
          empty_or-ne i.server.dashboard_user "admin" refl,
          empty_or-ne i.server.dashboard_pwd "admin" refl,
        ))
  ]

-- No character of the text separates fields.
abbrev IsWhole : String → Type 0
IsWhole String.[] = Unit
IsWhole (String.◌∷◌ c s) = (is_separator (code c) ≡ false) × IsWhole s

-- A part that `splitList` may answer.
abbrev pub IsPart : String → Type 0
IsPart s = ((s == "") ≡ false) × IsWhole s

trim_left-IsWhole : (s : String) → IsWhole s → IsWhole (trim_left s)
unfolding trim_left
trim_left-IsWhole String.[] h = tt
trim_left-IsWhole (String.◌∷◌ c s) (p, h) = elim (Bool-cases (is_space (code c))) [
  | inl e ↦ rw e (trim_left-IsWhole s h)
  | inr e ↦ rw e (p, h)
]

keep-IsWhole :
    (c : Char) (s : String)
    → is_separator (code c) ≡ false
    → IsWhole s
    → IsWhole (keep_unless_space c s)
keep-IsWhole c String.[] p h = elim (Bool-cases (is_space (code c))) [
  | inl e ↦ rw e tt
  | inr e ↦ rw e (p, tt)
]
keep-IsWhole c (String.◌∷◌ d s) p h = (p, h)

trim_right-IsWhole : (s : String) → IsWhole s → IsWhole (trim_right s)
unfolding trim_right
trim_right-IsWhole String.[] h = tt
trim_right-IsWhole (String.◌∷◌ c s) (p, h) =
    keep-IsWhole c (trim_right s) p (trim_right-IsWhole s h)

trim_space-IsWhole : (s : String) → IsWhole s → IsWhole (trim_space s)
unfolding trim_space
trim_space-IsWhole s h = trim_right-IsWhole (trim_left s) (trim_left-IsWhole s h)

append-IsWhole :
    (s : String) (c : Char)
    → is_separator (code c) ≡ false
    → IsWhole s
    → IsWhole (s ++ String.◌∷◌ c String.[])
append-IsWhole String.[] c p h = subst IsWhole (sym (nil-append (String.◌∷◌ c String.[]))) (p, tt)
append-IsWhole (String.◌∷◌ d s) c p (q, h) =
    subst IsWhole (sym (cons-append d s (String.◌∷◌ c String.[]))) (q, append-IsWhole s c p h)

add_field-All :
    (P : String → Type 0) (field : String) (rest : List String)
    → ((field == "") ≡ false → P field)
    → All P rest
    → All P (add_field field rest)
add_field-All P field rest f h = elim (Bool-cases (field == "")) [
  | inl e ↦ rw e h
  | inr e ↦ rw e (f e, h)
]

fields_from-IsWhole : (field s : String) → IsWhole field → All IsWhole (fields_from field s)
unfolding fields_from
fields_from-IsWhole field String.[] h = add_field-All IsWhole field [] (λ _. h) tt
fields_from-IsWhole field (String.◌∷◌ c s) h = elim (Bool-cases (is_separator (code c))) [
  | inl e ↦
      rw e (add_field-All IsWhole field (fields_from "" s) (λ _. h) (fields_from-IsWhole "" s tt))
  | inr e ↦
      rw e (fields_from-IsWhole (field ++ String.◌∷◌ c String.[]) s (append-IsWhole field c e h))
]

trim_parts-IsPart : (parts : List String) → All IsWhole parts → All IsPart (trim_parts parts)
unfolding trim_parts
trim_parts-IsPart [] h = tt
trim_parts-IsPart (p ∷ ps) (w, h) =
    add_field-All IsPart (trim_space p) (trim_parts ps) (λ ne. (ne, trim_space-IsWhole p w))
      (trim_parts-IsPart ps h)

-- Each user that `splitList` answers is not empty and holds no comma, blank or semicolon.
pub split_list-IsPart : (s : String) → All IsPart (split_list s)
unfolding split_list
split_list-IsPart s = elim (Bool-cases (trim_space s == "")) [
  | inl e ↦ rw e tt
  | inr e ↦ rw e (trim_parts-IsPart (fields_from "" s) (fields_from-IsWhole "" s tt))
]
