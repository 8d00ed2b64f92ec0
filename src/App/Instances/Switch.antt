-- ===== src/App/Instances/Switch.antt =====
-- What the small steps of the operations on instances keep: a new identifier, and the switch.
use Prim.Native.String.{◌++◌, char_at}
use text.Mathlib.TextLemmas.{cons-append, cons≢nil}
use mathlib.Core.Bool.{true≢false}
use ycfrp.Base.{
  ℕ, String, Bool, true, false, Option, none, some, List, ◌==◌, ◌≡◌, ◌≢◌, refl, sym, ◌∙◌, arith,
  eq_iff, Runes, trim_space, trim_space_idem, inl, inr, Bool-cases, Assoc, lookup,
}
use ycfrp.Frp.Instance.{Instance, is_server, enabled, set_enabled, normalize, validate, ports}
use ycfrp.App.{new_id}
use ycfrp.App.Instances.{Folds, listening, identified}
use ycfrp.App.Instances.Apart.{AreApart}
use ycfrp.App.Instances.Tidy.{IsProper}

prefixed : (s : String) → "inst" ++ s ≢ ""
prefixed s e = cons≢nil (sym (cons-append (char_at "inst" 0) "nst" s) ∙ e)

-- A new identifier is not empty.
pub new_id-some : (bytes : Option (List ℕ)) (nano : ℕ) → new_id bytes nano "inst" ≢ ""
unfolding new_id
new_id-some none nano e = prefixed _ e
new_id-some (some bytes) nano e = prefixed _ e

pub identified-same :
    (P : Instance → Type 0) (fresh : String) (i : Instance)
    → P i
    → ((i.id ≡ "") → P (record i { id = fresh }))
    → P (identified fresh i)
unfolding identified
identified-same P fresh i p q = elim (Bool-cases (i.id == "")) [
  | inl e ↦ rw e (q ((eq_iff i.id "").0 e))
  | inr e ↦ rw e p
]

pub listening-name : (i : Instance) → (listening i).name ≡ i.name
unfolding listening
listening-name i = ground arith

pub normalize-name : ⦃r : Runes⦄ (i : Instance) → trim_space (normalize i).name ≡ (normalize i).name
unfolding normalize
normalize-name i = trim_space_idem i.name

pub renamed-IsProper :
    (fresh : String) (i : Instance) → IsProper i → IsProper (record i { id = fresh })
unfolding enabled validate
renamed-IsProper fresh i h = h

pub renamed-AreApart :
    ⦃f : Folds⦄ (fresh : String) (a i : Instance)
    → AreApart a i
    → AreApart a (record i { id = fresh })
unfolding enabled ports
renamed-AreApart fresh a i h = h

pub identified-some : (fresh : String) (i : Instance) → fresh ≢ "" → (identified fresh i).id ≢ ""
unfolding identified
identified-some fresh i ne = elim (Bool-cases (i.id == "")) [
  | inl e ↦ rw e ne
  | inr e ↦ rw e (λ h. true≢false (sym ((eq_iff i.id "").1 h) ∙ e))
]

set_enabled-case :
    (P : Instance → Type 0) (v : Bool) (i : Instance)
    → (is_server i ≡ true → P (record i { server = record i.server { enable = v } }))
    → (is_server i ≡ false → P (record i { client = record i.client { enable = v } }))
    → P (set_enabled v i)
unfolding set_enabled
set_enabled-case P v i p q = elim (Bool-cases (is_server i)) [
  | inl e ↦ rw e (p e)
  | inr e ↦ rw e (q e)
]

pub set_enabled-same :
    (v : Bool) (i : Instance)
    → ((set_enabled v i).id ≡ i.id)
      × ((set_enabled v i).name ≡ i.name)
      × (enabled (set_enabled v i) ≡ v)
unfolding enabled
set_enabled-same v i =
    set_enabled-case (λ j. (j.id ≡ i.id) × (j.name ≡ i.name) × (enabled j ≡ v)) v i
      (λ e. (refl, refl, rw e refl)) (λ e. (refl, refl, rw e refl))

-- An instance that is switched off clashes with no more than before.
pub off-AreApart : ⦃f : Folds⦄ (a i : Instance) → AreApart a i → AreApart a (set_enabled false i)
unfolding enabled
off-AreApart a i (n, p) =
    set_enabled-case (AreApart a) false i
      (λ e. (n, λ sa si ea ei. absurd (true≢false (sym (rw e at ei)))))
      (λ e. (n, λ sa si ea ei. absurd (true≢false (sym si ∙ e))))

pub absent :
    (m : Assoc Instance) (a : Instance) (id : String)
    → lookup "" m ≡ none
    → id ≡ ""
    → lookup id m ≡ some a
    → ⊥
absent m a id blank e found = cc
