-- ===== src/App/Instances/Removal.antt =====
-- What `DeleteInstance` takes with it.
use mathlib.Core.List.{Permᴰ}
use ycfrp.Base.{
  ℕ, suc, String, Bool, true, false, ◌&&◌, ◌||◌, Option, none, some, List, [], ◌∷◌, ◌==◌, ◌≡◌, ◌≢◌,
  refl, ap, ◌∙◌, subst, arith, eq_iff, if◌then◌else◌, inl, inr, Bool-cases, Option-cases, All,
  Assoc, values, keys, lookup, lookup-remove,
}
use ycfrp.Store.Collection.{Entity, Codec, Collection, Outcome, Error, err, not_found, get, delete}
use ycfrp.Store.Collection.Lookup.{flush-items}
use ycfrp.Store.Collection.Invariant.{IsKeyed}
use ycfrp.Store.Collection.Persistence.{list-IsSorted}
use ycfrp.Frp.Instance.{Instance}
use ycfrp.Frp.Tunnel.{Tunnel}
use ycfrp.Log.{Calendar}
use ycfrp.App.{instance_entity, tunnel_entity, App, Reading}
use ycfrp.App.Instances.{remove_tunnels, all_tunnels, removed, delete_instance}

-- Some tunnel of the list has this identifier and belongs to the instance.
unfoldable hits : String → String → List Tunnel → Bool
hits id k [] = false
hits id k (t ∷ l) = (t.id == k && t.instance_id == id) || hits id k l

or_swap : (a b c : Bool) → (a || (b || c)) ≡ (b || (a || c))
or_swap true true c = refl
or_swap true false c = refl
or_swap false true c = refl
or_swap false false c = refl

hits-perm : (id k : String) {l m : List Tunnel} → Permᴰ l m → hits id k l ≡ hits id k m
unfolding hits
hits-perm id k Permᴰ.nil = refl
hits-perm id k (Permᴰ.cons e p) = rw (e, hits-perm id k p) refl
hits-perm id k (Permᴰ.swap {a} {b} {a'} {b'} {l} e f) =
    rw (← e, ← f)
      (or_swap (a.id == k && a.instance_id == id) (b.id == k && b.instance_id == id) (hits id k l))
hits-perm id k (Permᴰ.trans p q) = hits-perm id k p ∙ hits-perm id k q

abbrev is_of : String → Option Tunnel → Bool
is_of id none = false
is_of id (some t) = t.instance_id == id

hits-absent :
    (id k : String) (m : Assoc Tunnel)
    → All (λ e. e.1.id ≡ e.0) m
    → All (λ j. k ≢ j) (keys m)
    → hits id k (values m) ≡ false
unfolding hits
hits-absent id k [] h n = refl
hits-absent id k ((j, t) ∷ m) (e, h) (n, ns) =
    rw (hits-absent id k m h ns) (ground (arith, eq_iff t.id k))

hits-lookup :
    (id k : String) (m : Assoc Tunnel)
    → IsKeyed (λ t. t.id) m
    → hits id k (values m) ≡ is_of id (lookup k m)
unfolding hits lookup
hits-lookup id k [] h = refl
hits-lookup id k ((j, t) ∷ m) ((n, h), (e, a)) = elim (Bool-cases (j == k)) [
  | inl same ↦
      let jk = (eq_iff j k).0 same in
      rw (hits-absent id k m a (subst (λ s. All (λ i. s ≢ i) (keys m)) jk n), same)
        (ground (arith, eq_iff t.id k))
  | inr other ↦ rw (other, hits-lookup id k m (h, a)) (ground (arith, eq_iff t.id k, eq_iff j k))
]

and_or_false : (a b : Bool) → (a && false) || b ≡ b
and_or_false true b = refl
and_or_false false b = refl

guards :
    (a b : Bool) (o : Option Tunnel)
    → (if b then none else if a then none else o) ≡ (if (a && true) || b then none else o)
guards true true o = refl
guards true false o = refl
guards false true o = refl
guards false false o = refl

deleted-lookup :
    {T : Type 0} (entity : Entity T) (codec : Codec T) (id k : String) (o : Outcome)
    (c : Collection T)
    → (delete entity codec id o c).0 ≡ none
    → lookup k (delete entity codec id o c).1.items ≡ (if id == k then none else lookup k c.items)
unfolding delete
deleted-lookup entity codec id k o c h = elim (Option-cases (lookup id c.items)) [
  | inl e ↦ cc (rw (e, delete) at h)
  | inr (v, e) ↦ rw (e, delete, flush-items entity codec o _, lookup-remove) refl
]

-- the tunnels that are left
abbrev pub left : String → Option Tunnel → Option Tunnel
left id none = none
left id (some t) = if t.instance_id == id then none else some t

left-is_of : (id : String) (o : Option Tunnel) → (if is_of id o then none else o) ≡ left id o
left-is_of id none = refl
left-is_of id (some t) = refl

module _ (instances : Codec Instance) (tunnels : Codec Tunnel) (cal : Calendar) where
  remove_tunnels-lookup :
      (id k : String) (ends : String → Outcome) (l : List Tunnel) (n : ℕ) (c : Collection Tunnel)
      → (remove_tunnels instances tunnels cal id ends l n c).0 ≡ none
      → lookup k (remove_tunnels instances tunnels cal id ends l n c).2.items
        ≡ (if hits id k l then none else lookup k c.items)
  unfolding remove_tunnels hits
  remove_tunnels-lookup id k ends [] n c h = refl
  remove_tunnels-lookup id k ends (t ∷ l) n c h = elim (Bool-cases (t.instance_id == id)) [
    | inr other ↦
        rw (other, remove_tunnels, hits, and_or_false)
          (remove_tunnels-lookup id k ends l n c (rw (other, remove_tunnels) at h))
    | inl own ↦ elim (Option-cases (delete tunnel_entity tunnels t.id (ends t.id) c).0) [
      | inr (x, e) ↦ cc (rw (own, e, remove_tunnels) at h)
      | inl e ↦
          let c' = (delete tunnel_entity tunnels t.id (ends t.id) c).1 in
          let later =
            remove_tunnels-lookup id k ends l (suc n) c' (rw (own, e, remove_tunnels) at h) in
          rw (own, e, remove_tunnels, hits)
            (later
              ∙ ap (λ o. if hits id k l then none else o)
                  (deleted-lookup tunnel_entity tunnels t.id k (ends t.id) c e)
              ∙ guards (t.id == k) (hits id k l) (lookup k c.items))
    ]
  ]

  removed-left :
      (m : Reading) (i : Instance) (n : ℕ) (e : Option Error) (a : App)
      → (removed instances tunnels cal m i n e a).1 ≡ none
      → (e ≡ none)
        × ((removed instances tunnels cal m i n e a).2.instances ≡ a.instances)
        × ((removed instances tunnels cal m i n e a).2.tunnels ≡ a.tunnels)
  removed-left m i n none a h = (refl, refl, refl)
  removed-left m i n (some x) a h = cc

  -- Where `DeleteInstance` reports no error, the instance is gone, and the tunnels are those that there
  -- were without the ones that belonged to it.
  pub delete_instance-left :
      (m : Reading) (ends : String → Outcome) (id : String) (a : App)
      → IsKeyed (λ t. t.id) a.tunnels.items
      → (delete_instance instances tunnels cal m ends id a).1 ≡ none
      → (get instance_entity instances
            (delete_instance instances tunnels cal m ends id a).2.instances
            id
          ≡ err not_found)
        × ((k : String)
            → lookup k (delete_instance instances tunnels cal m ends id a).2.tunnels.items
              ≡ left id (lookup k a.tunnels.items))
  unfolding delete_instance get
  delete_instance-left m ends id a keyed h = elim (Option-cases (lookup id a.instances.items)) [
    | inl e ↦ cc (rw (e, delete_instance, get) at h)
    | inr (i, e) ↦
        let gone =
          remove_tunnels instances tunnels cal id ends (all_tunnels instances tunnels cal a) 0
            a.tunnels in
        let end = delete instance_entity instances id m.outcome a.instances in
        elim (Option-cases gone.0) [
          | inr (x, k) ↦ cc (rw (e, k, delete_instance, get) at h)
          | inl k ↦
              let (fine, is, ts) =
                removed-left m i gone.1 end.0 (record a { tunnels = gone.2; instances = end.1 })
                  (rw (e, k, delete_instance, get) at h) in
              rw (e, k, delete_instance, get, is, ts)
                (
                  rw
                      (
                        deleted-lookup instance_entity instances id id m.outcome a.instances fine,
                        (eq_iff id id).1 refl,
                      )
                      refl,
                  λ q.
                      remove_tunnels-lookup id q ends (all_tunnels instances tunnels cal a) 0
                        a.tunnels k
                      ∙ ap (λ b. if b then none else lookup q a.tunnels.items)
                          (hits-perm id q (list-IsSorted tunnel_entity tunnels a.tunnels).1
                            ∙ hits-lookup id q a.tunnels.items keyed)
                      ∙ left-is_of id (lookup q a.tunnels.items),
                )
        ]
  ]
