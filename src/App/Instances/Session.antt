-- ===== src/App/Instances/Session.antt =====
-- The instances stay tidy through any session of the panel.
use mathlib.Core.Bool.{true≢false}
use ycfrp.Base.{
  ℕ, String, Bool, true, false, Option, none, some, List, [], ◌∷◌, ◌≡◌, ◌≢◌, refl, sym, ap, ◌∙◌,
  subst, Runes, trim_space, inl, inr, Option-cases, lookup,
}
use ycfrp.Store.Collection.{Codec, Collection, Outcome, Result, Error, ok, err, list, get, put}
use ycfrp.Frp.Instance.{Instance, set_enabled, normalize, validate}
use ycfrp.Frp.Tunnel.{Tunnel}
use ycfrp.Log.{Calendar}
use ycfrp.App.{instance_entity, App, Reading, new_id}
use ycfrp.App.Instances.{
  Folds, check_conflicts, listening, identified, stored, put_instance, saved_message,
  switched_message, save_instance, toggle_check, toggle_instance, remove_tunnels, removed,
  all_tunnels, delete_instance,
}
use ycfrp.App.Instances.Switch.{
  new_id-some, identified-same, listening-name, normalize-name, renamed-IsProper, renamed-AreApart,
  identified-some, set_enabled-same, off-AreApart, absent,
}
use ycfrp.App.Instances.Apart.{AreApart, id-lookup}
use ycfrp.App.Instances.Tidy.{IsProper, IsTidy, checked, put-IsTidy, delete-IsTidy}

module _ ⦃r : Runes⦄ ⦃f : Folds⦄ (instances : Codec Instance) (tunnels : Codec Tunnel)
    (cal : Calendar) where
  stored-instances :
      (m : Reading) (message : Instance → String) (x : Result Instance) (a : App)
      → (stored instances tunnels cal m message x a).1.instances ≡ a.instances
  stored-instances m message (ok i) a = refl
  stored-instances m message (err e) a = refl

  put_instance-instances :
      (m : Reading) (message : Instance → String) (i : Instance) (a : App)
      → (put_instance instances tunnels cal m message i a).1.instances
        ≡ (put instance_entity instances i m.now m.later m.outcome a.instances).1
  unfolding put_instance
  put_instance-instances m message i a = stored-instances m message _ _

  -- An instance that passed the checks is put under its identifier or a new one.
  stored-IsTidy :
      (m : Reading) (fresh : String) (i : Instance) (c : Collection Instance)
      → IsTidy c.items
      → fresh ≢ ""
      → IsProper i
      → check_conflicts i (list instance_entity instances c) ≡ none
      → IsTidy
          (put instance_entity instances (identified fresh i) m.now m.later m.outcome c).1.items
  stored-IsTidy m fresh i c h ne p free =
      let (keyed, blank, proper, apart) = h in
      put-IsTidy instances (identified fresh i) m.now m.later m.outcome c h
        (identified-some fresh i ne)
        (identified-same IsProper fresh i p (λ _. renamed-IsProper fresh i p))
        (identified-same
          (λ j.
            (id : String) (a : Instance) → id ≢ j.id → lookup id c.items ≡ some a → AreApart a j)
          fresh i (λ id a d e. checked instances i c id a h p.0 free d e)
          (λ none_yet id a d e. renamed-AreApart fresh a i (
            checked instances i c id a h p.0 free
              (λ same. absent c.items a id blank (same ∙ none_yet) e) e)))

  save-IsTidy :
      (m : Reading) (bytes : Option (List ℕ)) (nano : ℕ) (i : Instance) (a : App)
      → IsTidy a.instances.items
      → IsTidy
          (save_instance instances tunnels cal m (new_id bytes nano "inst") i a).1.instances.items
  unfolding save_instance
  save-IsTidy m bytes nano i a h =
      let i' = listening (normalize i) in
      let fresh = new_id bytes nano "inst" in
      let trimmed =
        ap trim_space (listening-name (normalize i))
        ∙ normalize-name i
        ∙ sym (listening-name (normalize i)) in
      elim (Option-cases (validate i')) [
        | inr (message, e) ↦ rw (e, save_instance) h
        | inl valid ↦
            elim (Option-cases (check_conflicts i' (list instance_entity instances a.instances))) [
              | inr (message, e) ↦ rw (valid, e, save_instance) h
              | inl free ↦
                  rw
                    (
                      valid,
                      free,
                      save_instance,
                      put_instance-instances m saved_message (identified fresh i') a,
                    )
                    (stored-IsTidy m fresh i' a.instances h (new_id-some bytes nano)
                      (trimmed, λ _. valid) free)
            ]
      ]

  -- What the checks of `ToggleInstance` say, and what was known of the instance.
  toggled :
      (on : Bool) (id : String) (i : Instance) (c : Collection Instance)
      → IsTidy c.items
      → lookup id c.items ≡ some i
      → toggle_check on (set_enabled on i) (list instance_entity instances c) ≡ none
      → IsProper (set_enabled on i)
        × ((id' : String) (a : Instance)
            → id' ≢ (set_enabled on i).id
            → lookup id' c.items ≡ some a
            → AreApart a (set_enabled on i))
  unfolding toggle_check
  toggled true id i c h found k =
      let (keyed, blank, proper, apart) = h in
      let j = set_enabled true i in
      let (same, name, on) = set_enabled-same true i in
      let trimmed = ap trim_space name ∙ (proper id i found).0 ∙ sym name in
      elim (Option-cases (validate j)) [
        | inr (message, e) ↦ cc (rw (e, toggle_check) at k)
        | inl e ↦
            let free : check_conflicts j (list instance_entity instances c) ≡ none =
              rw (e, toggle_check) at k in
            ((trimmed, λ _. e), λ id' a d e'. checked instances j c id' a h trimmed free d e')
      ]
  toggled false id i c h found k =
      let (keyed, blank, proper, apart) = h in
      let (same, name, off) = set_enabled-same false i in
      let own = same ∙ id-lookup c.items id i keyed.1 found in
      (
        (
          ap trim_space name ∙ (proper id i found).0 ∙ sym name,
          λ e. absurd (true≢false (sym e ∙ off)),
        ),
        λ id' a d e. off-AreApart a i (apart id' id a i (λ s. d (s ∙ sym own)) e found),
      )

  toggle-IsTidy :
      (m : Reading) (id : String) (on : Bool) (a : App)
      → IsTidy a.instances.items
      → IsTidy (toggle_instance instances tunnels cal m id on a).1.instances.items
  unfolding toggle_instance get
  toggle-IsTidy m id on a h = elim (Option-cases (lookup id a.instances.items)) [
    | inl e ↦ rw (e, toggle_instance, get) h
    | inr (i, e) ↦
        elim (Option-cases
          (toggle_check on (set_enabled on i) (list instance_entity instances a.instances))) [
            | inr (message, k) ↦ rw (e, k, toggle_instance, get) h
            | inl k ↦
                rw
                  (
                    e,
                    k,
                    toggle_instance,
                    get,
                    put_instance-instances m (switched_message on) (set_enabled on i) a,
                  )
                  (let (keyed, blank, proper, apart) = h in
                    let (p, q) = toggled on id i a.instances h e k in
                    let own =
                      (set_enabled-same on i).0 ∙ id-lookup a.instances.items id i keyed.1 e in
                    put-IsTidy instances (set_enabled on i) m.now m.later m.outcome a.instances h
                      (λ s. absent a.instances.items i id blank (sym own ∙ s) e) p q)
          ]
  ]

  removed-instances :
      (m : Reading) (i : Instance) (n : ℕ) (e : Option Error) (a : App)
      → (removed instances tunnels cal m i n e a).2.instances ≡ a.instances
  removed-instances m i n none a = refl
  removed-instances m i n (some x) a = refl

  delete_instance-IsTidy :
      (m : Reading) (ends : String → Outcome) (id : String) (a : App)
      → IsTidy a.instances.items
      → IsTidy (delete_instance instances tunnels cal m ends id a).2.instances.items
  unfolding delete_instance get
  delete_instance-IsTidy m ends id a h = elim (Option-cases (lookup id a.instances.items)) [
    | inl e ↦ rw (e, delete_instance, get) h
    | inr (i, e) ↦
        let gone =
          remove_tunnels instances tunnels cal id ends (all_tunnels instances tunnels cal a) 0
            a.tunnels in
        elim (Option-cases gone.0) [
          | inr (x, k) ↦ rw (e, k, delete_instance, get) h
          | inl k ↦
              rw (e, k, delete_instance, get)
                (subst (λ c. IsTidy c.items) (sym (removed-instances m i _ _ _))
                  (delete-IsTidy instances id m.outcome a.instances h))
        ]
  ]

  -- A call of one of the three operations on instances.
  pub data Call : Type 0 where
    saves : Reading → Option (List ℕ) → ℕ → Instance → Call
    toggles : Reading → String → Bool → Call
    deletes : Reading → (String → Outcome) → String → Call

  abbrev pub step : App → Call → App
  step a (saves m bytes nano i) =
      (save_instance instances tunnels cal m (new_id bytes nano "inst") i a).1
  step a (toggles m id on) = (toggle_instance instances tunnels cal m id on a).1
  step a (deletes m ends id) = (delete_instance instances tunnels cal m ends id a).2

  unfoldable pub run : App → List Call → App
  run a [] = a
  run a (c ∷ cs) = run (step a c) cs

  step-IsTidy : (a : App) (c : Call) → IsTidy a.instances.items → IsTidy (step a c).instances.items
  step-IsTidy a (saves m bytes nano i) h = save-IsTidy m bytes nano i a h
  step-IsTidy a (toggles m id on) h = toggle-IsTidy m id on a h
  step-IsTidy a (deletes m ends id) h = delete_instance-IsTidy m ends id a h

  -- From a store of instances that is tidy, as an empty one is, any sequence of `SaveInstance`,
  -- `ToggleInstance` and `DeleteInstance` leads to one that is, whatever the clock, the file system and the
  -- random source answer: each instance stands under its own identifier, which is not empty; those that are
  -- switched on pass `Validate`; two of one kind have names that differ in more than their case; and no two
  -- servers that are switched on share a port.
  pub run-IsTidy :
      (a : App) (cs : List Call) → IsTidy a.instances.items → IsTidy (run a cs).instances.items
  unfolding run
  run-IsTidy a [] h = h
  run-IsTidy a (c ∷ cs) h = run-IsTidy (step a c) cs (step-IsTidy a c h)
