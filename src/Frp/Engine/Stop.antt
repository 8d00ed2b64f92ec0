-- ===== src/Frp/Engine/Stop.antt =====
-- internal/frp/engine.go, `Stop`: every service and context of the engine's runtimes is closed.
use ycfrp.Base.{
  ℕ, String, false, Option, none, some, List, [], ◌∷◌, ◌≡◌, refl, ap, ◌∙◌, ◌==◌, Assoc, lookup,
  insert, lookup-insert, eq_iff, inl, inr, Bool-cases, Option-cases, Any, Any-before, Any-last,
}
use ycfrp.Frp.Kernel.{Trace, Action, graceful_close, close_server, cancel}
use ycfrp.Frp.Engine.{Runtime, Engine, on_service, closed, close_actions, close_all, stop, ordered}
use ycfrp.Frp.Engine.Apply.Runtimes.{Has}
use ycfrp.Frp.Engine.Queries.{running, last_error}

-- The action was taken.
abbrev pub IsDone : Action → Trace → Type 0
IsDone a = Any (λ b. b ≡ a)

on_service-IsDone :
    (a : Action) (f : ℕ → Action) (svc : Option ℕ) (w : Trace)
    → IsDone a w
    → IsDone a (on_service f svc w)
on_service-IsDone a f none w h = h
on_service-IsDone a f (some n) w h = Any-before (λ b. b ≡ a) w _ h

on_service_ran :
    (f : ℕ → Action) (svc : Option ℕ) (n : ℕ) (w : Trace)
    → svc ≡ some n
    → IsDone (f n) (on_service f svc w)
on_service_ran f svc n w e = rw e (Any-last (λ b. b ≡ f n) w (f n) refl)

-- What closing a runtime does, each where the runtime has it.
abbrev pub IsClosed : Runtime → Trace → Type 0
IsClosed rt w =
    ((n : ℕ) → rt.client_svc ≡ some n → IsDone (graceful_close n) w)
    × ((n : ℕ) → rt.cancels ≡ some n → IsDone (cancel n) w)
    × ((n : ℕ) → rt.server_svc ≡ some n → IsDone (close_server n) w)

close_actions-IsDone :
    (a : Action) (rt : Runtime) (w : Trace) → IsDone a w → IsDone a (close_actions rt w)
unfolding close_actions
close_actions-IsDone a rt w h =
    on_service-IsDone a close_server rt.server_svc _ (
      on_service-IsDone a cancel rt.cancels _
        (on_service-IsDone a graceful_close rt.client_svc w h))

close_actions-IsClosed : (rt : Runtime) (w : Trace) → IsClosed rt (close_actions rt w)
unfolding close_actions
close_actions-IsClosed rt w = (
  (λ n e. on_service-IsDone (graceful_close n) close_server rt.server_svc _ (
      on_service-IsDone (graceful_close n) cancel rt.cancels _
        (on_service_ran graceful_close rt.client_svc n w e))),
  (λ n e.
      on_service-IsDone (cancel n) close_server rt.server_svc _
        (on_service_ran cancel rt.cancels n _ e)),
  λ n e. on_service_ran close_server rt.server_svc n _ e,
)

close_all-IsDone :
    (a : Action) (ids : List String) (m : Assoc Runtime) (w : Trace)
    → IsDone a w
    → IsDone a (close_all ids m w)
unfolding close_all
close_all-IsDone a [] m w h = h
close_all-IsDone a (j ∷ ids) m w h = elim (Option-cases (lookup j m)) [
  | inl e ↦ rw (e, close_all) (close_all-IsDone a ids m w h)
  | inr (rt, e) ↦
      rw (e, close_all)
        (close_all-IsDone a ids (insert j (closed rt) m) (close_actions rt w)
          (close_actions-IsDone a rt w h))
]

later :
    (ids : List String) (m : Assoc Runtime) (rt : Runtime) (w : Trace)
    → IsClosed rt w
    → IsClosed rt (close_all ids m w)
later ids m rt w (c, x, s) = (
  (λ n e. close_all-IsDone (graceful_close n) ids m w (c n e)),
  (λ n e. close_all-IsDone (cancel n) ids m w (x n e)),
  λ n e. close_all-IsDone (close_server n) ids m w (s n e),
)

close_all-IsClosed :
    (id : String) (ids : List String) (m : Assoc Runtime) (rt : Runtime) (w : Trace)
    → Has id ids
    → lookup id m ≡ some rt
    → IsClosed rt (close_all ids m w)
unfolding close_all
close_all-IsClosed id [] m rt w h at = absurd h
close_all-IsClosed id (j ∷ ids) m rt w h at = elim (Bool-cases (j == id)) [
  | inl e ↦
      let here : lookup j m ≡ some rt = ap (λ i. lookup i m) ((eq_iff j id).0 e) ∙ at in
      rw (here, close_all)
        (later ids (insert j (closed rt) m) rt (close_actions rt w) (close_actions-IsClosed rt w))
  | inr ne ↦ elim h [
    | inl e ↦ cc ((eq_iff j id).1 e, ne)
    | inr more ↦ elim (Option-cases (lookup j m)) [
      | inl e ↦ rw (e, close_all) (close_all-IsClosed id ids m rt w more at)
      | inr (rt', e) ↦
          rw (e, close_all)
            (close_all-IsClosed id ids (insert j (closed rt') m) rt (close_actions rt' w) more
              (rw (lookup-insert, ne) at))
    ]
  ]
]

-- `Stop` closes each service and cancels each context that a runtime of the engine's order holds, and
-- the engine is left with nothing that runs and no error, its desired instances and tunnels as before.
pub stop-IsClosed :
    (e : Engine) (w : Trace)
    → ((id : String) (rt : Runtime)
        → Has id e.order
        → lookup id e.runtimes ≡ some rt
        → IsClosed rt (stop e w).1)
      × (running (stop e w).0 ≡ (false, false))
      × (last_error (stop e w).0 ≡ "")
      × ((stop e w).0.desired ≡ e.desired)
      × ((stop e w).0.tunnels ≡ e.tunnels)
unfolding stop running last_error ordered
stop-IsClosed e w =
    ((λ id rt h at. close_all-IsClosed id e.order e.runtimes rt w h at), refl, refl, refl, refl)
