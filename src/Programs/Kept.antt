-- ===== src/Programs/Kept.antt =====
-- How statements on the code of the polls and on single rounds carry over to `run` of a system.
use epox.Base.{
  ℕ, zero, suc, ◌≡◌, refl, subst, ◌∙◌, ap, inl, inr, Option, none, some, some_eq, List, [], ◌∷◌,
  Option-cases,
}
use mathlib.Core.Option
use epox.Queue.Links.{Ptr}
use epox.Flags.{Flags}
use epox.Waker.{pending}
use epox.Executor.{Executor, highest_priority_runnable_task}
use epox.Executor.Events.{Kernel, Status, fine}
use epox.Executor.Order.{Chosen, highest_priority_runnable_task-Chosen}
use epox.Executor.End.{IsOver, round-IsOver}
use epox.Executor.Run.{Action, act, act_all}
use epox.Programs.{
  Code, gives, does, looks, panics, Body, System, Ended, ended, panicked, trace, poll_trace,
  turn_of, system_round, run_system,
}

module _ {F V : Type 0} ⦃flags : Flags F⦄ (kernel : Kernel F) where
  -- From a state the code does not panic, and what it does, what it gives and the state it leaves are
  -- as `Q` says.
  abbrev pub Ensures :
      {A : Type 0}
      → Code F V A
      → Executor F V
      → (List (Action F) → A → Executor F V → Type 0)
      → Type 0
  Ensures (gives a) e Q = Q [] a e
  Ensures (does x c) e Q = Ensures c (act kernel x e) (λ as' a e'. Q (x ∷ as') a e')
  Ensures (looks f) e Q = Ensures (f e) e Q
  Ensures panics e Q = ⊥

  pub Ensures_mono :
      {A : Type 0} (c : Code F V A) (e : Executor F V)
      (Q R : List (Action F) → A → Executor F V → Type 0)
      → ((as' : List (Action F)) (a : A) (e' : Executor F V) → Q as' a e' → R as' a e')
      → Ensures c e Q
      → Ensures c e R
  Ensures_mono (gives a) e Q R more q = more [] a e q
  Ensures_mono (does x c) e Q R more q =
      Ensures_mono c (act kernel x e) _ _ (λ as' a e'. more (x ∷ as') a e') q
  Ensures_mono (looks f) e Q R more q = Ensures_mono (f e) e Q R more q
  Ensures_mono panics e Q R more q = absurd q

  pub trace-Ensures :
      {A : Type 0} (c : Code F V A) (e : Executor F V)
      (Q : List (Action F) → A → Executor F V → Type 0)
      → Ensures c e Q
      → (r : List (Action F) × A) × (trace kernel c e ≡ some r) × Q r.0 r.1 (act_all kernel r.0 e)
  unfolding trace act_all
  trace-Ensures (gives a) e Q q = (([], a), refl, q)
  trace-Ensures (does x c) e Q q =
      let r = trace-Ensures c (act kernel x e) (λ as' a e'. Q (x ∷ as') a e') q in
      ((x ∷ r.0.0, r.0.1), rw (r.1, Option.map) refl, r.2)
  trace-Ensures (looks f) e Q q = trace-Ensures (f e) e Q q
  trace-Ensures panics e Q q = absurd q

  module _ {S : Type 0} (body : Body F V S) where
    -- The round does not panic, and leaves a system as `P` says.
    abbrev pub Leaves : (System F V S → Type 0) → Option (System F V S × Option Status) → Type 0
    Leaves P none = ⊥
    Leaves P (some r) = P r.0

    -- `run` does not panic, leaves a system as `P` says, and ends well only when the executor was shut
    -- down or no task is left.
    abbrev pub EndsIn : (System F V S → Type 0) → Ended F V S → Type 0
    EndsIn P panicked = ⊥
    EndsIn P (ended s status) = P s × (status ≡ fine → IsOver s.executor)

    pub system_round-IsOver :
        (e : Executor F V) (c : Option Ptr × Executor F V) (stage : Ptr → S)
        {r : System F V S × Option Status}
        → Chosen e c
        → system_round kernel body c stage ≡ some r
        → r.1 ≡ some fine
        → IsOver r.0.executor
    unfolding system_round
    system_round-IsOver e (none, e') stage chosen h ends =
        subst (λ x. x.1 ≡ some fine → IsOver x.0.executor) (some_eq h)
          (round-IsOver kernel (λ n u. record { actions = []; poll = pending }) e (none, e') chosen)
          ends
    system_round-IsOver e (some t, e') stage {r} chosen h ends =
        elim (Option-cases (poll_trace kernel body stage t e')) [
          | inl out ↦ absurd (let x : none ≡ some r = rw (out, Option.map) at h in cc)
          | inr (x, done) ↦
              subst (λ y. y.1 ≡ some fine → IsOver y.0.executor)
                (some_eq (rw (done, Option.map) at h))
                (round-IsOver kernel (λ n u. turn_of kernel body x) e (some t, e') chosen) ends
        ]

    pub run_system_rule :
        (P : System F V S → Type 0)
        → ((s : System F V S)
            → P s
            → Leaves P
                (system_round kernel body (highest_priority_runnable_task s.executor) s.stage))
        → (fuel : ℕ) (s : System F V S) {x : Ended F V S} → P s
        → run_system kernel body fuel s ≡ some x
        → EndsIn P x
    unfolding run_system
    run_system_rule P keep zero s p h = cc
    run_system_rule P keep (suc fuel) s {x} p h =
        let c = highest_priority_runnable_task s.executor in
        elim (Option-cases (system_round kernel body c s.stage)) [
          | inl out ↦ absurd (subst (Leaves P) out (keep s p))
          | inr (r, done) ↦
              let left : P r.0 = subst (Leaves P) done (keep s p) in
              elim (Option-cases r.1) [
                | inl more ↦ run_system_rule P keep fuel r.0 left (rw (done, more, run_system) at h)
                | inr (status, over) ↦
                    subst (EndsIn P) (some_eq (rw (done, over, run_system) at h)) (
                      left,
                      λ well.
                          system_round-IsOver s.executor c s.stage
                            (highest_priority_runnable_task-Chosen s.executor) done
                            (over ∙ ap some well),
                    )
              ]
        ]
