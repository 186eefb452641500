-- ===== src/Executor/End.antt =====
-- How the loops of `run` end.
use epox.Base.{
  ℕ, zero, suc, ◌≡◌, refl, ◌⊎◌, inl, inr, Bool, true, false, Option, none, some, List, [], ◌∷◌,
  Option-cases, some_eq, is_nil, subst, ap, ◌∙◌,
}
use epox.Queue.Links.{Ptr}
use epox.Flags.{Flags}
use epox.Executor.{
  Executor, runq_high, runq_normal, runq_low, sleepq, highest_priority_runnable_task,
}
use epox.Executor.Events.{Kernel, now, never, Status, fine, fails, epoll_wait}
use epox.Executor.Run.{Futures, check, after_task, when_idle, round, run_loop, run_task}
use epox.Executor.Order.{tasks, Chosen, highest_priority_runnable_task-Chosen}

module _ {F V : Type 0} where
  abbrev pub IsEmpty : Executor F V → Type 0
  IsEmpty e =
      (tasks e runq_high ≡ [])
      × (tasks e runq_normal ≡ [])
      × (tasks e runq_low ≡ [])
      × (tasks e sleepq ≡ [])

  -- Shut down, or without a task in any queue.
  abbrev pub IsOver : Executor F V → Type 0
  IsOver e = (e.shutdown ≡ true) ⊎ IsEmpty e

module _ {F V : Type 0} ⦃flags : Flags F⦄ (kernel : Kernel F) where
  check_goes_on : (r : Executor F V × Status) → (check kernel r).1 ≡ some fine → ⊥
  unfolding check
  check_goes_on (e, fine) h = cc
  check_goes_on (e, fails n) h = cc

  after_task-IsOver :
      (b : Bool) (e : Executor F V)
      → e.shutdown ≡ b
      → (after_task kernel b e).1 ≡ some fine
      → IsOver (after_task kernel b e).0
  unfolding after_task
  after_task-IsOver true e b h = inl b
  after_task-IsOver false e b h = absurd (check_goes_on (epoll_wait kernel now e) h)

  when_idle-IsOver :
      (ts : List Ptr) (e : Executor F V)
      → tasks e sleepq ≡ ts
      → tasks e runq_high ≡ []
      → tasks e runq_normal ≡ []
      → tasks e runq_low ≡ []
      → (when_idle kernel (is_nil ts) e).1 ≡ some fine
      → IsOver (when_idle kernel (is_nil ts) e).0
  unfolding when_idle
  when_idle-IsOver [] e s h n l ends = inr (h, n, l, s)
  when_idle-IsOver (t ∷ ts) e s h n l ends = absurd (check_goes_on (epoll_wait kernel never e) ends)

  pub round-IsOver :
      (futures : Futures F V) (e : Executor F V) (c : Option Ptr × Executor F V)
      → Chosen e c
      → (round kernel futures c).1 ≡ some fine
      → IsOver (round kernel futures c).0
  unfolding round
  round-IsOver futures e (some t, e1) chosen ends =
      after_task-IsOver (run_task kernel futures t e1).shutdown (run_task kernel futures t e1) refl
        ends
  round-IsOver futures e (none, e1) (h, n, l, same) ends =
      when_idle-IsOver (tasks e1 sleepq) e1 refl (rw (same, h)) (rw (same, n)) (rw (same, l)) ends

  -- Where the loops of `run` end well, the executor was shut down or no task is left in any queue.
  pub run_loop-IsOver :
      (fuel : ℕ) (futures : Futures F V) (e : Executor F V) {e' : Executor F V}
      → run_loop kernel fuel futures e ≡ some (e', fine)
      → IsOver e'
  unfolding run_loop
  run_loop-IsOver zero futures e h = cc
  run_loop-IsOver (suc fuel) futures e {e'} h =
      let c = highest_priority_runnable_task e in
      elim (Option-cases (round kernel futures c).1) [
        | inl more ↦
            run_loop-IsOver fuel futures (round kernel futures c).0 (rw (more, run_loop) at h)
        | inr (status, done) ↦
            let r : ((round kernel futures c).0, status) ≡ (e', fine) =
              some_eq (rw (done, run_loop) at h) in
            subst (λ x. IsOver x.0) r
              (round-IsOver futures e c (highest_priority_runnable_task-Chosen e)
                (done ∙ ap (λ x. some x.1) r))
      ]
