-- ===== src/Tasks/Checked.antt =====
-- What `spawn_checked` adds: the executor stops when the task ends with an error.
use epox.Base.{
  ℕ, suc, ◌≡◌, ◌≢◌, refl, ap, ◌∙◌, true, some, List, [], ◌∷◌, ◌++◌, ◌==◌, arith, Bool-cases, inl,
  inr,
}
use mathlib.Core.List.{append-nil}
use epox.Queue.Links.{Ptr}
use epox.Flags.{Flags}
use epox.Waker.{Waker, noop, task, block_on, foreign, Poll, pending, ready, Result, ok, err}
use epox.Executor.{Executor, set_cell, enqueue, set_shutdown}
use epox.Executor.Events.{Kernel, fine}
use epox.Executor.Run.{
  Action, Futures, wake_waker, act, act_all, complete, finish, run_task, after_task, round,
}
use epox.Executor.Rule.{wake_here_rule}
use epox.Executor.Wakeups.{enqueue-cell}
use epox.Tasks.{Future, inspect_err, checked}

no_error :
    {F T X : Type 0} (p : Poll (Result T X))
    → ((x : X) → p ≢ ready (err x))
    → inspect_err {F = F} p ≡ []
no_error pending well = refl
no_error (ready (ok v)) well = refl
no_error (ready (err x)) well = absurd (well x refl)

module _ {F V : Type 0} where
  enqueue-shutdown : (t : Ptr) (e : Executor F V) → (enqueue t e).shutdown ≡ e.shutdown
  unfolding enqueue
  enqueue-shutdown t e = elim (Bool-cases (e.cell t).has_completed) [
    | inl done ↦ rw done
    | inr live ↦ rw live
  ]

module _ {F V : Type 0} ⦃flags : Flags F⦄ (kernel : Kernel F) where
  -- A wake changes no cell and does not shut down.
  wake_waker_same :
      (w : Waker) (e : Executor F V)
      → ((wake_waker kernel w e).cell ≡ e.cell) × ((wake_waker kernel w e).shutdown ≡ e.shutdown)
  unfolding wake_waker
  wake_waker_same (task t) e = elim (Bool-cases ((e.cell t).pipe_wr == e.pipe_wr)) [
    | inl mine ↦ rw mine (
        wake_here_rule (λ x. (x.cell ≡ e.cell) × (x.shutdown ≡ e.shutdown)) (λ u x k. k)
          (λ u x k. (enqueue-cell u x ∙ k.0, enqueue-shutdown u x ∙ k.1)) (λ ev x k. k)
          (λ ps n x k. k) kernel t e (refl, refl))
    | inr other ↦ rw other (refl, refl)
  ]
  wake_waker_same noop e = (refl, refl)
  wake_waker_same (block_on n) e = (refl, refl)
  wake_waker_same (foreign n) e = (refl, refl)

  act_all-append :
      (as' bs : List (Action F)) (e : Executor F V)
      → act_all kernel (as' ++ bs) e ≡ act_all kernel bs (act_all kernel as' e)
  unfolding act_all
  act_all-append [] bs e = refl
  act_all-append (a ∷ as') bs e = act_all-append as' bs (act kernel a e)

  complete_same :
      (t : Ptr) (v : V) (e : Executor F V)
      → (((complete kernel t v e).cell t).output ≡ some v)
        × ((complete kernel t v e).shutdown ≡ e.shutdown)
  unfolding complete
  complete_same t v e =
      let self : (t == t) ≡ true = ground arith in
      let e1 : Executor F V =
        set_cell t (record (e.cell t) { output = some v; handle_waker = noop }) e in
      let same = wake_waker_same (e.cell t).handle_waker e1 in
      (rw self (ap (λ c. (c t).output) same.0 ∙ rw self refl), same.1)

module _ {F T X : Type 0} ⦃flags : Flags F⦄ (kernel : Kernel F) where
  after_shutdown :
      (e : Executor F (Result T X))
      → e.shutdown ≡ true
      → after_task kernel e.shutdown e ≡ (e, some fine)
  unfolding after_task
  after_shutdown e down = ap (λ b. after_task kernel b e) down

  run_task-checked :
      (future : Future F (Result T X)) (futures : Futures F (Result T X)) (t : Ptr) (x : X)
      (e : Executor F (Result T X))
      → futures e.polls t ≡ checked future e.polls
      → (future e.polls).poll ≡ ready (err x)
      → run_task kernel futures t e
        ≡ complete kernel t (err x) (
            set_shutdown (
              act_all kernel (future e.polls).actions (
                set_cell t
                  (record (e.cell t) { borrowed = true })
                  (record e { polls = suc e.polls }))))
  unfolding run_task checked finish act_all act
  run_task-checked future futures t x e its fails = rw (its, fails, act_all-append)

  -- When the future of a task that was spawned by `spawn_checked` ends with an error, then `run` ends
  -- well in that round, whatever other tasks are left: the executor is shut down, and the handle of
  -- the task has the error.
  pub round-checked :
      (future : Future F (Result T X)) (futures : Futures F (Result T X)) (t : Ptr) (x : X)
      (e : Executor F (Result T X))
      → futures e.polls t ≡ checked future e.polls
      → (future e.polls).poll ≡ ready (err x)
      → ((round kernel futures (some t, e)).1 ≡ some fine)
        × ((round kernel futures (some t, e)).0.shutdown ≡ true)
        × (((round kernel futures (some t, e)).0.cell t).output ≡ some (err x))
  unfolding round set_shutdown
  round-checked future futures t x e its fails =
      let e1 : Executor F (Result T X) = set_shutdown (
        act_all kernel (future e.polls).actions (
          set_cell t (record (e.cell t) { borrowed = true }) (record e { polls = suc e.polls }))) in
      let ends = complete_same kernel t (err x) e1 in
      rw (run_task-checked future futures t x e its fails)
        (rw (after_shutdown (complete kernel t (err x) e1) ends.1) (refl, ends.1, ends.0))

-- While its future is pending or ends well, a task that was spawned by `spawn_checked` does what the
-- future does.
checked-eq :
    {F T X : Type 0} (future : Future F (Result T X)) (n : ℕ)
    → ((x : X) → (future n).poll ≢ ready (err x))
    → checked future n ≡ future n
unfolding checked
checked-eq future n well = rw (no_error (future n).poll well, append-nil)
