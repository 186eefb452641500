-- ===== src/Executor/Completion.antt =====
-- What the end of `run` means for a task.
use epox.Base.{
  ℕ, zero, suc, ◌≡◌, sym, subst, inl, inr, true, false, some, List, [], ◌∷◌, Option-cases, some_eq,
  mem,
}
use epox.Queue.Links.{Ptr}
use epox.Flags.{Flags}
use epox.Executor.{Executor, Priority, high, normal, low, runq, highest_priority_runnable_task}
use epox.Executor.Events.{Kernel, Status, fine}
use epox.Executor.Run.{Futures, round, run_loop}
use epox.Executor.Order.{tasks, highest_priority_runnable_task-Chosen}
use epox.Executor.Tidy.{IsTidy}
use epox.Executor.Keeps.{run_loop-IsTidy}
use epox.Executor.End.{IsEmpty, run_loop-IsOver}
use epox.Executor.Remain.{AreSparing, Remains, stands, ended, round-Remains}

nobody : (u : Ptr) (ts : List Ptr) → ts ≡ [] → mem u ts ≡ true → ⊥
nobody u [] e i = cc
nobody u (t ∷ ts) e i = cc

module _ {F V : Type 0} where
  runq_empty : (p : Priority) (e : Executor F V) → IsEmpty e → tasks e (runq p) ≡ []
  runq_empty high e (h, n, l, s) = h
  runq_empty normal e (h, n, l, s) = n
  runq_empty low e (h, n, l, s) = l

  pub emptied :
      (u : Ptr) (e : Executor F V)
      → IsTidy e
      → IsEmpty e
      → Remains u e
      → (e.cell u).has_completed ≡ true
  emptied u e v empty (ended done) = done
  emptied u e v empty (stands q i) = absurd (elim (v.placed q u i) [
    | inl here ↦ nobody u (tasks e q) (subst (λ x. tasks e x ≡ []) (sym here) empty.3) i
    | inr here ↦
        nobody u (tasks e q)
          (subst (λ x. tasks e x ≡ []) (sym here) (runq_empty (e.cell u).priority e empty)) i
  ])

module _ {F V : Type 0} ⦃flags : Flags F⦄ (kernel : Kernel F) where
  run_loop-Remains :
      (fuel : ℕ) (u : Ptr) (futures : Futures F V) (e : Executor F V) {r : Executor F V × Status}
      → ((n : ℕ) (t : Ptr) → AreSparing u (futures n t).actions)
      → Remains u e
      → run_loop kernel fuel futures e ≡ some r
      → Remains u r.0
  unfolding run_loop
  run_loop-Remains zero u futures e s v h = cc
  run_loop-Remains (suc fuel) u futures e s v h =
      let c = highest_priority_runnable_task e in
      let step : Remains u (round kernel futures c).0 =
        round-Remains kernel u futures e c s (highest_priority_runnable_task-Chosen e) v in
      elim (Option-cases (round kernel futures c).1) [
        | inl more ↦
            run_loop-Remains fuel u futures (round kernel futures c).0 s step
              (rw (more, run_loop) at h)
        | inr (status, done) ↦ subst (λ x. Remains u x.0) (some_eq (rw (done, run_loop) at h)) step
      ]

  -- When the loops of `run` end well and the executor was not shut down, then every task that stood
  -- in a queue at the start and that no future aborts has completed. At the start every task stands
  -- in at most one place of one queue, the sleep queue or the run queue of its priority.
  pub run_loop-has_completed :
      (fuel : ℕ) (u : Ptr) (futures : Futures F V) (e : Executor F V) {e' : Executor F V}
      → IsTidy e
      → ((n : ℕ) (t : Ptr) → AreSparing u (futures n t).actions)
      → Remains u e
      → run_loop kernel fuel futures e ≡ some (e', fine)
      → e'.shutdown ≡ false
      → (e'.cell u).has_completed ≡ true
  run_loop-has_completed fuel u futures e {e'} tidy s v h running =
      elim (run_loop-IsOver kernel fuel futures e h) [
        | inl down ↦ cc
        | inr empty ↦
            emptied u e' (run_loop-IsTidy kernel fuel futures e tidy h) empty
              (run_loop-Remains fuel u futures e s v h)
      ]
