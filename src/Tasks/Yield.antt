-- ===== src/Tasks/Yield.antt =====
-- A task that yields by `yield_now`.
use epox.Base.{
  suc, ◌≡◌, refl, ap, ◌∙◌, subst, true, false, List, [], ◌∷◌, ◌++◌, ◌==◌, arith, mem, mem-append,
  ltb,
}
use epox.Queue.Links.{Ptr}
use epox.Flags.{Flags}
use epox.Waker.{task, pending, ready}
use epox.Executor.{Executor, Priority, high, normal, low, runq, is_queued, set_cell}
use epox.Executor.Events.{Kernel, wake_here}
use epox.Executor.Order.{tasks}
use epox.Executor.Run.{Futures, wake_waker, act, act_all, suspend, finish, run_task}
use epox.Executor.Yielding.{wake_here-behind}
use epox.Tasks.{yield_poll}

module _ {F V : Type 0} ⦃flags : Flags F⦄ (kernel : Kernel F) where
  queued_in :
      (t : Ptr) (p : Priority) (e : Executor F V)
      → mem t (tasks e (runq p)) ≡ true
      → is_queued e t ≡ true
  queued_in t high e i = ground arith
  queued_in t normal e i = ground arith
  queued_in t low e i = ground arith

  pub suspend_queued :
      (t : Ptr) (p : Priority) (e : Executor F V)
      → mem t (tasks e (runq p)) ≡ true
      → (suspend kernel t e).queues.contents ≡ e.queues.contents
  unfolding suspend
  suspend_queued t p e i =
      rw (queued_in t p (set_cell t (record (e.cell t) { borrowed = false }) e) i)

  -- A task that awaits `yield_now` is, after that poll, the last of the run queue of its priority, and
  -- every other task of that priority that waited there is ahead of it. The next poll of the future
  -- of `yield_now` is `Ready`. The task is one of this thread that had not completed.
  pub run_task-yield_poll :
      (futures : Futures F V) (t u : Ptr) (e : Executor F V)
      → futures e.polls t ≡ record { actions = (yield_poll false (task t)).1; poll = pending }
      → ltb 0 (e.queues.refs t) ≡ true
      → (e.cell t).has_completed ≡ false
      → (e.cell t).pipe_wr ≡ e.pipe_wr
      → (t == u) ≡ false
      → (e.cell u).priority ≡ (e.cell t).priority
      → mem u (tasks e (runq (e.cell t).priority)) ≡ true
      → (ahead : List Ptr) × (tasks (run_task kernel futures t e) (runq (e.cell t).priority)
          ≡ ahead ++ t ∷ [])
        × (mem u ahead ≡ true)
        × ((yield_poll {F = F} (yield_poll {F = F} false (task t)).2 (task t)).0 ≡ ready tt)
  unfolding run_task act_all act wake_waker finish yield_poll
  run_task-yield_poll futures t u e turn held live own ne same i =
      let e0 : Executor F V =
        set_cell t (record (e.cell t) { borrowed = true }) (record e { polls = suc e.polls }) in
      let self : (t == t) ≡ true = ground arith in
      let mine : ((e0.cell t).pipe_wr == e0.pipe_wr) ≡ true = rw (self, own) (ground arith) in
      let prio : (e0.cell t).priority ≡ (e.cell t).priority = rw self in
      let w =
        wake_here-behind kernel t u e0 (rw held) (rw (self, live)) (rw self) ne
          (rw (self, ne, same)) (rw self i) in
      let e1 : Executor F V = wake_here kernel t e0 in
      let behind : tasks e1 (runq (e.cell t).priority) ≡ w.0 ++ t ∷ [] =
        subst (λ p. tasks e1 (runq p) ≡ w.0 ++ t ∷ []) prio w.1 in
      let stays =
        suspend_queued t (e.cell t).priority e1
          (rw behind (ground (arith, mem-append t w.0 (t ∷ [])))) in
      (w.0, rw (turn, mine) (ap (λ c. c (runq (e.cell t).priority)) stays ∙ behind), w.2, refl)
