-- ===== src/Executor/Yielding.antt =====
-- A task that wakes itself: what `yield_now` is for, and where it goes wrong.
use epox.Base.{
  suc, ◌≡◌, refl, subst, ◌∙◌, true, false, List, [], ◌∷◌, ◌++◌, arith, ◌==◌, ==_iff, mem, without,
  mem-append, mem-without, Bool-cases, inl, inr, ltb,
}
use epox.Queue.Links.{Ptr}
use epox.Queue.Push.{pushed}
use epox.Flags.{Flags}
use epox.Waker.{noop, task, ready}
use epox.Executor.{Executor, TaskCell, runq, cloned, set_cell, is_alive, enqueue}
use epox.Executor.Events.{Kernel, now, epoll_wait, wake_here}
use epox.Executor.Run.{wakes, Futures, wake_waker, act, act_all, complete, finish, run_task}
use epox.Executor.Rule.{epoll_wait_rule}
use epox.Executor.Wakeups.{enqueue-IsLast, enqueue-cell}

module _ {F V : Type 0} where
  -- The tasks are as in `cells`, and `u` waits in the run queue of its priority.
  abbrev IsWaiting : (Ptr → TaskCell V) → Ptr → Executor F V → Type 0
  IsWaiting cells u e =
      (e.cell ≡ cells) × (mem u (e.queues.contents (runq (cells u).priority)) ≡ true)

  pushed-mem :
      (e : Executor F V) (q r t u : Ptr)
      → mem u (e.queues.contents r) ≡ true
      → ((t == u) ≡ true → q ≡ r)
      → mem u ((pushed q t e.queues).contents r) ≡ true
  pushed-mem e q r t u i same = ground (
    arith,
    same,
    mem-append u (without t (e.queues.contents q)) (t ∷ []),
    mem-without u t (e.queues.contents q),
    mem-without u t (e.queues.contents r),
  )

  enqueue-IsWaiting :
      (cells : Ptr → TaskCell V) (u t : Ptr) (e : Executor F V)
      → IsWaiting cells u e
      → IsWaiting cells u (enqueue t e)
  unfolding enqueue
  enqueue-IsWaiting cells u t e (k, i) = elim (Bool-cases (e.cell t).has_completed) [
    | inl done ↦ rw done (k, i)
    | inr live ↦
        rw live
          (k, pushed-mem e (runq (e.cell t).priority) _ t u i (λ same. rw (k, (==_iff t u).0 same)))
  ]

  pub enqueued :
      (t : Ptr) (e : Executor F V)
      → (e.cell t).has_completed ≡ false
      → mem t ((enqueue t e).queues.contents (runq (e.cell t).priority)) ≡ true
  enqueued t e live = ground (
    arith,
    (enqueue-IsLast t e e refl refl live).last,
    mem-append t (without t (e.queues.contents (runq (e.cell t).priority))) (t ∷ []),
  )

module _ {F V : Type 0} ⦃flags : Flags F⦄ (kernel : Kernel F) where
  epoll_wait-cell : (e : Executor F V) → (epoll_wait kernel now e).0.cell ≡ e.cell
  epoll_wait-cell e =
      epoll_wait_rule (λ x. x.cell ≡ e.cell) (λ t x k. k) (λ t x k. enqueue-cell t x ∙ k)
        (λ ev x k. k) (λ ps n x k. k) kernel now e refl

  epoll_wait-IsWaiting :
      (cells : Ptr → TaskCell V) (u : Ptr) (e : Executor F V)
      → IsWaiting cells u e
      → IsWaiting cells u (epoll_wait kernel now e).0
  epoll_wait-IsWaiting cells u e v =
      epoll_wait_rule (IsWaiting cells u) (λ t x k. k) (λ t x k. enqueue-IsWaiting cells u t x k)
        (λ ev x k. k) (λ ps n x k. k) kernel now e v

  -- A task that wakes itself while it is polled lets the executor look for events first and is then
  -- the last of its run queue. Every other task that waited in that queue is still ahead of it.
  pub wake_here-behind :
      (t u : Ptr) (e : Executor F V)
      → is_alive e t ≡ true
      → (e.cell t).has_completed ≡ false
      → (e.cell t).borrowed ≡ true
      → (t == u) ≡ false
      → (e.cell u).priority ≡ (e.cell t).priority
      → mem u (e.queues.contents (runq (e.cell t).priority)) ≡ true
      → (ahead : List Ptr) × ((wake_here kernel t e).queues.contents (runq (e.cell t).priority)
          ≡ ahead ++ t ∷ [])
        × (mem u ahead ≡ true)
  unfolding wake_here
  wake_here-behind t u e alive live self ne same i =
      let e1 : Executor F V = (epoll_wait kernel now (cloned t e)).0 in
      let k : e1.cell ≡ e.cell = epoll_wait-cell (cloned t e) in
      let w : IsWaiting e.cell u e1 =
        epoll_wait-IsWaiting e.cell u (cloned t e) (refl, rw same i) in
      (
        without t (e1.queues.contents (runq (e.cell t).priority)),
        rw (alive, self)
            (subst
              (λ c.
                (enqueue t e1).queues.contents (runq (c t).priority)
                ≡ without t (e1.queues.contents (runq (c t).priority)) ++ t ∷ [])
              k (enqueue-IsLast t e1 e1 refl refl (rw k live)).last),
        ground (
          arith,
          mem-without u t (e1.queues.contents (runq (e.cell t).priority)),
          ne,
          subst (λ p. mem u (e1.queues.contents (runq p)) ≡ true) same w.1,
        ),
      )

  wake_here_self :
      (t : Ptr) (e : Executor F V)
      → is_alive e t ≡ true
      → (e.cell t).has_completed ≡ false
      → (e.cell t).borrowed ≡ true
      → (mem t ((wake_here kernel t e).queues.contents (runq (e.cell t).priority)) ≡ true)
        × ((wake_here kernel t e).cell ≡ e.cell)
  unfolding wake_here
  wake_here_self t e alive live self =
      let e1 : Executor F V = (epoll_wait kernel now (cloned t e)).0 in
      let k : e1.cell ≡ e.cell = epoll_wait-cell (cloned t e) in
      rw (alive, self)
        (
          subst (λ c. mem t ((enqueue t e1).queues.contents (runq (c t).priority)) ≡ true) k
              (enqueued t e1 (rw k live)),
          enqueue-cell t e1 ∙ k,
        )

  completed :
      (t : Ptr) (v : V) (e : Executor F V)
      → (e.cell t).handle_waker ≡ noop
      → ((complete kernel t v e).queues.contents ≡ e.queues.contents)
        × (((complete kernel t v e).cell t).has_completed ≡ true)
  unfolding complete wake_waker
  completed t v e unwatched =
      let self : (t == t) ≡ true = ground arith in (rw unwatched, rw (unwatched, self))

  -- A task that wakes itself and then ends `Ready` in the same poll has completed and is still in its
  -- run queue, whatever the kernel answers. The conditions are that
  -- the task belongs to this thread, had not completed, and that nobody waits for its output.
  pub run_task-has_completed :
      (futures : Futures F V) (t : Ptr) (v : V) (e : Executor F V)
      → futures e.polls t ≡ record { actions = wakes (task t) ∷ []; poll = ready v }
      → (e.cell t).has_completed ≡ false
      → (e.cell t).pipe_wr ≡ e.pipe_wr
      → (e.cell t).handle_waker ≡ noop
      → ltb 0 (e.queues.refs t) ≡ true
      → (((run_task kernel futures t e).cell t).has_completed ≡ true)
        × (mem t ((run_task kernel futures t e).queues.contents (runq (e.cell t).priority)) ≡ true)
  unfolding run_task act_all act wake_waker finish
  run_task-has_completed futures t v e turn live own unwatched held =
      let e0 : Executor F V =
        set_cell t (record (e.cell t) { borrowed = true }) (record e { polls = suc e.polls }) in
      let self : (t == t) ≡ true = ground arith in
      let mine : ((e0.cell t).pipe_wr == e0.pipe_wr) ≡ true = rw (self, own) (ground arith) in
      let woken = wake_here_self t e0 (rw held) (rw (self, live)) (rw self) in
      let done = completed t v (wake_here kernel t e0) (rw (woken.1, self, unwatched)) in
      let same : (e0.cell t).priority ≡ (e.cell t).priority = rw self in
      let left =
        subst
          (λ p.
            mem t ((complete kernel t v (wake_here kernel t e0)).queues.contents (runq p)) ≡ true)
          same (rw done.0 woken.0) in
      rw (turn, mine) (done.1, left)
