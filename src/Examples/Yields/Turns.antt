-- ===== src/Examples/Yields/Turns.antt =====
-- The rounds of `run` that poll a task which yields or ends, where the kernel has no events.
use epox.Base.{
  ℕ, ◌≡◌, refl, ◌∙◌, ap, inl, inr, Bool, true, false, none, some, List, [], ◌∷◌, ◌==◌, ==_iff,
  arith, Bool-cases, mem, mem-append, without, ltb,
}
use epox.Queue.Links.{Ptr}
use epox.Queue.Push.{pushed}
use epox.Flags.{Flags}
use epox.Waker.{noop, task, pending, ready}
use epox.Executor.{Executor, runq, cloned, set_cell, is_alive, is_queued, sleep, enqueue}
use epox.Executor.Events.{Kernel, Timeout, now, Status, fine, fails, events, epoll_wait, wake_here}
use epox.Executor.Order.{tasks}
use epox.Executor.Lists.{quiet_wait, SameTasks}
use epox.Executor.Run.{
  Turn, wakes, wake_waker, act, act_all, complete, suspend, finish, run_task, check, after_task,
  round,
}
use epox.Tasks.Yield.{suspend_queued}
use epox.Programs.{begun}

abbrev pub yields : {F V : Type 0} → Ptr → Turn F V
yields t = record { actions = wakes (task t) ∷ []; poll = pending }

abbrev pub ends : {F V : Type 0} → V → Turn F V
ends v = record { actions = []; poll = ready v }

module _ {F V : Type 0} where
  -- The task is about to be polled.
  pub record IsTaken (t : Ptr) (e : Executor F V) : Type 0 where
    pub live : (e.cell t).has_completed ≡ false
    pub own : (e.cell t).pipe_wr ≡ e.pipe_wr
    pub held : ltb 0 (e.queues.refs t) ≡ true
    pub running : e.shutdown ≡ false

  -- The tasks stand in the queues as in `queues`, and what they are is kept.
  pub record Leaves (queues : Ptr → List Ptr) (e e' : Executor F V) : Type 0 where
    pub contents : (q : Ptr) → tasks e' q ≡ queues q
    pub handle_waker : (u : Ptr) → (e.cell u).handle_waker ≡ noop → (e'.cell u).handle_waker ≡ noop
    pub own : (u : Ptr) → (e'.cell u).pipe_wr ≡ (e.cell u).pipe_wr
    pub pipe_wr : e'.pipe_wr ≡ e.pipe_wr

  borrow :
      (t u : Ptr) (polled : Bool) (e : Executor F V)
      → let b : Executor F V = set_cell t (record (e.cell t) { borrowed = polled }) e in
        ((b.cell u).handle_waker ≡ (e.cell u).handle_waker)
        × ((b.cell u).pipe_wr ≡ (e.cell u).pipe_wr)
  borrow t u polled e = ground arith

module _ {F V : Type 0} ⦃flags : Flags F⦄ (kernel : Kernel F)
    (quiet : (n : ℕ) (timeout : Timeout) (room : ℕ)
      → kernel n timeout room ≡ record { answer = events []; arrived = [] }) where
  -- What the wake of the task leaves while it is polled.
  woken :
      (t : Ptr) (e : Executor F V)
      → IsTaken t e
      → let b : Executor F V = begun kernel t e in
        let w : Executor F V = wake_waker kernel (task t) b in
        ((q : Ptr) → tasks w q ≡ (pushed (runq (e.cell t).priority) t e.queues).contents q)
        × SameTasks b w
  unfolding wake_waker wake_here enqueue
  woken t e v =
      let b : Executor F V = begun kernel t e in
      let self : (t == t) ≡ true = ground arith in
      let mine : ((b.cell t).pipe_wr == b.pipe_wr) ≡ true = rw (self, v.own) (ground arith) in
      let alive : is_alive b t ≡ true = rw v.held (ground arith) in
      let polled : (b.cell t).borrowed ≡ true = rw self refl in
      let w = quiet_wait kernel quiet now (cloned t b) in
      let e1 : Executor F V = (epoll_wait kernel now (cloned t b)).0 in
      let live : (e1.cell t).has_completed ≡ false = rw (w.1.cell, self) v.live in
      let prio : (e1.cell t).priority ≡ (e.cell t).priority = rw (w.1.cell, self) refl in
      rw (mine, alive, polled, live)
        (
          λ q.
              ap (λ p. (pushed (runq p) t e1.queues).contents q) prio
              ∙ ap (λ m. (pushed (runq (e.cell t).priority) t m).contents q) w.0,
          record { cell = w.1.cell; pipe_wr = w.1.pipe_wr; shutdown = w.1.shutdown },
        )

  -- The check for events after the poll.
  checked :
      (b : Bool) (e : Executor F V)
      → b ≡ false
      → let r = after_task kernel b e in (r.0.queues ≡ e.queues) × SameTasks e r.0 × (r.1 ≡ none)
  unfolding after_task check
  checked true e h = cc
  checked false e h =
      let w = quiet_wait kernel quiet now e in over (epoll_wait kernel now e) w.0 w.1 w.2
    where
      over :
          (r : Executor F V × Status)
          → r.0.queues ≡ e.queues
          → SameTasks e r.0
          → r.1 ≡ fine
          → let c = check kernel r in (c.0.queues ≡ e.queues) × SameTasks e c.0 × (c.1 ≡ none)
      over (f, fine) q s ok = (q, s, refl)
      over (f, fails n) q s ok = cc

  suspend_cell :
      (t : Ptr) (e : Executor F V)
      → ((suspend kernel t e).cell ≡ (set_cell t (record (e.cell t) { borrowed = false }) e).cell)
        × ((suspend kernel t e).pipe_wr ≡ e.pipe_wr)
        × ((suspend kernel t e).shutdown ≡ e.shutdown)
  unfolding suspend sleep
  suspend_cell t e =
      let e1 : Executor F V = set_cell t (record (e.cell t) { borrowed = false }) e in
      elim (Bool-cases (is_queued e1 t)) [
        | inl b ↦ rw b (refl, refl, refl)
        | inr b ↦ rw b (refl, refl, refl)
      ]

  -- A round that polls a task which yields.
  pub round-yields :
      (t : Ptr) (e : Executor F V)
      → IsTaken t e
      → let r = round kernel (λ n u. yields t) (some t, e) in
        Leaves (λ q. (pushed (runq (e.cell t).priority) t e.queues).contents q) e r.0 × (r.1 ≡ none)
  unfolding round run_task act_all act finish
  round-yields t e v =
      let b : Executor F V = begun kernel t e in
      let self : (t == t) ≡ true = ground arith in
      let w : Executor F V = wake_waker kernel (task t) b in
      let k = woken t e v in
      let here : mem t (tasks w (runq (e.cell t).priority)) ≡ true =
        rw (k.0 (runq (e.cell t).priority)) (
          ground (arith, mem-append t (without t (tasks e (runq (e.cell t).priority))) (t ∷ []))) in
      let s : Executor F V = suspend kernel t w in
      let stays = suspend_queued kernel t (e.cell t).priority w here in
      let c = suspend_cell t w in
      let d = checked s.shutdown s (c.2 ∙ k.1.shutdown ∙ v.running) in
      let cell = d.1.cell ∙ c.0 in
      (
        record {
          contents = λ q. ap (λ m. m.contents q) d.0 ∙ ap (λ f. f q) stays ∙ k.0 q;
          handle_waker = λ u idle.
              ap (λ f. (f u).handle_waker) cell
              ∙ (borrow t u false w).0
              ∙ ap (λ f. (f u).handle_waker) k.1.cell
              ∙ (borrow t u true e).0
              ∙ idle;
          own = λ u.
              ap (λ f. (f u).pipe_wr) cell
              ∙ (borrow t u false w).1
              ∙ ap (λ f. (f u).pipe_wr) k.1.cell
              ∙ (borrow t u true e).1;
          pipe_wr = d.1.pipe_wr ∙ c.1 ∙ k.1.pipe_wr;
        },
        d.2,
      )

  -- A round that polls a task which ends, and whose handle nobody awaits.
  pub round-ends :
      (v : V) (t : Ptr) (e : Executor F V)
      → IsTaken t e
      → (e.cell t).handle_waker ≡ noop
      → let r = round kernel (λ n u. ends v) (some t, e) in Leaves (tasks e) e r.0 × (r.1 ≡ none)
  unfolding round run_task act_all finish complete wake_waker
  round-ends v t e k unwatched =
      let b : Executor F V = begun kernel t e in
      let self : (t == t) ≡ true = ground arith in
      let idle : (b.cell t).handle_waker ≡ noop = rw self unwatched in
      let f : Executor F V = complete kernel t v b in
      let kept = completed_view v t b idle in
      let d = checked f.shutdown f (kept.2 ∙ k.running) in
      (
        record {
          contents = λ q. ap (λ m. m.contents q) d.0 ∙ ap (λ c. c q) kept.0;
          handle_waker = λ u none_waits.
              ap (λ f. (f u).handle_waker) d.1.cell
              ∙ (completed_cell v t u b idle).0 ((borrow t u true e).0 ∙ none_waits);
          own = λ u.
              ap (λ f. (f u).pipe_wr) d.1.cell
              ∙ (completed_cell v t u b idle).1
              ∙ (borrow t u true e).1;
          pipe_wr = d.1.pipe_wr ∙ kept.1;
        },
        d.2,
      )
    where
      completed_view :
          (v : V) (t : Ptr) (b : Executor F V)
          → (b.cell t).handle_waker ≡ noop
          → ((complete kernel t v b).queues.contents ≡ b.queues.contents)
            × ((complete kernel t v b).pipe_wr ≡ b.pipe_wr)
            × ((complete kernel t v b).shutdown ≡ b.shutdown)
      completed_view v t b idle = rw idle (refl, refl, refl)

      completed_cell :
          (v : V) (t u : Ptr) (b : Executor F V)
          → (b.cell t).handle_waker ≡ noop
          → ((b.cell u).handle_waker ≡ noop → ((complete kernel t v b).cell u).handle_waker ≡ noop)
            × (((complete kernel t v b).cell u).pipe_wr ≡ (b.cell u).pipe_wr)
      completed_cell v t u b idle =
          let self : (t == t) ≡ true = ground arith in
          rw (idle, self)
            (elim (Bool-cases (t == u)) [
              | inl same ↦ rw same (λ h. refl, ap (λ x. (b.cell x).pipe_wr) ((==_iff t u).0 same))
              | inr other ↦ rw other (λ h. h, refl)
            ])
