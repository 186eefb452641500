-- ===== src/Executor/Keeps.antt =====
-- `IsTidy` through the events, the polls and the loops of src/executor.rs.
use epox.Base.{
  ℕ, zero, suc, ◌≡◌, refl, Bool, true, false, List, [], ◌∷◌, Option, none, some, ◌==◌, Bool-cases,
  Option-cases, inl, inr, subst, some_eq,
}
use epox.Queue.Links.{Ptr}
use epox.Flags.{Flags}
use epox.Waker.{Waker, noop, task, block_on, foreign, Poll, pending, ready}
use epox.EpollWaker.{EpollWaker}
use epox.Executor.{
  Executor, TaskCell, set_cell, is_queued, is_alive, set_shutdown, highest_priority_runnable_task,
  new,
}
use epox.Executor.Order.{Chosen, highest_priority_runnable_task-Chosen}
use epox.Executor.Events.{Kernel, Timeout, now, never, Status, fine, fails, epoll_wait, wake_here}
use epox.Executor.Run.{
  Action, wakes, spawns, aborts, drops, awaits, shuts_down, registers, deregisters, polls_fd,
  Futures, wake_waker, await_output, act, act_all, complete, suspend, finish, run_task, check,
  after_task, when_idle, round, run_loop,
}
use epox.Executor.Register.Same.{new_fd-AreSame, drop_fd-AreSame}
use epox.Executor.Rule.{epoll_wait_rule, wake_here_rule}
use epox.Executor.Tidy.{
  IsTidy, same-IsTidy, enqueue-IsTidy, sleep-IsTidy, abort-IsTidy, set_cell-IsTidy, next-IsTidy,
  spawn-IsTidy,
}

module _ {F V : Type 0} where
  still :
      {e e' : Executor F V}
      → IsTidy e
      → e'.queues.contents ≡ e.queues.contents
      → e'.cell ≡ e.cell
      → IsTidy e'
  still v c k = same-IsTidy v c (λ t. rw k)

module _ {F V : Type 0} ⦃flags : Flags F⦄ (kernel : Kernel F) where
  pub epoll_wait-IsTidy :
      (timeout : Timeout) (e : Executor F V) → IsTidy e → IsTidy (epoll_wait kernel timeout e).0
  epoll_wait-IsTidy timeout e v =
      epoll_wait_rule IsTidy (λ t f k. still k refl refl) enqueue-IsTidy
        (λ ev f k. still k refl refl) (λ ps n f k. still k refl refl) kernel timeout e v

  wake_here-IsTidy : (t : Ptr) (e : Executor F V) → IsTidy e → IsTidy (wake_here kernel t e)
  wake_here-IsTidy t e v =
      wake_here_rule IsTidy (λ u f k. still k refl refl) enqueue-IsTidy
        (λ ev f k. still k refl refl) (λ ps n f k. still k refl refl) kernel t e v

  wake_waker-IsTidy : (w : Waker) (e : Executor F V) → IsTidy e → IsTidy (wake_waker kernel w e)
  unfolding wake_waker
  wake_waker-IsTidy (task t) e v = elim (Bool-cases ((e.cell t).pipe_wr == e.pipe_wr)) [
    | inl mine ↦ rw mine (wake_here-IsTidy t e v)
    | inr other ↦ rw other v
  ]
  wake_waker-IsTidy noop e v = v
  wake_waker-IsTidy (block_on n) e v = v
  wake_waker-IsTidy (foreign n) e v = v

  await_output-IsTidy :
      (o : Option V) (t : Ptr) (w : Waker) (e : Executor F V)
      → IsTidy e
      → IsTidy (await_output kernel o t w e)
  await_output-IsTidy none t w e v = set_cell-IsTidy t _ e refl v
  await_output-IsTidy (some x) t w e v = set_cell-IsTidy t _ e refl v

  act-IsTidy : (a : Action F) (e : Executor F V) → IsTidy e → IsTidy (act kernel a e)
  unfolding act set_shutdown
  act-IsTidy (wakes w) e v = wake_waker-IsTidy w e v
  act-IsTidy (spawns a p) e v = elim (Bool-cases (is_alive e a)) [
    | inl used ↦ rw used v
    | inr free ↦ rw free (spawn-IsTidy a p e free v)
  ]
  act-IsTidy (aborts t) e v = abort-IsTidy t e v
  act-IsTidy (drops t) e v = still v refl refl
  act-IsTidy (awaits t w) e v = await_output-IsTidy (e.cell t).output t w e v
  act-IsTidy shuts_down e v = still v refl refl
  act-IsTidy (registers key events s) e v =
      let k = new_fd-AreSame key events s e in still v (rw k.queues) k.cell
  act-IsTidy (deregisters ctl) e v = let k = drop_fd-AreSame ctl e in still v (rw k.queues) k.cell
  act-IsTidy (polls_fd key w) e v = still v refl refl

  pub act_all-IsTidy :
      (as' : List (Action F)) (e : Executor F V) → IsTidy e → IsTidy (act_all kernel as' e)
  unfolding act_all
  act_all-IsTidy [] e v = v
  act_all-IsTidy (a ∷ as') e v = act_all-IsTidy as' (act kernel a e) (act-IsTidy a e v)

  finish-IsTidy :
      (t : Ptr) (p : Poll V) (e : Executor F V) → IsTidy e → IsTidy (finish kernel t p e)
  unfolding finish complete suspend
  finish-IsTidy t (ready x) e v =
      let e1 : Executor F V =
        set_cell t (record (e.cell t) { output = some x; handle_waker = noop }) e in
      let e2 : Executor F V = wake_waker kernel (e.cell t).handle_waker e1 in
      let v2 : IsTidy e2 =
        wake_waker-IsTidy (e.cell t).handle_waker e1 (set_cell-IsTidy t _ e refl v) in
      let e3 : Executor F V =
        set_cell t (record (e2.cell t) { has_completed = true; borrowed = false }) e2 in
      let v3 : IsTidy e3 = set_cell-IsTidy t _ e2 refl v2 in still v3 refl refl
  finish-IsTidy t pending e v =
      let e1 : Executor F V = set_cell t (record (e.cell t) { borrowed = false }) e in
      let v1 : IsTidy e1 = set_cell-IsTidy t _ e refl v in
      elim (Bool-cases (is_queued e1 t)) [
        | inl b ↦ rw b (still v1 refl refl)
        | inr b ↦ rw b (sleep-IsTidy t e1 v1)
      ]

  pub run_task-IsTidy :
      (futures : Futures F V) (t : Ptr) (e : Executor F V)
      → IsTidy e
      → IsTidy (run_task kernel futures t e)
  unfolding run_task
  run_task-IsTidy futures t e v =
      let e1 : Executor F V = record e { polls = suc e.polls } in
      let v1 : IsTidy e1 = still v refl refl in
      let c : TaskCell V = record (e.cell t) { borrowed = true } in
      finish-IsTidy t (futures e.polls t).poll _ (
        act_all-IsTidy (futures e.polls t).actions (set_cell t c e1)
          (set_cell-IsTidy t c e1 refl v1))

  check-IsTidy : (r : Executor F V × Status) → IsTidy r.0 → IsTidy (check kernel r).0
  unfolding check
  check-IsTidy (e, fine) v = v
  check-IsTidy (e, fails n) v = v

  after_task-IsTidy : (b : Bool) (e : Executor F V) → IsTidy e → IsTidy (after_task kernel b e).0
  unfolding after_task
  after_task-IsTidy true e v = v
  after_task-IsTidy false e v = check-IsTidy (epoll_wait kernel now e) (epoll_wait-IsTidy now e v)

  when_idle-IsTidy : (b : Bool) (e : Executor F V) → IsTidy e → IsTidy (when_idle kernel b e).0
  unfolding when_idle
  when_idle-IsTidy true e v = v
  when_idle-IsTidy false e v =
      check-IsTidy (epoll_wait kernel never e) (epoll_wait-IsTidy never e v)

  pub round-IsTidy :
      (futures : Futures F V) (e : Executor F V) (c : Option Ptr × Executor F V)
      → Chosen e c
      → IsTidy e
      → IsTidy (round kernel futures c).0
  unfolding round
  round-IsTidy futures e (some t, e') (p, n) v =
      after_task-IsTidy (run_task kernel futures t e').shutdown (run_task kernel futures t e')
        (run_task-IsTidy futures t e' (next-IsTidy n v))
  round-IsTidy futures e (none, e') (_, _, _, same) v = when_idle-IsTidy _ e' (rw same v)

  -- The executor after a number of rounds of the loops of `run`.
  abbrev pub rounds : ℕ → Futures F V → Executor F V → Executor F V
  rounds zero futures e = e
  rounds (suc n) futures e =
      rounds n futures (round kernel futures (highest_priority_runnable_task e)).0

  -- When every task stands in at most one place of one queue, which is the sleep queue or the run
  -- queue of its priority, then the same holds after any number of rounds of the loops of `run`, also
  -- when they never end.
  pub rounds-IsTidy :
      (n : ℕ) (futures : Futures F V) (e : Executor F V) → IsTidy e → IsTidy (rounds n futures e)
  rounds-IsTidy zero futures e v = v
  rounds-IsTidy (suc n) futures e v =
      let c = highest_priority_runnable_task e in
      rounds-IsTidy n futures (round kernel futures c).0
        (round-IsTidy futures e c (highest_priority_runnable_task-Chosen e) v)

  -- When every task stands in at most one place of one queue, which is the sleep queue or the run
  -- queue of its priority, then the same holds where the loops of `run` end, whatever the futures do
  -- and whatever the kernel answers.
  pub run_loop-IsTidy :
      (fuel : ℕ) (futures : Futures F V) (e : Executor F V) {r : Executor F V × Status}
      → IsTidy e
      → run_loop kernel fuel futures e ≡ some r
      → IsTidy r.0
  unfolding run_loop
  run_loop-IsTidy zero futures e v h = cc
  run_loop-IsTidy (suc fuel) futures e v h =
      let c = highest_priority_runnable_task e in
      let step : IsTidy (round kernel futures c).0 =
        round-IsTidy futures e c (highest_priority_runnable_task-Chosen e) v in
      elim (Option-cases (round kernel futures c).1) [
        | inl more ↦
            run_loop-IsTidy fuel futures (round kernel futures c).0 step (rw (more, run_loop) at h)
        | inr (status, done) ↦ subst (λ x. IsTidy x.0) (some_eq (rw (done, run_loop) at h)) step
      ]

pub new-IsTidy :
    {F V : Type 0} (fd : ℕ) (idle : EpollWaker F) → IsTidy (new {F = F} {V = V} fd idle)
unfolding new
new-IsTidy fd idle = record { distinct = λ q. tt; apart = λ q r t i j. cc; placed = λ q t i. cc }
