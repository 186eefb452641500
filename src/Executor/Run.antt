-- ===== src/Executor/Run.antt =====
-- `run_task`, the loops of `run`, and `block_on`.
--
-- The futures are code of the caller: the n-th poll of the executor, of a given task, does a list of
-- actions and ends `Pending` or `Ready`. An action is what a future may do to the executor of its
-- thread through the public functions of the crate.
use epox.Base.{
  ℕ, zero, suc, Bool, true, false, Option, none, some, List, [], ◌∷◌, ◌==◌, if◌then◌else◌, is_nil,
  update,
}
use epox.Queue.Links.{Ptr}
use epox.Flags.{Flags}
use epox.Waker.{Waker, noop, task, Poll, pending, ready}
use epox.EpollWaker.{EpollWaker}
use epox.Executor.Register.{Setup, new_fd, drop_fd}
use epox.Executor.{
  Executor, Priority, sleepq, dropped, set_cell, is_queued, is_alive, sleep, abort, spawn,
  set_shutdown, highest_priority_runnable_task,
}
use epox.Executor.Events.{Kernel, now, never, Status, fine, fails, wake_here, epoll_wait}

pub data Action (F : Type 0) : Type 0 where
  -- `wake` of a waker, by value or by reference
  wakes : Waker → Action F
  -- `Builder::spawn`, with the address of the new Arc. The allocator never returns an address that
  -- is in use, so the choice of one has no effect.
  spawns : Ptr → Priority → Action F
  -- `Handle::abort`, and the drop of a `Handle`
  aborts drops : Ptr → Action F
  -- `Handle::poll` in the context of a waker, for a task that is not being polled. For the task that
  -- is being polled it panics, which is not an action.
  awaits : Ptr → Waker → Action F
  -- `Shutdown::poll`, and `shutdown_executor_unchecked`
  shuts_down : Action F
  -- `Fd::new` with an `EpollWaker` boxed at an address, and the drop of an `Fd`
  registers : Ptr → F → Setup → Action F
  deregisters : Status → Action F
  -- `EpollWaker::poll_with`, by what it leaves in the `EpollWaker` at an address
  polls_fd : Ptr → EpollWaker F → Action F

-- What a poll of a task does, and how it ends.
pub record Turn (F V : Type 0) : Type 0 where
  pub actions : List (Action F)
  pub poll : Poll V

abbrev pub Futures : Type 0 → Type 0 → Type 0
Futures F V = ℕ → Ptr → Turn F V

-- How `block_on` ends. `unwrap` panics where `epoll_wait` fails, and a wait without a timeout may
-- never return.
pub data Blocked (F V : Type 0) : Type 0 where
  returned : V → Executor F V → Blocked F V
  panicked hangs : Executor F V → Blocked F V

module _ {F V : Type 0} ⦃flags : Flags F⦄ (kernel : Kernel F) where
  -- A waker of a task of this executor wakes it here. That of a task of another thread writes to the
  -- pipe of that thread, and that of `block_on` returns at once. What the waker of a combinator does
  -- is code of others, which is not followed: it has no effect here.
  unfoldable pub wake_waker : Waker → Executor F V → Executor F V
  wake_waker (task t) e = if (e.cell t).pipe_wr == e.pipe_wr then wake_here kernel t e else e
  wake_waker _ e = e

  abbrev pub await_output : Option V → Ptr → Waker → Executor F V → Executor F V
  await_output none t w e = set_cell t (record (e.cell t) { handle_waker = w }) e
  await_output (some v) t w e = set_cell t (record (e.cell t) { output = none }) e

  unfoldable pub act : Action F → Executor F V → Executor F V
  unfolding new_fd drop_fd
  act (wakes w) e = wake_waker w e
  act (spawns a p) e = if is_alive e a then e else spawn a p e
  act (aborts t) e = abort t e
  act (drops t) e = dropped t e
  act (awaits t w) e = await_output (e.cell t).output t w e
  act shuts_down e = set_shutdown e
  act (registers key events s) e = (new_fd key events s e).0
  act (deregisters ctl) e = drop_fd ctl e
  act (polls_fd key w) e = record e { epoll_waker = update e.epoll_waker key w }

  unfoldable pub act_all : List (Action F) → Executor F V → Executor F V
  act_all [] e = e
  act_all (a ∷ as') e = act_all as' (act a e)

  -- The arm of `run_task` for `Ready`. The borrow of the task ends after it, and its Arc is dropped.
  unfoldable pub complete : Ptr → V → Executor F V → Executor F V
  complete t v e =
      let e1 = set_cell t (record (e.cell t) { output = some v; handle_waker = noop }) e in
      let e2 = wake_waker (e.cell t).handle_waker e1 in
      dropped t (set_cell t (record (e2.cell t) { has_completed = true; borrowed = false }) e2)

  -- The arm for `Pending`, and what follows it. The Arc goes to the sleep queue or is dropped.
  unfoldable pub suspend : Ptr → Executor F V → Executor F V
  suspend t e =
      let e1 = set_cell t (record (e.cell t) { borrowed = false }) e in
      if is_queued e1 t then dropped t e1 else sleep t e1

  unfoldable pub finish : Ptr → Poll V → Executor F V → Executor F V
  unfolding complete suspend
  finish t (ready v) e = complete t v e
  finish t pending e = suspend t e

  -- `run_task`
  unfoldable pub run_task : Futures F V → Ptr → Executor F V → Executor F V
  unfolding finish
  run_task futures t e =
      let turn = futures e.polls t in
      finish t turn.poll (
        act_all turn.actions
          (set_cell t (record (e.cell t) { borrowed = true }) (record e { polls = suc e.polls })))

  -- One round of the loops of `run`: over the answer of `highest_priority_runnable_task`, to the
  -- state and how `run` ends, if it does.
  unfoldable pub check : Executor F V × Status → Executor F V × Option Status
  check (e, fine) = (e, none)
  check (e, fails n) = (e, some (fails n))

  -- After a task was run: the shutdown flag, and the check for events.
  unfoldable pub after_task : (shutting_down : Bool) → Executor F V → Executor F V × Option Status
  unfolding check
  after_task true e = (e, some fine)
  after_task false e = check (epoll_wait kernel now e)

  -- With nothing to run: the end if no task sleeps, and the wait for an event.
  unfoldable pub when_idle : (none_sleeps : Bool) → Executor F V → Executor F V × Option Status
  unfolding check
  when_idle true e = (e, some fine)
  when_idle false e = check (epoll_wait kernel never e)

  unfoldable pub round : Futures F V → Option Ptr × Executor F V → Executor F V × Option Status
  unfolding after_task when_idle
  round futures (some t, e) = let e1 = run_task futures t e in after_task e1.shutdown e1
  round futures (none, e) = when_idle (is_nil (e.queues.contents sleepq)) e

  -- The loops of `run`. `none` means that the fuel ran out.
  unfoldable pub run_loop : ℕ → Futures F V → Executor F V → Option (Executor F V × Status)
  unfolding round
  run_loop zero futures e = none
  run_loop (suc fuel) futures e =
      let r = round futures (highest_priority_runnable_task e) in
      elim r.1 [ some status ↦ some (r.0, status) | none ↦ run_loop fuel futures r.0 ]

  unfoldable pub block_round : Futures F V → Option Ptr × Executor F V → Executor F V × Status
  block_round futures (some t, e) = epoll_wait kernel now (run_task futures t e)
  block_round futures (none, e) = epoll_wait kernel never e

  -- With no task to run and room for events, `block_on` waits without a timeout. No event ever ends
  -- the waits for which `silent` holds.
  unfoldable pub is_stuck : (silent : ℕ → Bool) → Option Ptr × Executor F V → Bool
  is_stuck silent (some t, e) = false
  is_stuck silent (none, e) = if e.slots == 0 then false else silent e.waits

  -- The loop of `block_on`, from the n-th poll of its own future.
  unfoldable pub block_on_loop :
      ℕ
      → (silent : ℕ → Bool) → Futures F V
      → (ℕ → Turn F V)
      → ℕ
      → Executor F V
      → Option (Blocked F V)
  unfolding block_round is_stuck
  block_on_loop zero silent futures future n e = none
  block_on_loop (suc fuel) silent futures future n e =
      let turn = future n in
      let e1 = act_all turn.actions e in
      let c = highest_priority_runnable_task e1 in
      let r = block_round futures c in
      let rest = block_on_loop fuel silent futures future (suc n) r.0 in
      elim turn.poll [
        | ready v ↦ some (returned v e1)
        | pending ↦
            if is_stuck silent c
            then some (hangs c.1)
            else elim r.1 [ fine ↦ rest | fails code ↦ some (panicked r.0) ]
      ]
