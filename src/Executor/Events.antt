-- ===== src/Executor/Events.antt =====
-- `epoll_wait`, the wakeups by events and by the pipe, and `task_waker::wake`.
--
-- The kernel is an argument: what each `epoll_wait` answers, with what other threads wrote to the
-- pipe in the meantime, and how a write to a pipe ends.
use epox.Base.{ℕ, ◌+◌, Option, none, some, List, [], ◌∷◌, ◌++◌, ◌==◌, if◌then◌else◌, update}
use epox.Queue.Links.{Ptr, null}
use epox.Flags.{Flags}
use epox.Waker.{Waker, task}
use epox.Executor.{Executor, cloned, is_alive, enqueue}

-- `data` is 0 for the pipe, and the address of the `EpollWaker` for any other.
pub record Event (F : Type 0) : Type 0 where
  pub key : ℕ
  pub flags : F

pub data Answer (F : Type 0) : Type 0 where
  events : List (Event F) → Answer F
  interrupted : Answer F  -- EINTR
  failed : ℕ → Answer F

pub record Wait (F : Type 0) : Type 0 where
  pub arrived : List Ptr
  pub answer : Answer F

-- `EpollTimeout::ZERO` and `NONE`
pub data Timeout : Type 0 where
  now never : Timeout

-- The n-th wait of the executor, with its timeout and the room that `events` has.
abbrev pub Kernel : Type 0 → Type 0
Kernel F = ℕ → Timeout → ℕ → Wait F

-- `Result<(), Error>`
pub data Status : Type 0 where
  fine : Status
  fails : ℕ → Status

-- The read of an empty pipe that does not block.
abbrev pub eagain : ℕ
eagain = 11

pub data Written : Type 0 where
  whole bad_descriptor : Written
  refused : ℕ → Written

module _ {F V : Type 0} ⦃flags : Flags F⦄ where
  -- `weak.upgrade()` and, if the task is still there, `enqueue`.
  unfoldable pub wake_weak : Ptr → Executor F V → Executor F V
  wake_weak t e = if is_alive e t then enqueue t (cloned t e) else e

  unfoldable pub read_pipe : List Ptr → Executor F V → Executor F V × Status
  unfolding wake_weak
  read_pipe [] e = (e, fails eagain)
  read_pipe (p ∷ rest) e =
      let e' = record e { pipe = rest } in (if p == null then e' else wake_weak p e', fine)

  -- `Executor::wake_from_pipe`
  unfoldable pub wake_from_pipe : Executor F V → Executor F V × Status
  unfolding read_pipe
  wake_from_pipe e = read_pipe e.pipe e

  -- The vtable tells whether the waker is a task's. No other waker is woken.
  unfoldable pub wake_if_task : Waker → Executor F V → Executor F V
  unfolding wake_weak
  wake_if_task (task t) e = wake_weak t e
  wake_if_task _ e = e

  -- The events of a descriptor are added to those that its registration has noted.
  abbrev pub noted : Event F → Executor F V → Executor F V
  noted ev e = record e {
    epoll_waker = update e.epoll_waker ev.key (record (e.epoll_waker ev.key) {
      events = flags.union (e.epoll_waker ev.key).events ev.flags;
    });
  }

  -- The body of the loop of `epoll_wait` for an event of a descriptor.
  unfoldable pub notify : Event F → Executor F V → Executor F V
  notify ev e =
      if flags.contains (e.epoll_waker ev.key).events ev.flags
      then e
      else wake_if_task (e.epoll_waker ev.key).waker (noted ev e)

  abbrev pub deliver : Event F → Executor F V → Executor F V × Status
  deliver ev e = if ev.key == 0 then wake_from_pipe e else (notify ev e, fine)

  abbrev pub on_success :
      Executor F V × Status → (Executor F V → Executor F V × Status) → Executor F V × Status
  on_success (e, fine) f = f e
  on_success (e, fails n) f = (e, fails n)

  -- The loop of `epoll_wait` over the events, which `?` leaves at an error.
  unfoldable pub deliver_all : List (Event F) → Executor F V → Executor F V × Status
  deliver_all [] e = (e, fine)
  deliver_all (ev ∷ evs) e = on_success (deliver ev e) (deliver_all evs)

  unfoldable pub answered : Answer F → Executor F V → Executor F V × Status
  unfolding deliver_all
  answered (events evs) e = deliver_all evs e
  answered interrupted e = (e, fine)
  answered (failed n) e = (e, fails n)

  -- A wait has begun, and other threads have written to the pipe.
  abbrev pub waited : Wait F → Executor F V → Executor F V
  waited w e = record e { pipe = e.pipe ++ w.arrived; waits = e.waits + 1 }

  -- `Executor::epoll_wait`
  unfoldable pub epoll_wait : Kernel F → Timeout → Executor F V → Executor F V × Status
  unfolding answered
  epoll_wait kernel timeout e =
      if e.slots == 0
      then (e, fine)
      else let w = kernel e.waits timeout e.slots in answered w.answer (waited w e)

  -- `task_waker::wake` on the thread of the task's executor. A task that is being polled lets the
  -- executor look for events first, and what that wait answers is ignored.
  unfoldable pub wake_here : Kernel F → Ptr → Executor F V → Executor F V
  wake_here kernel t e =
      if is_alive e t
      then (let e' = cloned t e in
          enqueue t (if (e.cell t).borrowed then (epoll_wait kernel now e').0 else e'))
      else e

  write_pipe : Written → Ptr → Executor F V → Option (Executor F V)
  write_pipe whole p e = some (record e { pipe = e.pipe ++ p ∷ [] })
  write_pipe bad_descriptor p e = some e
  write_pipe (refused n) p e = none

  -- `task_waker::wake` on any thread, by the pipe of that thread's executor, for a task of executor
  -- `e`. `none` is the panic of a write that fails with anything but EBADF.
  unfoldable pub wake : Kernel F → Written → (here : ℕ) → Ptr → Executor F V → Option (Executor F V)
  unfolding wake_here write_pipe
  wake kernel written here t e =
      if is_alive e t
      then if (e.cell t).pipe_wr == here
        then some (wake_here kernel t e)
        else write_pipe written t e
      else some e

  -- `block_on_waker`'s `wake` on any thread, for a `block_on` on the thread of executor `e`.
  unfoldable pub wake_block_on : Written → (here : ℕ) → Executor F V → Option (Executor F V)
  unfolding write_pipe
  wake_block_on written here e = if e.pipe_wr == here then some e else write_pipe written null e
