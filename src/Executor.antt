-- ===== src/Executor.antt =====
-- The state of `Executor` in src/executor.rs, and the methods that only move tasks between queues.
--
-- The queues are the abstract view of src/queue.rs in Queue/Model.antt: `queues.contents` by the
-- address of the head, oldest task first, and `queues.refs`, the Arcs of a task that are held outside
-- the queues. A task is named by the address of its Arc.
pub mod Events
pub mod Register
pub mod Run
pub mod Order
pub mod Tidy
pub mod Rule
pub mod Keeps
pub mod Wakeups
pub mod Crossing
pub mod Yielding
pub mod Slots
pub mod End
pub mod Join
pub mod Blocking
pub mod Aborted
pub mod Remain
pub mod Completion
pub mod Lists
pub mod Starving
pub mod Stop
pub mod Clean
pub mod Fit
pub mod Rest
pub mod Retired
pub mod InLine
pub mod Served
mod Tests
mod Scenarios
mod Lifetimes
use epox.Base.{
  ℕ, suc, ◌+◌, ◌-◌, Bool, true, false, ◌||◌, Option, none, some, List, [], ◌∷◌, ◌++◌, ltb,
  if◌then◌else◌, update, mem, is_nil,
}
use epox.Queue.Links.{Ptr}
use epox.Queue.Model.{Model}
use epox.Queue.Push.{pushed}
use epox.Queue.Pop.{popped}
use epox.Queue.Release.{released}
use epox.Waker.{Waker, noop}
use epox.EpollWaker.{EpollWaker}

pub data Priority : Type 0 where
  high normal low : Priority

-- `ExecutorTask` with what the executor sees of the `Task` inside.
pub record TaskCell (V : Type 0) : Type 0 where
  pub priority : Priority
  pub pipe_wr : ℕ
  pub handle_waker : Waker
  pub has_completed : Bool
  pub borrowed : Bool  -- a mutable borrow of `task` is alive: the task is being polled
  pub output : Option V  -- `Inner::output`

-- The addresses at which the queues are pinned.
abbrev pub runq_high : Ptr
runq_high = 1

abbrev pub runq_normal : Ptr
runq_normal = 2

abbrev pub runq_low : Ptr
runq_low = 3

abbrev pub sleepq : Ptr
sleepq = 4

-- `Executor::runq`
abbrev pub runq : Priority → Ptr
runq high = runq_high
runq normal = runq_normal
runq low = runq_low

pub record Executor (F V : Type 0) : Type 0 where
  pub queues : Model
  pub cell : Ptr → TaskCell V
  pub epoll_waker : Ptr → EpollWaker F  -- by the address that is registered with epoll
  pub slots : ℕ  -- the length of `events`
  pub pipe : List Ptr  -- what is written to `pipe_wr` and not yet read
  pub pipe_wr : ℕ
  pub shutdown : Bool
  pub polls : ℕ  -- how often a task was polled, and epoll waited for
  pub waits : ℕ

-- `Option::or_else` over the pops.
abbrev pub or_else : Option Ptr × Model → (Model → Option Ptr × Model) → Option Ptr × Model
or_else (none, m) f = f m
or_else (some t, m) f = (some t, m)

-- What the address of no task holds.
abbrev pub no_task : {V : Type 0} → TaskCell V
no_task = record {
  priority = low;
  pipe_wr = 0;
  handle_waker = noop;
  has_completed = false;
  borrowed = false;
  output = none;
}

-- `Executor::new`. `fd` is the write end of its pipe, and `idle` the registration at the address of
-- none. One slot is for the event of the pipe.
unfoldable pub new : {F V : Type 0} → (fd : ℕ) → (idle : EpollWaker F) → Executor F V
new fd idle = record {
  queues = record { contents = λ _. []; refs = λ _. 0 };
  cell = λ _. no_task;
  epoll_waker = λ _. idle;
  slots = 1;
  pipe = [];
  pipe_wr = fd;
  shutdown = false;
  polls = 0;
  waits = 0;
}

module _ {F V : Type 0} where
  -- `Arc::clone`, and the drop of an Arc.
  abbrev pub cloned : Ptr → Executor F V → Executor F V
  cloned t e = record e {
    queues = record {
      contents = e.queues.contents;
      refs = update e.queues.refs t (e.queues.refs t + 1);
    };
  }

  abbrev pub dropped : Ptr → Executor F V → Executor F V
  dropped t e = record e {
    queues = record {
      contents = e.queues.contents;
      refs = update e.queues.refs t (e.queues.refs t - 1);
    };
  }

  abbrev pub set_cell : Ptr → TaskCell V → Executor F V → Executor F V
  set_cell t c e = record e { cell = update e.cell t c }

  -- `ExecutorTask::is_queued`
  abbrev pub is_queued : Executor F V → Ptr → Bool
  is_queued e t =
      mem t (e.queues.contents runq_high)
      || (mem t (e.queues.contents runq_normal)
          || (mem t (e.queues.contents runq_low) || mem t (e.queues.contents sleepq)))

  -- `Weak::upgrade` finds a task while an Arc of it is held, by a queue or elsewhere.
  abbrev pub is_alive : Executor F V → Ptr → Bool
  is_alive e t = ltb 0 (e.queues.refs t) || is_queued e t

  -- `Executor::enqueue`. The Arc that is passed goes to the queue, or is dropped.
  unfoldable pub enqueue : Ptr → Executor F V → Executor F V
  enqueue t e =
      if (e.cell t).has_completed
      then dropped t e
      else record e { queues = pushed (runq (e.cell t).priority) t e.queues }

  -- `Executor::sleep`
  unfoldable pub sleep : Ptr → Executor F V → Executor F V
  sleep t e = record e { queues = pushed sleepq t e.queues }

  -- `Executor::highest_priority_runnable_task`
  unfoldable pub highest_priority_runnable_task : Executor F V → Option Ptr × Executor F V
  highest_priority_runnable_task e =
      let r =
        or_else (or_else (popped runq_high e.queues) (popped runq_normal)) (popped runq_low) in
      (r.0, record e { queues = r.1 })

  -- `Executor::abort` of the Arc that `Handle::abort` clones.
  unfoldable pub abort : Ptr → Executor F V → Executor F V
  abort t e = record e { queues = released t (cloned t e).queues }

  -- The `ExecutorTask` that `Executor::spawn` makes in a new Arc at `a`.
  abbrev pub allocated : Ptr → Priority → Executor F V → Executor F V
  allocated a p e = record e {
    queues = record { contents = e.queues.contents; refs = update e.queues.refs a 1 };
    cell = update e.cell a (record {
      priority = p;
      pipe_wr = e.pipe_wr;
      handle_waker = noop;
      has_completed = false;
      borrowed = false;
      output = none;
    });
  }

  -- `Executor::spawn`: a clone of the new Arc is enqueued, and the handle keeps the Arc.
  unfoldable pub spawn : Ptr → Priority → Executor F V → Executor F V
  spawn a p e = enqueue a (cloned a (allocated a p e))

  -- `shutdown_executor_unchecked`
  unfoldable pub set_shutdown : Executor F V → Executor F V
  set_shutdown e = record e { shutdown = true }
