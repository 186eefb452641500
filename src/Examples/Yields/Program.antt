-- ===== src/Examples/Yields/Program.antt =====
-- The program of examples/yield.rs: `io_task` and `blocking_task`.
--
-- The answers of the system while the timer is made, and what a read of it finds at the n-th poll of
-- the executor with a number of ticks left, are arguments.
use epox.Base.{◌*◌, ℕ, zero, suc, Option, none, some, ◌==◌, if◌then◌else◌}
use epox.Queue.Links.{Ptr}
use epox.Flags.{Flags}
use epox.Waker.{task, Poll, pending, ready, Result, ok, err}
use epox.EpollWaker.{IoError, EpollWaker}
use epox.Fd.{FdPolled}
use epox.Timers.{TimerSetup, start_timer, poll_tick}
use epox.Executor.{normal, dropped, new, spawn}
use epox.Executor.Events.{Status, fine, fails}
use epox.Executor.Run.{wakes, registers, deregisters, polls_fd}
use epox.Programs.{Code, gives, does, looks, panics, System}
use epox.Examples.Tasks.{Reading, answer_of, timer_of}
use epox.Examples.Yields.{blocking_task}

-- Where the body of a task stands: at its start, or with a number of steps left.
pub data Stage : Type 0 where
  starting : Stage
  left : ℕ → Stage

abbrev pub io_task_steps : ℕ
io_task_steps = 3

abbrev pub blocking_task_steps : ℕ
blocking_task_steps = io_task_steps * 3

-- The Arcs of the two tasks.
abbrev pub io : Ptr
io = 5

abbrev pub blocking : Ptr
blocking = 6

abbrev Answer : Type 0 → Type 0
Answer F = Code F (Unit {0}) (Poll (Unit {0}) × Stage)

-- What follows `timer.tick().await?`. The caller unwraps the result of `io_task`.
unfoldable pub io_after_tick : {F : Type 0} → Answer F → ℕ → Poll (Result ℕ IoError) → Answer F
io_after_tick rest n pending = gives (pending, left (suc n))
io_after_tick rest n (ready (ok k)) = rest
io_after_tick rest n (ready (err x)) = panics

unfoldable pub io_ticked : {F : Type 0} → Answer F → ℕ → Option (FdPolled F (Unit {0}) ℕ) → Answer F
unfolding io_after_tick
io_ticked rest n none = panics
io_ticked rest n (some p) = does (polls_fd (timer_of io) p.epoll_waker) (
    if p.woken
    then does (wakes (task io)) (io_after_tick rest n p.poll)
    else io_after_tick rest n p.poll)

module _ {F : Type 0} ⦃flags : Flags F⦄ (setup : Ptr → TimerSetup) (reading : ℕ → ℕ → Reading) where
  -- The loop over a number of ticks. The timer is dropped after it.
  unfoldable pub ticks : ℕ → Answer F
  unfolding io_ticked
  ticks zero = does (deregisters (setup io).undo) (gives (ready tt, left zero))
  ticks (suc n) =
      let rest = ticks n in
      looks (λ e. io_ticked rest n (
        poll_tick 0 (λ s. (answer_of (reading e.polls n), s)) (task io)
          (e.epoll_waker (timer_of io)) tt))

  unfoldable pub io_started : Status → Answer F
  unfolding ticks
  io_started fine =
      does (registers (timer_of io) flags.input (setup io).setup) (ticks io_task_steps)
  io_started (fails n) = panics

  unfoldable pub io_task : Stage → Answer F
  unfolding io_started ticks
  io_task starting = looks (λ e. io_started (start_timer (timer_of io) (setup io) e).1)
  io_task (left n) = ticks n

-- `blocking_task` with a start of its own.
abbrev pub staged : {F V : Type 0} → Code F V (Poll V × ℕ) → Code F V (Poll V × Stage)
staged (gives (p, n)) = gives (p, left n)
staged (does x c) = does x (staged c)
staged (looks f) = looks (λ e. staged (f e))
staged panics = panics

abbrev pub steps_of : Stage → ℕ
steps_of starting = blocking_task_steps
steps_of (left n) = n

-- The two tasks by their Arcs. No other address has a task.
unfoldable pub body :
    {F : Type 0} ⦃flags : Flags F⦄
    → (setup : Ptr → TimerSetup) → (reading : ℕ → ℕ → Reading) → Ptr
    → Stage
    → Answer F
unfolding io_task blocking_task
body setup reading t st =
    if t == io
    then io_task setup reading st
    else if t == blocking
    then staged (blocking_task (λ u. tt) blocking (steps_of st))
    else gives (pending, st)

-- The two calls of `spawn` in `main`, whose handles are dropped at once, on the executor of the thread.
unfoldable pub main : {F : Type 0} → (fd : ℕ) → (idle : EpollWaker F) → System F (Unit {0}) Stage
main fd idle = record {
  executor = dropped blocking (spawn blocking normal (dropped io (spawn io normal (new fd idle))));
  stage = λ t. starting;
}
