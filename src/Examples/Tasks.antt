-- ===== src/Examples/Tasks.antt =====
-- examples/tasks.rs: two tasks that wait for timers, one that awaits both and adds what they give, and
-- one that has nothing to do with the others.
--
-- The answers of the system while the timers are made, and what a read of a timer finds at the n-th
-- poll of the executor, are arguments. What is printed and the durations have no effect on them.
pub mod Polls
pub mod Steps
pub mod Waiting
pub mod Start
pub mod Results
mod Tests
use epox.Base.{
  ℕ, ◌+◌, ◌≡◌, Bool, true, false, ◌||◌, Option, none, some, List, [], ◌∷◌, ◌==◌, if◌then◌else◌,
}
use mathlib.Core.Option
use epox.Queue.Links.{Ptr}
use epox.Flags.{Flags}
use epox.Waker.{Waker, task, Poll, pending, ready, Result, ok, err}
use epox.EpollWaker.{IoError, would_block, other, EpollWaker}
use epox.Fd.{FdPolled}
use epox.Timers.{TimerSetup, start_timer, poll_tick}
use epox.Executor.{Executor, normal, new, spawn}
use epox.Executor.Join.{result}
use epox.Executor.Events.{Kernel, Status, fine, fails}
use epox.Executor.Run.{wakes, aborts, drops, awaits, registers, deregisters, polls_fd}
use epox.Programs.{Code, gives, does, looks, panics, System, Ended, ended, panicked}

-- What the tasks give: an i32 or a text.
pub data Value : Type 0 where
  number : ℕ → Value
  text : List ℕ → Value

-- Where the body of a task stands. `second` keeps the output of the first.
pub data Stage : Type 0 where
  absent starting ticking first over : Stage
  second : ℕ → Stage

-- What a read of a timer finds.
pub data Reading : Type 0 where
  not_yet : Reading
  fired broken : ℕ → Reading

abbrev pub answer_of : Reading → Result ℕ IoError
answer_of not_yet = err would_block
answer_of (fired n) = ok n
answer_of (broken n) = err (other n)

-- The Arcs of the tasks, and the box of the `EpollWaker` of a task's timer.
abbrev pub t1 : Ptr
t1 = 5

abbrev pub t2 : Ptr
t2 = 6

abbrev pub t3 : Ptr
t3 = 7

abbrev pub t4 : Ptr
t4 = 8

abbrev pub timer_of : Ptr → Ptr
timer_of t = t + 100

-- "value"
abbrev pub value : Value
value = text (118 ∷ 97 ∷ 108 ∷ 117 ∷ 101 ∷ [])

module _ {F : Type 0} ⦃flags : Flags F⦄ (setup : Ptr → TimerSetup)
    (reading : ℕ → Ptr → Reading) where
  -- What follows `timer.tick().await.unwrap()`. The timer is dropped at the end of the block.
  unfoldable pub after_tick :
      Value → Ptr → Poll (Result ℕ IoError) → Code F Value (Poll Value × Stage)
  after_tick v t pending = gives (pending, ticking)
  after_tick v t (ready (ok n)) = does (deregisters (setup t).undo) (gives (ready v, over))
  after_tick v t (ready (err x)) = panics

  -- The poll of `tick`, by what `Fd::poll_with` leaves. It needs no fuel since no read is interrupted.
  unfoldable pub ticked :
      Value → Ptr → Option (FdPolled F (Unit {0}) ℕ) → Code F Value (Poll Value × Stage)
  unfolding after_tick
  ticked v t none = panics
  ticked v t (some p) =
      does (polls_fd (timer_of t) p.epoll_waker)
        (if p.woken then does (wakes (task t)) (after_tick v t p.poll) else after_tick v t p.poll)

  unfoldable pub tick : Value → Ptr → Code F Value (Poll Value × Stage)
  unfolding ticked
  tick v t = looks (λ e. ticked v t (
      poll_tick 0 (λ s. (answer_of (reading e.polls t), s)) (task t) (e.epoll_waker (timer_of t))
        tt))

  -- `Timer::new().unwrap()` and `timer.set(…).unwrap()`.
  unfoldable pub started : Value → Ptr → Status → Code F Value (Poll Value × Stage)
  unfolding tick
  started v t fine = does (registers (timer_of t) flags.input (setup t).setup) (tick v t)
  started v t (fails n) = panics

  -- The blocks of t1, t2 and t4. A block that has ended panics when it is polled again.
  unfoldable pub timed : Value → Ptr → Stage → Code F Value (Poll Value × Stage)
  unfolding started tick
  timed v t starting = looks (λ e. started v t (start_timer (timer_of t) (setup t) e).1)
  timed v t ticking = tick v t
  timed v t _ = panics

-- `t2.await`, and the addition. A handle is dropped when it was awaited.
unfoldable pub second_got : {F : Type 0} → ℕ → Option Value → Code F Value (Poll Value × Stage)
second_got a none = gives (pending, second a)
second_got a (some (number b)) = does (drops t2) (gives (ready (number (a + b)), over))
second_got a (some (text s)) = panics

unfoldable pub await_second : {F : Type 0} → ℕ → Code F Value (Poll Value × Stage)
unfolding second_got
await_second a = looks (λ e. does (awaits t2 (task t3)) (second_got a (e.cell t2).output))

-- `t1.await`
unfoldable pub first_got : {F : Type 0} → Option Value → Code F Value (Poll Value × Stage)
unfolding await_second
first_got none = gives (pending, first)
first_got (some (number a)) = does (drops t1) (await_second a)
first_got (some (text s)) = panics

unfoldable pub await_first : {F : Type 0} → Code F Value (Poll Value × Stage)
unfolding first_got
await_first = looks (λ e. does (awaits t1 (task t3)) (first_got (e.cell t1).output))

-- The block of t3.
unfoldable pub sum : {F : Type 0} → Stage → Code F Value (Poll Value × Stage)
unfolding await_first await_second
sum starting = await_first
sum first = await_first
sum (second a) = await_second a
sum _ = panics

-- The tasks by their Arcs. No other address has a task.
unfoldable pub body :
    {F : Type 0} ⦃flags : Flags F⦄
    → (setup : Ptr → TimerSetup) → (reading : ℕ → Ptr → Reading) → Ptr
    → Stage
    → Code F Value (Poll Value × Stage)
unfolding timed sum
body setup reading t s =
    if t == t1
    then timed setup reading (number 20) t1 s
    else if t == t2
    then timed setup reading (number 22) t2 s
    else if t == t3
    then sum s
    else if t == t4
    then timed setup reading value t4 s
    else gives (pending, absent)

-- The four calls of `spawn` in `main`, on the executor of the thread.
unfoldable pub main : {F : Type 0} → (fd : ℕ) → (idle : EpollWaker F) → System F Value Stage
main fd idle = record {
  executor = spawn t4 normal (spawn t3 normal (spawn t2 normal (spawn t1 normal (new fd idle))));
  stage = λ t. if (t == t1 || t == t2) || (t == t3 || t == t4) then starting else absent;
}

-- What `main` prints after `run`: the outputs of t3 and t4. `none` is a panic.
unfoldable pub printed : {F : Type 0} → System F Value Stage → Option (Value × Value)
unfolding result
printed s =
    let r3 = result t3 s.executor in
    Option.bind r3.0 (λ a. Option.map (λ b. (a, b)) (result t4 r3.1).0)

-- The program prints these, unless `run` has failed. No task has panicked.
abbrev pub IsPrinted : {F : Type 0} → Value → Value → Ended F Value Stage → Type 0
IsPrinted a b panicked = ⊥
IsPrinted a b (ended s (fails n)) = Unit {0}
IsPrinted a b (ended s fine) = printed s ≡ some (a, b)
