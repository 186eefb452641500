-- ===== src/Examples/Tasks/Polls.antt =====
-- One poll of a task that waits for its timer.
use epox.Base.{
  ℕ, ◌≡◌, ◌⊎◌, refl, sym, ◌∙◌, subst, inl, inr, Bool, true, false, some, List, ◌==◌, leb,
  Bool-cases, if◌then◌else◌,
}
use epox.Queue.Links.{Ptr}
use epox.Flags.{Flags}
use epox.Waker.{Waker, task, Poll, pending, ready, Result, ok, err}
use epox.EpollWaker.{IoError, EpollWaker, burst_limit, retry, finish}
use epox.EpollWaker
use epox.Fd.{FdPolled}
use epox.Fd
use epox.Timers.{TimerSetup, start_timer, poll_tick, new_timer, set_timer}
use epox.Executor.{Executor}
use epox.Executor.Events.{Kernel, fine}
use epox.Executor.Register.{drop_fd, epoll_del, new_fd, register, add_or_drop, epoll_add}
use epox.Executor.Register.Same.{new_fd-AreSame}
use epox.Executor.Run.{Action, wakes, registers, polls_fd, act}
use epox.Executor.Fit.{is_ready}
use epox.Programs.Mild.{AreMild}
use epox.Programs.{does}
use epox.Programs.Kept.{Ensures, Ensures_mono}
use epox.Programs.View.{wake_waker-cell}
use epox.Examples.Tasks.{
  Value, Stage, starting, ticking, over, Reading, not_yet, fired, broken, answer_of, timer_of,
  after_tick, ticked, tick, started, timed,
}

abbrev pub IsFine : Reading → Type 0
IsFine (broken n) = ⊥
IsFine _ = Unit {0}

-- The timers can be made, set and read, which the constructors of `Reading` leave uninterrupted.
pub record Work (setup : Ptr → TimerSetup) (reading : ℕ → Ptr → Reading) : Type 0 where
  pub make : (t : Ptr) → (setup t).make ≡ fine
  pub get_flags : (t : Ptr) → (setup t).setup.get_flags ≡ fine
  pub set_flags : (t : Ptr) → (setup t).setup.set_flags ≡ fine
  pub add : (t : Ptr) → (setup t).setup.add ≡ fine
  pub set : (t : Ptr) → (setup t).set ≡ fine
  pub reads : (n : ℕ) (t : Ptr) → IsFine (reading n t)

-- How a poll of a timer may end: a waker is woken only where it is `Pending`.
abbrev pub IsTick : Poll (Result ℕ IoError) → (woken : Bool) → Type 0
IsTick pending woken = Unit {0}
IsTick (ready (ok n)) woken = woken ≡ false
IsTick (ready (err x)) woken = ⊥

pub poll_tick-IsTick :
    {F : Type 0} ⦃flags : Flags F⦄ (r : Reading) (cx : Waker) (w : EpollWaker F)
    → IsFine r
    → (p : FdPolled F (Unit {0}) ℕ) × (poll_tick 0 (λ s. (answer_of r, s)) cx w tt ≡ some p)
      × IsTick p.poll p.woken
unfolding poll_tick Fd.poll_with EpollWaker.poll_with retry finish
poll_tick-IsTick ⦃flags⦄ not_yet cx w well = elim (Bool-cases (flags.is_empty w.events)) [
  | inl idle ↦ rw idle (_, refl, tt)
  | inr news ↦ rw news (elim (Bool-cases (leb burst_limit w.burst)) [
    | inl long ↦ rw long (_, refl, tt)
    | inr short ↦ rw short (_, refl, tt)
  ])
]
poll_tick-IsTick ⦃flags⦄ (fired n) cx w well = elim (Bool-cases (flags.is_empty w.events)) [
  | inl idle ↦ rw idle (_, refl, tt)
  | inr news ↦ rw news (elim (Bool-cases (leb burst_limit w.burst)) [
    | inl long ↦ rw long (_, refl, tt)
    | inr short ↦ rw short (_, refl, refl)
  ])
]
poll_tick-IsTick (broken n) cx w well = absurd well

-- Where the body of a task that waits for its timer stands after a poll, by the answer.
abbrev pub TimedEnd : Value → Poll Value → Stage → Type 0
TimedEnd v pending st = st ≡ ticking
TimedEnd v (ready w) st = (w ≡ v) × (st ≡ over)

-- What such a poll does, gives and leaves of the tasks.
abbrev pub IsTimed :
    {F : Type 0}
    → Value
    → Ptr
    → Executor F Value
    → List (Action F)
    → Poll Value × Stage
    → Executor F Value
    → Type 0
IsTimed v t e as' r e' =
    AreMild (λ s. t == s) (is_ready r.0) as' × (e'.cell ≡ e.cell) × TimedEnd v r.0 r.1

module _ {F : Type 0} ⦃flags : Flags F⦄ (kernel : Kernel F) (setup : Ptr → TimerSetup)
    (reading : ℕ → Ptr → Reading) (work : Work setup reading) where
  ticked-IsTimed :
      (v : Value) (t : Ptr) (p : FdPolled F (Unit {0}) ℕ) (e : Executor F Value)
      → IsTick p.poll p.woken
      → Ensures kernel (ticked setup reading v t (some p)) e (IsTimed v t e)
  unfolding ticked after_tick act drop_fd epoll_del
  ticked-IsTimed v t p e i = split p.poll p.woken i
    where
      split :
          (q : Poll (Result ℕ IoError)) (woken : Bool)
          → IsTick q woken
          → Ensures kernel
              (does (polls_fd (timer_of t) p.epoll_waker) (
                if woken
                then does (wakes (task t)) (after_tick setup reading v t q)
                else after_tick setup reading v t q))
              e
              (IsTimed v t e)
      split pending true i = ((refl, (refl, tt)), wake_waker-cell kernel (task t) _, refl)
      split pending false i = ((refl, tt), refl, refl)
      split (ready (ok n)) true i = cc
      split (ready (ok n)) false i = ((refl, (refl, tt)), refl, (refl, refl))
      split (ready (err x)) woken i = absurd i

  tick-IsTimed :
      (v : Value) (t : Ptr) (e : Executor F Value)
      → Ensures kernel (tick setup reading v t) e (IsTimed v t e)
  unfolding tick
  tick-IsTimed v t e =
      let r =
        poll_tick-IsTick (reading e.polls t) (task t) (e.epoll_waker (timer_of t))
          (work.reads e.polls t) in
      subst (λ x. Ensures kernel (ticked setup reading v t x) e (IsTimed v t e)) (sym r.1)
        (ticked-IsTimed v t r.0 e r.2)

  pub start_timer-fine :
      {V : Type 0} (t : Ptr) (e : Executor F V) → (start_timer (timer_of t) (setup t) e).1 ≡ fine
  unfolding start_timer new_timer set_timer new_fd register add_or_drop epoll_add
  start_timer-fine t e =
      rw (work.make t, work.get_flags t, work.set_flags t, work.add t, work.set t) refl

  -- A poll of a task that waits for its timer does not panic, leaves every task as it is, and ends
  -- with the value once the timer has expired.
  pub timed-IsTimed :
      (v : Value) (t : Ptr) (st : Stage) (e : Executor F Value)
      → (st ≡ starting) ⊎ (st ≡ ticking)
      → Ensures kernel (timed setup reading v t st) e (IsTimed v t e)
  unfolding timed started act
  timed-IsTimed v t st e (inl s) =
      let e1 : Executor F Value =
        act kernel (registers (timer_of t) flags.input (setup t).setup) e in
      let k = new_fd-AreSame (timer_of t) flags.input (setup t).setup e in
      rw s (
        subst (λ x. Ensures kernel (started setup reading v t x) e (IsTimed v t e))
          (sym (start_timer-fine t e))
          (Ensures_mono kernel (tick setup reading v t) e1 (IsTimed v t e1) _
            (λ as' r e' i. ((refl, i.0), i.1 ∙ k.cell, i.2)) (tick-IsTimed v t e1)))
  timed-IsTimed v t st e (inr s) = rw s (tick-IsTimed v t e)
