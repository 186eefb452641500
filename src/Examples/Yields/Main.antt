-- ===== src/Examples/Yields/Main.antt =====
-- What the polls of examples/yield.rs do, and how its run ends.
use epox.Base.{
  ℕ, zero, suc, ◌≡◌, refl, sym, subst, inl, inr, Bool, true, false, some, ◌||◌, ◌==◌, ==_iff, arith,
  Bool-cases, if◌then◌else◌,
}
use epox.Queue.Links.{Ptr}
use epox.Flags.{Flags}
use epox.Waker.{task, Poll, pending, ready, Result, ok, err}
use epox.EpollWaker.{IoError, EpollWaker}
use epox.Fd.{FdPolled}
use epox.Timers.{TimerSetup}
use epox.Executor.{Executor, normal, runq_normal, dropped, new, spawn, enqueue}
use epox.Executor.Events.{Kernel}
use epox.Executor.Tidy.{same-IsTidy, spawn-IsTidy}
use epox.Executor.Keeps.{new-IsTidy}
use epox.Executor.Clean.{same-IsClean, spawn-IsClean}
use epox.Executor.Rest.{new-IsAtRest}
use epox.Executor.Remain.{stands}
use epox.Executor.Run.{wakes, registers, polls_fd, act}
use epox.Programs.{Code, does, Ended, run_system}
use epox.Programs.Going.{IsGoing}
use epox.Programs.Tame.{IsTame, does-IsTame, HasRun, run_system-HasRun}
use epox.Examples.Tasks.{Reading, timer_of}
use epox.Examples.Tasks.Polls.{Work, IsTick, poll_tick-IsTick, start_timer-fine}
use epox.Examples.Yields.{blocking_task}
use epox.Examples.Yields.Program.{
  Stage, starting, left, io_task_steps, io, blocking, io_after_tick, io_ticked, ticks, io_started,
  io_task, staged, steps_of, body, main,
}

module _ {F : Type 0} ⦃flags : Flags F⦄ (kernel : Kernel F) where
  io_ticked-IsTame :
      (rest : Code F (Unit {0}) (Poll (Unit {0}) × Stage)) (n : ℕ) (p : FdPolled F (Unit {0}) ℕ)
      (e : Executor F (Unit {0}))
      → IsTick p.poll p.woken
      → ((e' : Executor F (Unit {0})) → IsTame kernel io rest e')
      → IsTame kernel io (io_ticked rest n (some p)) e
  unfolding io_ticked io_after_tick
  io_ticked-IsTame rest n p e i tame = split p.poll p.woken i
    where
      split :
          (q : Poll (Result ℕ IoError)) (woken : Bool)
          → IsTick q woken
          → IsTame kernel io
              (does (polls_fd (timer_of io) p.epoll_waker) (
                if woken
                then does (wakes (task io)) (io_after_tick rest n q)
                else io_after_tick rest n q))
              e
      split pending true i = (refl, (refl, tt))
      split pending false i = (refl, tt)
      split (ready (ok k)) true i = cc
      split (ready (ok k)) false i =
          does-IsTame kernel io (polls_fd (timer_of io) p.epoll_waker) rest e (λ away. refl)
            (tame _)
      split (ready (err x)) woken i = absurd i

  blocking_task-IsTame :
      (n : ℕ) (e : Executor F (Unit {0}))
      → IsTame kernel blocking (staged (blocking_task (λ u. tt) blocking n)) e
  unfolding blocking_task
  blocking_task-IsTame zero e = tt
  blocking_task-IsTame (suc n) e = (refl, tt)

module _ {F : Type 0} ⦃flags : Flags F⦄ (kernel : Kernel F) (setup : Ptr → TimerSetup)
    (reading : ℕ → ℕ → Reading) (work : Work setup reading) where
  ticks-IsTame : (n : ℕ) (e : Executor F (Unit {0})) → IsTame kernel io (ticks setup reading n) e
  unfolding ticks
  ticks-IsTame zero e = (refl, tt)
  ticks-IsTame (suc n) e =
      let r =
        poll_tick-IsTick (reading e.polls n) (task io) (e.epoll_waker (timer_of io))
          (work.reads e.polls n) in
      subst (λ x. IsTame kernel io (io_ticked (ticks setup reading n) n x) e) (sym r.1)
        (io_ticked-IsTame kernel (ticks setup reading n) n r.0 e r.2 (λ e'. ticks-IsTame n e'))

  io_task-IsTame :
      (st : Stage) (e : Executor F (Unit {0})) → IsTame kernel io (io_task setup reading st) e
  unfolding io_task io_started
  io_task-IsTame starting e =
      subst (λ x. IsTame kernel io (io_started setup reading x) e)
        (sym (start_timer-fine kernel setup reading work io e))
        (does-IsTame kernel io (registers (timer_of io) flags.input (setup io).setup)
          (ticks setup reading io_task_steps) e (λ away. refl)
          (ticks-IsTame io_task_steps
            (act kernel (registers (timer_of io) flags.input (setup io).setup) e)))
  io_task-IsTame (left n) e = ticks-IsTame n e

  body-IsTame :
      (t : Ptr) (st : Stage) (e : Executor F (Unit {0}))
      → IsTame kernel t (body setup reading t st) e
  unfolding body
  body-IsTame t st e = elim (Bool-cases (t == io)) [
    | inl is ↦
        subst (λ x. IsTame kernel x (body setup reading x st) e) (sym ((==_iff t io).0 is))
          (io_task-IsTame st e)
    | inr other ↦ elim (Bool-cases (t == blocking)) [
      | inl is ↦
          subst (λ x. IsTame kernel x (body setup reading x st) e) (sym ((==_iff t blocking).0 is))
            (blocking_task-IsTame kernel (steps_of st) e)
      | inr nobody ↦ rw (other, nobody) tt
    ]
  ]

abbrev pub is_task : Ptr → Bool
is_task u = io == u || blocking == u

module _ {F : Type 0} (fd : ℕ) (idle : EpollWaker F) where
  -- After the first call of `spawn`.
  abbrev io_spawned : Executor F (Unit {0})
  io_spawned = dropped io (spawn io normal (new fd idle))

  main-IsGoing : IsGoing is_task (main fd idle).executor
  unfolding main new spawn enqueue
  main-IsGoing = record {
    tidy =
        same-IsTidy
          (spawn-IsTidy blocking normal io_spawned refl
            (same-IsTidy (spawn-IsTidy io normal _ refl (new-IsTidy fd idle)) refl (λ t. refl)))
          refl (λ t. refl);
    at_rest =
        same-IsClean
          (spawn-IsClean blocking normal io_spawned refl
            (same-IsClean (spawn-IsClean io normal _ refl (new-IsAtRest fd idle)) refl refl))
          refl refl;
    running = refl;
    remains = λ u is. stands runq_normal (ground (arith, is));
  }

-- When the timer of `io_task` can be made, set and read, no read of it is interrupted, and the thread
-- had no other task, then `run` does not end by a panic of a task, and where its loops end,
-- `io_task` and `blocking_task` have both completed, unless `epoll_wait` has failed. This holds
-- whatever events the kernel gives and whenever the timer expires.
pub main-HasRun :
    {F : Type 0} ⦃flags : Flags F⦄ (kernel : Kernel F) (setup : Ptr → TimerSetup)
    (reading : ℕ → ℕ → Reading) (fuel fd : ℕ) (idle : EpollWaker F) {x : Ended F (Unit {0}) Stage}
    → Work setup reading
    → run_system kernel (body setup reading) fuel (main fd idle) ≡ some x
    → HasRun io x × HasRun blocking x
main-HasRun kernel setup reading fuel fd idle work h =
    let tame = body-IsTame kernel setup reading work in
    let go = main-IsGoing fd idle in
    (
      run_system-HasRun kernel (body setup reading) tame is_task fuel io (main fd idle) refl go h,
      run_system-HasRun kernel (body setup reading) tame is_task fuel blocking (main fd idle) refl
          go h,
    )
