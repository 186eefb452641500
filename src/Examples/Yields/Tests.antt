-- ===== src/Examples/Yields/Tests.antt =====
-- Two tasks, of two and of three steps.
use epox.Base.{
  Option, ℕ, ◌≡◌, refl, true, false, none, some, [], ◌==◌, arith, if◌then◌else◌, Bool-cases, inl,
  inr,
}
use epox.Queue.Links.{Ptr}
use epox.Flags.{Bits, bits, bits_flags}
use epox.EpollWaker.{EpollWaker}
use epox.Waker.{noop}
use epox.Executor.{
  Executor, low, normal, runq_low, new, spawn, enqueue, sleep, highest_priority_runnable_task,
}
use epox.Executor.Events.{Kernel, events, fine}
use epox.Executor.Keeps.{new-IsTidy}
use epox.Executor.Tidy.{spawn-IsTidy}
use epox.Executor.Clean.{spawn-IsClean}
use epox.Executor.Rest.{new-IsAtRest}
use epox.Executor.Remain.{stands}
use epox.EpollWaker
use epox.Fd
use epox.Timers.{TimerSetup, start_timer, new_timer, set_timer, poll_tick}
use epox.Executor.Events.{
  wake_here, epoll_wait, answered, deliver_all, notify, wake_if_task, wake_weak,
}
use epox.Executor.Register.{new_fd, drop_fd, register, add_or_drop, epoll_add, epoll_del}
use epox.Executor.Run.{
  round, after_task, when_idle, check, run_task, act, act_all, finish, suspend, complete,
  wake_waker,
}
use epox.Tasks.{yield_poll}
use epox.Programs.{System, Ended, ended, panicked, run_system, system_round, trace}
use epox.Examples.Tasks.{Reading, fired}
use epox.Examples.Tasks.Polls.{Work}
use epox.Examples.Yields.Program.{
  Stage, io, blocking, body, main, io_task, io_started, ticks, io_ticked, io_after_tick,
}
use epox.Examples.Yields.Main.{main-HasRun}
use epox.Programs.Going.{IsGoing}
use epox.Examples.Yields.{blocking_task}
use epox.Examples.Yields.Ends.{run_system-ends}
use epox.Examples.Yields.Kept.{IsYielding}

-- A kernel that has no event.
abbrev quiet : Kernel Bits
quiet n timeout room = record { answer = events []; arrived = [] }

abbrev idle : EpollWaker Bits
idle = record { waker = noop; events = bits false false false; burst = 0 }

abbrev two : Executor Bits ℕ
two = spawn 11 normal (spawn 10 low (new 3 idle))

abbrev steps : Ptr → ℕ
steps t = if t == 10 then 2 else 3

two-IsGoing : IsGoing (λ x. 10 == x) two
unfolding spawn new enqueue
two-IsGoing = record {
  tidy = spawn-IsTidy 11 normal _ refl (spawn-IsTidy 10 low _ refl (new-IsTidy 3 idle));
  at_rest = spawn-IsClean 11 normal _ refl (spawn-IsClean 10 low _ refl (new-IsAtRest 3 idle));
  running = refl;
  remains = λ u is. stands runq_low (ground (arith, is));
}

two-IsYielding : IsYielding (λ x. 10 == x) two
unfolding spawn new enqueue
two-IsYielding = record {
  going = two-IsGoing;
  awake = refl;
  unwatched = λ u. elim (Bool-cases (11 == u)) [
    | inl a ↦ rw a refl
    | inr a ↦ elim (Bool-cases (10 == u)) [ inl b ↦ rw (a, b) refl | inr b ↦ rw (a, b) refl ]
  ];
  own = λ u q i. elim (Bool-cases (11 == u)) [
    | inl a ↦ rw a refl
    | inr a ↦ elim (Bool-cases (10 == u)) [
      | inl b ↦ rw (a, b) refl
      | inr b ↦ ground (arith, i, a, b)
    ]
  ];
}

abbrev started : System Bits ℕ ℕ
started = record { executor = two; stage = steps }

-- Seven polls and the last round.
run_system-ends_example :
    (run_system quiet (blocking_task (λ t. t)) 7 started ≡ none)
    × ((s : System Bits ℕ ℕ) × (run_system quiet (blocking_task (λ t. t)) 8 started
          ≡ some (ended s fine))
        × ((s.executor.cell 10).has_completed ≡ true))
unfolding spawn new enqueue
run_system-ends_example =
    run_system-ends quiet (λ n timeout room. refl) (λ t. t) steps 10 two two-IsYielding

-- The whole program, when the timer has expired before each read.
abbrev well : Ptr → TimerSetup
well t = record {
  make = fine;
  setup = record { get_flags = fine; set_flags = fine; add = fine; undo = fine };
  set = fine;
  undo = fine;
}

abbrev always : ℕ → ℕ → Reading
always n left = fired 1

always-Work : Work well always
always-Work = record {
  make = λ t. refl;
  get_flags = λ t. refl;
  set_flags = λ t. refl;
  add = λ t. refl;
  set = λ t. refl;
  reads = λ n t. tt;
}

abbrev finally : Option (Ended Bits (Unit {0}) Stage)
finally = run_system quiet (body well always) 14 (main 3 idle)

abbrev system_of : Option (Ended Bits (Unit {0}) Stage) → System Bits (Unit {0}) Stage
system_of none = main 3 idle
system_of (some panicked) = main 3 idle
system_of (some (ended s status)) = s

finally_fine : finally ≡ some (ended (system_of finally) fine)
unfolding run_system system_round trace round after_task when_idle check run_task act act_all finish
    suspend complete wake_waker highest_priority_runnable_task spawn new enqueue sleep epoll_wait
    wake_here answered deliver_all notify wake_if_task wake_weak new_fd drop_fd register add_or_drop
    epoll_add epoll_del start_timer new_timer set_timer poll_tick Fd.poll_with EpollWaker.poll_with
    EpollWaker.retry EpollWaker.finish EpollWaker.new body main io_task io_started ticks io_ticked
    io_after_tick blocking_task yield_poll
finally_fine = refl

main-HasRun_example :
    (((system_of finally).executor.cell io).has_completed ≡ true)
    × (((system_of finally).executor.cell blocking).has_completed ≡ true)
main-HasRun_example = main-HasRun quiet well always 14 3 idle always-Work finally_fine
