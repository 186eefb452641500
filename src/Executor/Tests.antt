-- ===== src/Executor/Tests.antt =====
-- An executor with two tasks: 10 waits in the run queue of normal tasks and 11 sleeps.
use epox.Base.{
  ltb, ℕ, ◌≡◌, refl, Bool, true, false, Option, none, some, [], ◌∷◌, ◌==◌, if◌then◌else◌, mem,
}
use epox.Queue.Links.{Ptr, null}
use epox.Flags.{Bits, bits, bits_flags}
use epox.Waker.{Waker, noop, task, pending, ready}
use epox.EpollWaker.{EpollWaker}
use epox.Executor.{
  Executor, TaskCell, normal, low, runq, is_alive, abort, enqueue, sleep, spawn, new,
  highest_priority_runnable_task,
}
use epox.Executor.Events.{
  Event, events, answered, deliver_all, Kernel, Timeout, Status, fine, fails, whole, bad_descriptor,
  refused, notify, wake_weak, wake_from_pipe, wake, wake_here, epoll_wait, wake_block_on, Written,
}
use epox.Executor.Register.{drop_fd, Setup, new_fd}
use epox.Executor.Run.{
  Turn, wake_waker, wakes, Futures, complete, run_task, run_loop, round, after_task, when_idle,
  check, act, act_all, finish, suspend,
}
use epox.Executor.Order.{Chosen, highest_priority_runnable_task-Chosen}
use epox.Executor.Tidy.{IsTidy, spawn-IsTidy}
use epox.Executor.Keeps.{rounds, rounds-IsTidy, new-IsTidy}
use epox.Executor.Wakeups.{IsLast, notify-IsLast, wake-wake_from_pipe, wake_block_on-wake_from_pipe}
use epox.Executor.Yielding.{run_task-has_completed}
use epox.Executor.Slots.{run_loop-drop_fd}
use epox.Executor.Aborted.{abort-wake_weak}

-- A kernel that has no event.
abbrev pub quiet : Kernel Bits
quiet n timeout room = record { answer = events []; arrived = [] }

abbrev cell_of : Bool → TaskCell ℕ
cell_of polled = record {
  priority = normal;
  pipe_wr = 3;
  handle_waker = noop;
  has_completed = false;
  borrowed = polled;
  output = none;
}

abbrev pub registered : Waker → EpollWaker Bits
registered w = record { waker = w; events = bits false false false; burst = 0 }

abbrev busy : (polled : Bool) → Waker → Executor Bits ℕ
busy polled w = record {
  queues = record {
    contents = λ q. if q == 2 then 10 ∷ [] else if q == 4 then 11 ∷ [] else [];
    refs = λ _. 1;
  };
  cell = λ _. cell_of polled;
  epoll_waker = λ _. registered w;
  slots = 1;
  pipe = [];
  pipe_wr = 3;
  shutdown = false;
  polls = 0;
  waits = 0;
}

abbrev readable : Event Bits
readable = record { key = 20; flags = bits true false false }

highest_priority_runnable_task-Chosen_example :
    Chosen (busy false noop) (highest_priority_runnable_task (busy false noop))
highest_priority_runnable_task-Chosen_example =
    highest_priority_runnable_task-Chosen (busy false noop)

notify-IsLast_example :
    IsLast 11 (busy false (task 11)) (notify readable (busy false (task 11)))
    × (bits_flags.contains
          ((notify readable (busy false (task 11))).epoll_waker 20).events
          readable.flags
        ≡ true)
notify-IsLast_example = notify-IsLast readable (busy false (task 11)) 11 refl refl refl refl refl

wake-wake_from_pipe_example :
    ((e' : Executor Bits ℕ) × (wake quiet whole 9 11 (busy false noop) ≡ some e')
      × IsLast 11 (busy false noop) (wake_from_pipe e').0
      × ((wake_from_pipe e').0.pipe ≡ [])
      × ((wake_from_pipe e').1 ≡ fine))
    × (wake quiet bad_descriptor 9 11 (busy false noop) ≡ some (busy false noop))
    × ((n : ℕ) → wake quiet (refused n) 9 11 (busy false noop) ≡ none)
wake-wake_from_pipe_example =
    wake-wake_from_pipe quiet 9 11 (busy false noop) refl refl refl refl refl

wake_block_on-wake_from_pipe_example :
    ((written : Written)
      → wake_block_on written (busy false noop).pipe_wr (busy false noop) ≡ some (busy false noop))
    × ((e' : Executor Bits ℕ) × (wake_block_on whole 9 (busy false noop) ≡ some e')
        × (e'.pipe ≡ null ∷ [])
        × (wake_from_pipe e' ≡ (busy false noop, fine)))
    × (wake_block_on bad_descriptor 9 (busy false noop) ≡ some (busy false noop))
    × ((n : ℕ) → wake_block_on (refused n) 9 (busy false noop) ≡ none)
wake_block_on-wake_from_pipe_example = wake_block_on-wake_from_pipe 9 (busy false noop) refl refl

-- Each task wakes itself and ends at once.
abbrev hasty : Futures Bits ℕ
hasty n t = record { actions = wakes (task t) ∷ []; poll = ready 7 }

run_task-has_completed_example :
    (((run_task quiet hasty 11 (busy false noop)).cell 11).has_completed ≡ true)
    × (mem 11 ((run_task quiet hasty 11 (busy false noop)).queues.contents (runq normal)) ≡ true)
run_task-has_completed_example =
    run_task-has_completed quiet hasty 11 7 (busy false noop) refl refl refl refl refl

abbrev setup : Setup
setup = record { get_flags = fine; set_flags = fine; add = fails 9; undo = fails 9 }

abbrev registers : Executor Bits ℕ × Status
registers = new_fd 20 (bits true false false) setup (busy false noop)

abbrev asleep : Executor Bits ℕ
asleep = record (busy false noop) {
  queues = record { contents = λ q. if q == 4 then 11 ∷ [] else []; refs = λ _. 1 };
}

run_loop-drop_fd_example :
    (run_loop quiet 9 hasty (drop_fd (fails 2) asleep) ≡ none)
    × ((timeout : Timeout)
        → epoll_wait quiet timeout (drop_fd (fails 2) asleep) ≡ (drop_fd (fails 2) asleep, fine))
run_loop-drop_fd_example = run_loop-drop_fd quiet 9 hasty (fails 2) asleep refl refl refl refl refl

abbrev aborted : Executor Bits ℕ
aborted = abort 11 (busy false noop)

abort-wake_weak_example :
    ((q : Ptr) → mem 11 (aborted.queues.contents q) ≡ false)
    × ((q u : Ptr)
        → (11 == u) ≡ false
        → mem u (aborted.queues.contents q) ≡ mem u ((busy false noop).queues.contents q))
    × ((p : Ptr) → aborted.queues.refs p ≡ (busy false noop).queues.refs p)
    × (mem 11 ((wake_weak 11 aborted).queues.contents (runq normal)) ≡ true)
abort-wake_weak_example = abort-wake_weak 11 (busy false noop) refl refl

-- A future that is ready at its third poll.
abbrev third : ℕ → Turn Bits ℕ
third n =
    if ltb n 2
    then record { actions = wakes (task 11) ∷ []; poll = pending }
    else record { actions = []; poll = ready 5 }

-- One task is spawned on a new executor, is polled twice and ends.
abbrev pub start : Executor Bits ℕ
start = spawn 10 low (new 3 (registered noop))

abbrev pub twice : Futures Bits ℕ
twice n t =
    if n == 0
    then record { actions = wakes (task t) ∷ []; poll = pending }
    else record { actions = []; poll = ready 7 }

abbrev got : Option (Executor Bits ℕ × Status) → Executor Bits ℕ × Status
got none = (start, fine)
got (some r) = r

abbrev pub final : Executor Bits ℕ
final = (got (run_loop quiet 3 twice start)).0

abbrev ends_well : Option (Executor Bits ℕ × Status) → Bool
ends_well none = false
ends_well (some (e, fine)) = true
ends_well (some (e, fails n)) = false

got_fine : (r : Option (Executor Bits ℕ × Status)) → ends_well r ≡ true → r ≡ some ((got r).0, fine)
got_fine none h = cc
got_fine (some (e, fine)) h = refl
got_fine (some (e, fails n)) h = cc

ends_well-start : ends_well (run_loop quiet 3 twice start) ≡ true
unfolding run_loop round after_task when_idle check run_task act act_all finish suspend complete
    highest_priority_runnable_task spawn new enqueue epoll_wait wake_here wake_waker answered
    deliver_all sleep
ends_well-start = refl

pub ends : run_loop quiet 3 twice start ≡ some (final, fine)
ends = got_fine (run_loop quiet 3 twice start) ends_well-start

pub fresh : is_alive (new {F = Bits} {V = ℕ} 3 (registered noop)) 10 ≡ false
unfolding new
fresh = refl

rounds-IsTidy_example : IsTidy (rounds quiet 2 twice start)
rounds-IsTidy_example =
    rounds-IsTidy quiet 2 twice start
      (spawn-IsTidy 10 low (new 3 (registered noop)) fresh (new-IsTidy 3 (registered noop)))
