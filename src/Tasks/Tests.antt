-- ===== src/Tasks/Tests.antt =====
-- Tasks that are spawned_task on a new executor.
use epox.Base.{ℕ, ◌≡◌, refl, true, false, none, some, List, [], ◌∷◌, ◌++◌, ◌==◌, mem, if◌then◌else◌}
use epox.Queue.Links.{Ptr}
use epox.Flags.{Bits, bits, bits_flags}
use epox.Waker.{noop, task, block_on, pending, ready, Result, err}
use epox.Executor.{Executor, normal, low, runq, is_alive, new}
use epox.Executor.Events.{Kernel, events, fine}
use epox.Executor.Order.{tasks}
use epox.Executor.Run.{Futures, round, run_task, block_on_loop, hangs}
use epox.Tasks.Alone.{yields_now, block_on_loop-yield_poll}
use epox.Tasks.{Future, Machine, checked, spawn_with_priority, yield_poll}
use epox.Tasks.Spawned.{spawn_with_priority-last}
use epox.Tasks.Checked.{round-checked}
use epox.Tasks.Yield.{run_task-yield_poll}

abbrev quiet : Kernel Bits
quiet n timeout room = record { answer = events []; arrived = [] }

abbrev idle : Executor Bits (Result ℕ ℕ)
idle = new 3 (record { waker = noop; events = bits false false false; burst = 0 })

-- Pending at the first poll, and then an error.
abbrev failing : Future Bits (Result ℕ ℕ)
failing n =
    if n == 0
    then record { actions = []; poll = pending }
    else record { actions = []; poll = ready (err 5) }

abbrev machine : Machine Bits (Result ℕ ℕ)
machine = record {
  executor = idle;
  futures = λ n t. checked failing n;
  metadata = λ t. record { spawn_location = 0; priority = low; spawn_checked = false; name = [] };
}

idle_alive : is_alive idle 10 ≡ false
unfolding new
idle_alive = refl

abbrev spawned_task : Machine Bits (Result ℕ ℕ)
spawned_task = spawn_with_priority 10 1 failing low machine

spawn_with_priority-last_example :
    (tasks spawned_task.executor (runq low) ≡ tasks idle (runq low) ++ 10 ∷ [])
    × (spawned_task.executor.queues.refs 10 ≡ 1)
    × ((spawned_task.executor.cell 10).priority ≡ low)
    × ((n : ℕ) → spawned_task.futures n 10 ≡ failing n)
    × ((n : ℕ) (t : Ptr) → (10 == t) ≡ false → spawned_task.futures n t ≡ checked failing n)
spawn_with_priority-last_example = spawn_with_priority-last 10 1 failing low machine idle_alive

abbrev second : Executor Bits (Result ℕ ℕ)
second = record idle { polls = 1 }

round-checked_example :
    ((round quiet machine.futures (some 10, second)).1 ≡ some fine)
    × ((round quiet machine.futures (some 10, second)).0.shutdown ≡ true)
    × (((round quiet machine.futures (some 10, second)).0.cell 10).output ≡ some (err 5))
round-checked_example = round-checked quiet failing machine.futures 10 5 second refl refl

-- The tasks 10 and 11 wait in the run queue of normal tasks, and 12 was just taken off it.
abbrev waiting : Executor Bits ℕ
waiting = record {
  queues = record { contents = λ q. if q == 2 then 10 ∷ 11 ∷ [] else []; refs = λ _. 1 };
  cell = λ _. record {
    priority = normal;
    pipe_wr = 3;
    handle_waker = noop;
    has_completed = false;
    borrowed = false;
    output = none;
  };
  epoll_waker = λ _. record { waker = noop; events = bits false false false; burst = 0 };
  slots = 1;
  pipe = [];
  pipe_wr = 3;
  shutdown = false;
  polls = 0;
  waits = 0;
}

abbrev yielding : Futures Bits ℕ
yielding n t = record { actions = (yield_poll false (task t)).1; poll = pending }

run_task-yield_poll_example :
    (ahead : List Ptr) × (tasks (run_task quiet yielding 12 waiting) (runq normal)
      ≡ ahead ++ 12 ∷ [])
    × (mem 11 ahead ≡ true)
    × ((yield_poll {F = Bits} (yield_poll {F = Bits} false (task 12)).2 (task 12)).0 ≡ ready tt)
run_task-yield_poll_example =
    run_task-yield_poll quiet yielding 12 11 waiting refl refl refl refl refl refl refl

-- An executor without tasks whose waits never return.
abbrev alone : Executor Bits (Unit {0})
alone = new 3 (record { waker = noop; events = bits false false false; burst = 0 })

abbrev no_turn : Futures Bits (Unit {0})
no_turn n t = record { actions = []; poll = pending }

block_on_loop-yield_poll_example :
    block_on_loop quiet 2 (λ n. true) no_turn (yields_now (block_on 3)) 0 alone ≡ some (hangs alone)
unfolding new
block_on_loop-yield_poll_example =
    block_on_loop-yield_poll quiet (λ n. true) no_turn 3 0 alone refl refl refl refl
