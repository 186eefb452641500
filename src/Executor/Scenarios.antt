-- ===== src/Executor/Scenarios.antt =====
-- Runs of several rounds: one task that ends at its second poll, and three that wake each other.
use epox.Base.{
  ℕ, ◌≡◌, Bool, Option, ◌⊎◌, ◌≤◌, arith, refl, true, false, none, some, [], ◌∷◌, ◌==◌,
  if◌then◌else◌, mem, Bool-cases, inl, inr,
}
use epox.Queue.Links.{Ptr}
use epox.Flags.{Bits, bits_flags}
use epox.Waker.{noop, task, block_on, pending, ready}
use epox.Executor.{
  Executor, low, normal, runq_low, runq_normal, spawn, enqueue, new, highest_priority_runnable_task,
  sleep,
}
use epox.Executor.Events.{
  now, whole, fine, wake, wake_from_pipe, epoll_wait, wake_here, answered, deliver_all,
}
use epox.Executor.Order.{tasks}
use epox.Executor.Run.{
  Turn, Futures, Blocked, returned, panicked, block_round, is_stuck, block_on_loop, wakes, awaits,
  shuts_down, run_loop, round, after_task, when_idle, check, run_task, act, act_all, finish,
  suspend, complete, wake_waker,
}
use epox.Executor.Keeps.{rounds, new-IsTidy}
use epox.Executor.Tidy.{IsTidy, spawn-IsTidy}
use epox.Executor.Remain.{AreSparing, Remains, stands, rounds-Remains}
use epox.Executor.Completion.{run_loop-has_completed}
use epox.Executor.Crossing.{wake-wake_here}
use epox.Executor.Served.{rounds-served}
use epox.Executor.Blocking.Keeps.{left, block_on_loop-IsKept}
use epox.Executor.Stop.{run_loop-shuts_down}
use epox.Executor.Wakeups.{IsLast}
use epox.Executor.Join.{result, poll_handle, polling, acted, poll_handle-run_task}
use epox.Executor.Starving.{pushes_back, Waits, rounds-starve}
use epox.Executor.Tests.{quiet, registered, start, twice, final, ends, fresh}

twice_spares : (n : ℕ) (t : Ptr) → AreSparing 10 (twice n t).actions
twice_spares n t = elim (Bool-cases (n == 0)) [ inl b ↦ rw b (refl, tt) | inr b ↦ rw b tt ]

start_waits : mem 10 (tasks start runq_low) ≡ true
unfolding spawn enqueue new
start_waits = refl

rounds-Remains_example : Remains 10 (rounds quiet 5 twice start)
rounds-Remains_example =
    rounds-Remains quiet 5 10 twice start twice_spares (stands runq_low start_waits)

final_runs : final.shutdown ≡ false
unfolding run_loop round after_task when_idle check run_task act act_all finish suspend complete
    highest_priority_runnable_task spawn new enqueue epoll_wait wake_here wake_waker answered
    deliver_all sleep
final_runs = refl

run_loop-has_completed_example : (final.cell 10).has_completed ≡ true
run_loop-has_completed_example =
    run_loop-has_completed quiet 3 10 twice start
      (spawn-IsTidy 10 low (new 3 (registered noop)) fresh (new-IsTidy 3 (registered noop)))
      twice_spares (stands runq_low start_waits) ends final_runs

-- The tasks 10 and 12 wake 11 and yield.
abbrev three : Executor Bits ℕ
three = record {
  queues = record { contents = λ q. if q == 2 then 10 ∷ 11 ∷ 12 ∷ [] else []; refs = λ _. 0 };
  cell = λ _. record {
    priority = normal;
    pipe_wr = 3;
    handle_waker = noop;
    has_completed = false;
    borrowed = false;
    output = none;
  };
  epoll_waker = λ _. registered noop;
  slots = 1;
  pipe = [];
  pipe_wr = 3;
  shutdown = false;
  polls = 0;
  waits = 0;
}

abbrev eager : Futures Bits ℕ
eager n t = pushes_back 11 t

three_wait : Waits 10 11 12 three
three_wait = record {
  high_empty = refl;
  in_order = refl;
  ready_b = record { normal_priority = refl; live = refl; own = refl };
  ready_a = record { normal_priority = refl; live = refl; own = refl };
  ready_c = record { normal_priority = refl; live = refl; own = refl };
  running = refl;
}

rounds-starve_example :
    (mem 11 (tasks (rounds quiet 100 eager three) runq_normal) ≡ true)
    × (((highest_priority_runnable_task (rounds quiet 100 eager three)).0 ≡ some 10)
        ⊎ ((highest_priority_runnable_task (rounds quiet 100 eager three)).0 ≡ some 12))
rounds-starve_example =
    rounds-starve quiet (λ n timeout room. refl) 100 eager 10 11 12 three (λ n. refl) (λ n. refl)
      refl refl refl three_wait

wake-wake_here_example :
    (e' : Executor Bits ℕ) × (wake quiet whole 9 11 three ≡ some e')
    × (wake_from_pipe e' ≡ (wake_here quiet 11 three, fine))
wake-wake_here_example = wake-wake_here quiet 9 11 three refl refl refl refl refl

-- A task that wakes another and then shuts down.
abbrev stopping : Futures Bits ℕ
stopping n t = record { actions = wakes (task 11) ∷ shuts_down ∷ []; poll = pending }

run_loop-shuts_down_example :
    let c = highest_priority_runnable_task three in
    (run_loop quiet 1 stopping three ≡ some (run_task quiet stopping 10 c.1, fine))
    × ((result 10 (run_task quiet stopping 10 c.1)).0 ≡ none)
unfolding highest_priority_runnable_task
run_loop-shuts_down_example =
    run_loop-shuts_down quiet 0 stopping 10 (wakes (task 11) ∷ []) [] three refl refl refl refl

-- Three tasks of high priority, which yield at every poll.
abbrev line : Executor Bits ℕ
line = record three {
  queues = record { contents = λ q. if q == 1 then 10 ∷ 11 ∷ 12 ∷ [] else []; refs = λ _. 0 };
}

abbrev yielding : Futures Bits ℕ
yielding n t = record { actions = wakes (task t) ∷ []; poll = pending }

rounds-served_example :
    (j : ℕ) × (j ≤ 2)
    × ((highest_priority_runnable_task (rounds quiet j yielding line)).0 ≡ some 12)
rounds-served_example =
    rounds-served quiet (λ n timeout room. refl) 2 12 yielding line (λ n t ne. (rw ne refl, tt))
      (record { stands = refl; near = omega arith; unwatched = λ t. refl })

-- The task 11 waits for 10, which ends at once.
abbrev joining : Futures Bits ℕ
joining n t =
    if t == 11
    then record { actions = awaits 10 (task 11) ∷ []; poll = pending }
    else record { actions = []; poll = ready 7 }

abbrev pair : Executor Bits ℕ
pair = record three {
  queues = record { contents = λ q. if q == 2 then 11 ∷ 10 ∷ [] else []; refs = λ _. 0 };
}

-- The states in which 11 and then 10 is run.
abbrev first : Executor Bits ℕ
first = (highest_priority_runnable_task pair).1

abbrev second : Executor Bits ℕ
second =
    (highest_priority_runnable_task (epoll_wait quiet now (run_task quiet joining 11 first)).0).1

poll_handle-run_task_example :
    (poll_handle quiet 10 (task 11) (polling quiet 11 first)
      ≡ some (pending, act quiet (awaits 10 (task 11)) (polling quiet 11 first)))
    × IsLast 11 (acted quiet [] 10 second) (run_task quiet joining 10 second)
    × (e5 : Executor Bits ℕ) × (poll_handle quiet 10 noop (run_task quiet joining 10 second)
        ≡ some (ready 7, e5))
    × (e6 : Executor Bits ℕ) × (poll_handle quiet 10 noop e5 ≡ some (pending, e6))
unfolding highest_priority_runnable_task epoll_wait answered deliver_all run_task act act_all finish
    suspend sleep
poll_handle-run_task_example =
    poll_handle-run_task quiet joining 10 11 7 noop [] first second refl refl refl refl refl refl
      refl refl refl refl

-- A future that wakes its own waker and is ready at its second poll.
abbrev nudging : ℕ → Turn Bits ℕ
nudging n =
    if n == 0
    then record { actions = wakes (block_on 3) ∷ wakes (task 10) ∷ []; poll = pending }
    else record { actions = []; poll = ready 5 }

abbrev blocked : Option (Blocked Bits ℕ)
blocked = block_on_loop quiet 2 (λ n. false) twice nudging 0 start

abbrev answer : Option (Blocked Bits ℕ) → Blocked Bits ℕ
answer none = panicked start
answer (some r) = r

abbrev answers : Option (Blocked Bits ℕ) → Bool
answers (some (returned v e)) = v == 5
answers _ = false

answered_some : (r : Option (Blocked Bits ℕ)) → answers r ≡ true → r ≡ some (answer r)
answered_some none h = cc
answered_some (some r) h = refl

blocked_answers : answers blocked ≡ true
unfolding block_on_loop is_stuck block_round run_task act act_all finish suspend complete
    highest_priority_runnable_task spawn new enqueue epoll_wait wake_here wake_waker answered
    deliver_all sleep
blocked_answers = refl

nudging_spares : (n : ℕ) → AreSparing 10 (nudging n).actions
nudging_spares n = elim (Bool-cases (n == 0)) [ inl b ↦ rw b (refl, (refl, tt)) | inr b ↦ rw b tt ]

block_on_loop-IsKept_example : IsTidy (left (answer blocked)) × Remains 10 (left (answer blocked))
block_on_loop-IsKept_example =
    block_on_loop-IsKept quiet 10 twice twice_spares (λ n. false) nudging nudging_spares 2 0 start
      (spawn-IsTidy 10 low (new 3 (registered noop)) fresh (new-IsTidy 3 (registered noop)))
      (stands runq_low start_waits) (answered_some blocked blocked_answers)
