-- ===== src/Examples/Yields.antt =====
-- `blocking_task` of examples/yield.rs, in any number of tasks and with any number of steps.
--
-- What a step computes and prints has no effect on the executor.
pub mod Turns
pub mod Loads
pub mod Kept
pub mod Rounds
pub mod Ends
pub mod Program
pub mod Main
mod Tests
use epox.Base.{ℕ, zero, suc, ◌+◌, false, List, [], ◌∷◌}
use epox.Queue.Links.{Ptr}
use epox.Waker.{Poll, pending, ready, task}
use epox.Executor.{Executor, runq_high, runq_normal, runq_low}
use epox.Executor.Order.{tasks}
use epox.Executor.Run.{Action}
use epox.Tasks.{yield_poll}
use epox.Programs.{Code, gives, does}

abbrev pub does_all : {F V A : Type 0} → List (Action F) → Code F V A → Code F V A
does_all [] c = c
does_all (a ∷ as') c = does a (does_all as' c)

-- A poll of a task that has a number of steps to take. A step that is left by `yield_now` is over when
-- the next poll comes, since the future of `yield_now` is ready then.
unfoldable pub blocking_task :
    {F V : Type 0} → (answer : Ptr → V) → Ptr → (steps : ℕ) → Code F V (Poll V × ℕ)
unfolding yield_poll
blocking_task answer t zero = gives (ready (answer t), zero)
blocking_task {F} answer t (suc steps) =
    does_all (yield_poll {F = F} false (task t)).1 (gives (pending, steps))

-- How many polls the tasks of a list take, and those of the run queues.
abbrev pub load : (Ptr → ℕ) → List Ptr → ℕ
load steps [] = 0
load steps (t ∷ ts) = suc (steps t) + load steps ts

abbrev pub loads : {F V : Type 0} → (Ptr → ℕ) → Executor F V → ℕ
loads steps e =
    load steps (tasks e runq_high)
    + (load steps (tasks e runq_normal) + load steps (tasks e runq_low))
