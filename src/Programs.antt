-- ===== src/Programs.antt =====
-- Futures as programs: what a poll of a task of src/executor.rs does may depend on what it sees of
-- the executor, and on where its own body stands.
mod Tests
pub mod Renew
pub mod Mild
pub mod Going
pub mod Kept
pub mod Tame
pub mod View
use epox.Base.{ℕ, zero, suc, Bool, true, false, Option, none, some, List, [], ◌∷◌, update}
use mathlib.Core.Option
use epox.Queue.Links.{Ptr}
use epox.Flags.{Flags}
use epox.Waker.{Poll, pending, ready}
use epox.Executor.{Executor, set_cell, highest_priority_runnable_task}
use epox.Executor.Events.{Kernel, Status}
use epox.Executor.Run.{Action, Turn, Futures, act, round}

-- The code of one poll: actions, looks at the executor, and an answer or a panic.
pub data Code (F V A : Type 0) : Type 0 where
  gives : A → Code F V A
  does : Action F → Code F V A → Code F V A
  looks : (Executor F V → Code F V A) → Code F V A
  panics : Code F V A

-- The code of a poll of each task, from where its body stands to where it stands then.
abbrev pub Body : Type 0 → Type 0 → Type 0 → Type 0
Body F V S = Ptr → S → Code F V (Poll V × S)

-- An executor whose tasks run bodies.
pub record System (F V S : Type 0) : Type 0 where
  pub executor : Executor F V
  pub stage : Ptr → S

-- How a number of rounds ends.
pub data Ended (F V S : Type 0) : Type 0 where
  ended : System F V S → Status → Ended F V S
  panicked : Ended F V S

module _ {F V : Type 0} ⦃flags : Flags F⦄ (kernel : Kernel F) where
  -- The actions that the code takes from a state of the executor. `none` is a panic.
  unfoldable pub trace : {A : Type 0} → Code F V A → Executor F V → Option (List (Action F) × A)
  trace (gives a) e = some ([], a)
  trace (does x c) e = Option.map (λ r. (x ∷ r.0, r.1)) (trace c (act kernel x e))
  trace (looks f) e = trace (f e) e
  trace panics e = none

  -- The state in which the code of a poll starts.
  abbrev pub begun : Ptr → Executor F V → Executor F V
  begun t e = set_cell t (record (e.cell t) { borrowed = true }) (record e { polls = suc e.polls })

  module _ {S : Type 0} (body : Body F V S) where
    abbrev pub poll_trace : (Ptr → S) → Ptr → Executor F V → Option (List (Action F) × (Poll V × S))
    poll_trace stage t e = trace (body t (stage t)) (begun t e)

    abbrev pub turn_of : List (Action F) × (Poll V × S) → Turn F V
    turn_of r = record { actions = r.0; poll = r.1.0 }

    -- A round of the loops of `run` in which the polled task takes the turn of its code. `none` is a
    -- panic.
    unfoldable pub system_round :
        Option Ptr × Executor F V → (Ptr → S) → Option (System F V S × Option Status)
    system_round (none, e) stage =
        let r = round kernel (λ n u. record { actions = []; poll = pending }) (none, e) in
        some (record { executor = r.0; stage = stage }, r.1)
    system_round (some t, e) stage =
        Option.map
          (λ x.
            let r = round kernel (λ n u. turn_of x) (some t, e) in
            (record { executor = r.0; stage = update stage t x.1.1 }, r.1))
          (poll_trace stage t e)

    -- `run` of the system. `none` means that the fuel ran out.
    unfoldable pub run_system : ℕ → System F V S → Option (Ended F V S)
    unfolding system_round
    run_system zero s = none
    run_system (suc fuel) s =
        elim (system_round (highest_priority_runnable_task s.executor) s.stage) [
          | none ↦ some panicked
          | some r ↦ elim r.1 [ some status ↦ some (ended r.0 status) | none ↦ run_system fuel r.0 ]
        ]
