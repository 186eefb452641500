-- ===== src/Programs/Renew.antt =====
-- `Executor::new` with its errors, and `run` of src/executor.rs.
--
-- A poll of a task panics where its code does: by itself, or since a wake in it fails to write to the
-- pipe of another thread, that of the waker of its handle when it ends included. `run` does not catch
-- a panic.
use epox.Base.{ℕ, ◌≡◌, ◌⊎◌, Option, none, some}
use epox.Queue.Links.{Ptr}
use mathlib.Core.Option
use epox.Flags.{Flags}
use epox.Waker.{Result, ok, err}
use epox.EpollWaker.{EpollWaker}
use epox.Executor.{Executor, new, highest_priority_runnable_task}
use epox.Executor.Events.{Kernel, Status, fine, fails}
use epox.Executor.End.{IsOver}
use epox.Programs.{Body, System, Ended, ended, panicked, poll_trace, system_round, run_system}

-- The answers of the system to `Executor::new`: `pipe2` with the write end, `epoll_create`, and the
-- `epoll_ctl` of the pipe.
pub record Resources : Type 0 where
  pub pipe : Result ℕ ℕ
  pub epoll : Status
  pub add : Status

-- How `Executor::new` ends. `panics` is the `unwrap`.
pub data Creation (F V : Type 0) : Type 0 where
  created : Executor F V → Creation F V
  refused : ℕ → Creation F V
  panics : Creation F V

module _ {F V : Type 0} where
  abbrev pub registered_pipe : ℕ → EpollWaker F → Status → Creation F V
  registered_pipe fd idle fine = created (new fd idle)
  registered_pipe fd idle (fails n) = panics

  abbrev pub with_pipe : Result ℕ ℕ → EpollWaker F → Status → (add : Status) → Creation F V
  with_pipe (err n) idle epoll add = refused n
  with_pipe (ok fd) idle (fails n) add = refused n
  with_pipe (ok fd) idle fine add = registered_pipe fd idle add

  -- `Executor::new`
  unfoldable pub try_new : Resources → EpollWaker F → Creation F V
  try_new r idle = with_pipe r.pipe idle r.epoll r.add

-- How `run` ends: with what it returns and the executor of the thread then, or with a panic.
pub data Ending (F V : Type 0) : Type 0 where
  returns : Status → Executor F V → Ending F V
  unwinds : Ending F V

module _ {F V : Type 0} where
  -- `EXECUTOR.replace(Executor::new()?)` where the loops have ended well. The old executor is dropped
  -- with its tasks, whose descriptors are then taken off the new one: `drop_old`, of the futures.
  unfoldable pub replace :
      (drop_old : Executor F V → Executor F V → Executor F V)
      → Creation F V
      → Executor F V × Status
      → Ending F V
  replace drop_old (created e') (e, fine) = returns fine (drop_old e e')
  replace drop_old (refused n) (e, fine) = returns (fails n) e
  replace drop_old panics (e, fine) = unwinds
  replace drop_old made (e, fails n) = returns (fails n) e

module _ {F V S : Type 0} ⦃flags : Flags F⦄ (kernel : Kernel F) (body : Body F V S) where
  -- What follows the loops. A panic in them leaves `run`.
  abbrev pub after_loops :
      (drop_old : Executor F V → Executor F V → Executor F V)
      → Creation F V
      → Ended F V S
      → Ending F V
  after_loops drop_old made (ended s status) = replace drop_old made (s.executor, status)
  after_loops drop_old made panicked = unwinds

  -- `run`. `none` means that the fuel ran out.
  unfoldable pub run :
      ℕ
      → (drop_old : Executor F V → Executor F V → Executor F V) → Resources
      → EpollWaker F
      → System F V S
      → Option (Ending F V)
  unfolding replace try_new
  run fuel drop_old r idle s =
      Option.map (after_loops drop_old (try_new r idle)) (run_system kernel body fuel s)

  abbrev next_round : System F V S → Option (System F V S × Option Status)
  next_round s = system_round kernel body (highest_priority_runnable_task s.executor) s.stage

  -- Rounds of the loops of `run` from a system to another, of which none ends the loops.
  pub data Rounds : System F V S → System F V S → Type 0 where
    at_start : {s : System F V S} → Rounds s s
    goes_on : {s s1 s2 : System F V S} → next_round s ≡ some (s1, none) → Rounds s1 s2 → Rounds s s2

  -- After some rounds the poll of the task that is chosen panics.
  pub record PollPanics (s : System F V S) : Type 0 where
    pub before : System F V S
    pub task : Ptr
    pub rounds : Rounds s before
    pub chosen : (highest_priority_runnable_task before.executor).0 ≡ some task
    pub poll :
        poll_trace kernel body before.stage task (highest_priority_runnable_task before.executor).1
        ≡ none

  -- After some rounds the loops end in a round that leaves the system `s'`.
  pub record LoopsEnd (s s' : System F V S) (status : Status) : Type 0 where
    pub before : System F V S
    pub rounds : Rounds s before
    pub last : next_round before ≡ some (s', some status)

  -- How `run` ends by its loops and what the system answers.
  pub data Outcome (drop_old : Executor F V → Executor F V → Executor F V) (r : Resources)
      (idle : EpollWaker F) (s : System F V S) : Ending F V → Type 0 where
    renewed :
        (fd : ℕ) (s' : System F V S)
        → LoopsEnd s s' fine
        → IsOver s'.executor
        → r.pipe ≡ ok fd
        → r.epoll ≡ fine
        → r.add ≡ fine
        → Outcome drop_old r idle s (returns fine (drop_old s'.executor (new fd idle)))
    kept_over :
        (n : ℕ) (s' : System F V S)
        → LoopsEnd s s' fine
        → IsOver s'.executor
        → (r.pipe ≡ err n) ⊎ (r.epoll ≡ fails n)
        → Outcome drop_old r idle s (returns (fails n) s'.executor)
    kept :
        (n : ℕ) (s' : System F V S)
        → LoopsEnd s s' (fails n)
        → Outcome drop_old r idle s (returns (fails n) s'.executor)
    unwound :
        (n : ℕ) (s' : System F V S)
        → LoopsEnd s s' fine
        → IsOver s'.executor
        → r.add ≡ fails n
        → Outcome drop_old r idle s unwinds
    poll_unwound : PollPanics s → Outcome drop_old r idle s unwinds

  -- The loops have ended in the system `s'`, or by a panic of a poll.
  abbrev HasEnded : System F V S → Ended F V S → Type 0
  HasEnded s (ended s' status) = LoopsEnd s s' status × (status ≡ fine → IsOver s'.executor)
  HasEnded s panicked = PollPanics s
