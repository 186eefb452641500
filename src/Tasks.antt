-- ===== src/Tasks.antt =====
-- How tasks are made: `Builder` and `YieldFuture` of src/task.rs, and the functions of
-- src/executor.rs that spawn.
--
-- A future is what it does at each count of the executor's polls. A text is the list of its bytes.
pub mod Inner
pub mod Checked
pub mod Spawned
pub mod Yield
pub mod Alone
mod Tests
use epox.Base.{
  ℕ, ◌≡◌, Bool, true, false, Option, none, some, List, [], ◌∷◌, ◌++◌, ◌==◌, if◌then◌else◌, update,
}
use epox.Queue.Links.{Ptr}
use epox.Waker.{Waker, Poll, pending, ready, Result, ok, err}
use epox.Executor.{Executor, Priority, normal}
use epox.Executor
use epox.Executor.Run.{Action, wakes, shuts_down, Turn, Futures}

abbrev pub Future : Type 0 → Type 0 → Type 0
Future F V = ℕ → Turn F V

abbrev pub Text : Type 0
Text = List ℕ

pub record Builder (A : Type 0) : Type 0 where
  pub future : A
  pub priority : Priority
  pub spawn_location : ℕ
  pub name : Option Text

pub record Metadata : Type 0 where
  pub spawn_location : ℕ
  pub priority : Priority
  pub spawn_checked : Bool
  pub name : Text

-- An executor with the futures of its tasks and what was noted of them at the spawn.
pub record Machine (F V : Type 0) : Type 0 where
  pub executor : Executor F V
  pub futures : Futures F V
  pub metadata : Ptr → Metadata

-- `Option::unwrap_or_default` of a name.
abbrev pub unwrap_or_default : Option Text → Text
unwrap_or_default none = []
unwrap_or_default (some name) = name

module _ {A : Type 0} where
  -- `Builder::new`, `Builder::priority` and `Builder::name`.
  unfoldable pub new : (location : ℕ) → A → Builder A
  new location future = record {
    future = future;
    priority = normal;
    spawn_location = location;
    name = none;
  }

  unfoldable pub with_priority : Priority → Builder A → Builder A
  with_priority p b = record b { priority = p }

  unfoldable pub with_name : Text → Builder A → Builder A
  with_name n b = record b { name = some n }

  -- `Builder::into_parts`
  unfoldable pub into_parts : Builder A → A × Metadata × Priority
  into_parts b = (
    b.future,
    record {
      spawn_location = b.spawn_location;
      priority = b.priority;
      spawn_checked = true;
      name = unwrap_or_default b.name;
    },
    b.priority,
  )

-- `inspect_err`: what the wrapper of `spawn_checked` does after the future, by how it ended.
abbrev pub inspect_err : {F T X : Type 0} → Poll (Result T X) → List (Action F)
inspect_err (ready (err x)) = shuts_down ∷ []
inspect_err (ready (ok v)) = []
inspect_err pending = []

-- The future that `Builder::spawn_checked` wraps around another.
unfoldable pub checked : {F T X : Type 0} → Future F (Result T X) → Future F (Result T X)
checked future n = record {
  actions = (future n).actions ++ inspect_err (future n).poll;
  poll = (future n).poll;
}

module _ {F V : Type 0} where
  -- `exec(|e| e.spawn(future, priority, meta))`, with the new Arc at `a`.
  unfoldable pub spawn_parts : Ptr → Future F V × Metadata × Priority → Machine F V → Machine F V
  spawn_parts a (future, meta, p) m = record {
    executor = Executor.spawn a p m.executor;
    futures = λ n t. if a == t then future n else m.futures n t;
    metadata = update m.metadata a meta;
  }

  -- `Builder::spawn`
  unfoldable pub build : Ptr → Builder (Future F V) → Machine F V → Machine F V
  unfolding spawn_parts into_parts
  build a b m = spawn_parts a (into_parts b) m

  -- `spawn` and `spawn_with_priority`
  unfoldable pub spawn : Ptr → (location : ℕ) → Future F V → Machine F V → Machine F V
  unfolding build new
  spawn a location future m = build a (new location future) m

  unfoldable pub spawn_with_priority :
      Ptr → (location : ℕ) → Future F V → Priority → Machine F V → Machine F V
  unfolding build new with_priority
  spawn_with_priority a location future p m = build a (with_priority p (new location future)) m

module _ {F T X : Type 0} where
  -- `Builder::spawn_checked`
  unfoldable pub build_checked :
      Ptr → Builder (Future F (Result T X)) → Machine F (Result T X) → Machine F (Result T X)
  unfolding spawn_parts into_parts checked
  build_checked a b m =
      let parts = into_parts b in spawn_parts a (checked parts.0, parts.1, parts.2) m

  -- `spawn_checked` and `spawn_checked_with_priority`
  unfoldable pub spawn_checked :
      Ptr → (location : ℕ) → Future F (Result T X) → Machine F (Result T X) → Machine F (Result T X)
  unfolding build_checked new
  spawn_checked a location future m = build_checked a (new location future) m

  unfoldable pub spawn_checked_with_priority :
      Ptr
      → (location : ℕ) → Future F (Result T X)
      → Priority
      → Machine F (Result T X)
      → Machine F (Result T X)
  unfolding build_checked new with_priority
  spawn_checked_with_priority a location future p m =
      build_checked a (with_priority p (new location future)) m

-- `YieldFuture::poll`, over `yielded`: the answer, what it does, and `yielded` afterwards.
unfoldable pub yield_poll :
    {F : Type 0} → (yielded : Bool) → Waker → Poll (Unit {0}) × List (Action F) × Bool
yield_poll true w = (ready tt, [], true)
yield_poll false w = (pending, wakes w ∷ [], true)
