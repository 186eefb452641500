-- ===== src/Thread/Schedule.antt =====
-- The thread and the task that waits for it, interleaved: a poll of the handle and the change of the
-- state are each made under the mutex, and the thread wakes after it has let go of the mutex.
use epox.Base.{ℕ, ◌≡◌, ◌⊎◌, Bool, true, false, Option, none, some, List, [], ◌∷◌}
use epox.Waker.{Waker, noop, Poll, pending, ready, Result, ok}
use epox.Thread.{State, running, complete, returns, Handle, spawned, thread_main, poll}

-- `last` is the waker of the last poll that answered `Pending`, and `taken` the waker that the
-- thread took out of the state and has still to wake.
pub record World (T : Type 0) : Type 0 where
  pub handle : Handle
  pub last : Option Waker
  pub taken : Option Waker
  pub woken : List Waker
  pub ended : Bool
  pub answers : List (Result T ℕ)

abbrev pub new_world : {T : Type 0} → World T
new_world = record {
  handle = spawned;
  last = none;
  taken = none;
  woken = [];
  ended = false;
  answers = [];
}

-- The closure of the thread returns `v`, at a time of its own.
pub data Step {T : Type 0} (v : T) (w : World T) : World T → Type 0 where
  waits :
      (cx : Waker) {h : Handle}
      → poll (returns v) cx w.handle ≡ some (pending, h)
      → Step v w (record w { handle = h; last = some cx })
  joins :
      (cx : Waker) {h : Handle} {r : Result T ℕ}
      → poll (returns v) cx w.handle ≡ some (ready r, h)
      → Step v w (record w { handle = h; answers = r ∷ w.answers })
  ends :
      {s : State} {o : Option Waker}
      → w.ended ≡ false
      → thread_main (returns v) w.handle.state ≡ some (s, o)
      → Step v w (record w {
        handle = record { state = s; join_handle = w.handle.join_handle };
        taken = o;
        ended = true;
      })
  wakes : (u : Waker) → w.taken ≡ some u → Step v w (record w { taken = none; woken = u ∷ w.woken })

pub data Reach {T : Type 0} (v : T) : World T → Type 0 where
  start : Reach v new_world
  later : {w w' : World T} → Reach v w → Step v w w' → Reach v w'

-- The waker that the state holds is that of the last pending poll, if there was one.
abbrev pub IsLast : Waker → Option Waker → Type 0
IsLast c none = c ≡ noop
IsLast c (some d) = d ≡ c

-- It is about to be woken, or was woken once.
abbrev pub Fate : Waker → Option Waker → List Waker → Type 0
Fate c taken woken = ((taken ≡ some c) × (woken ≡ [])) ⊎ ((taken ≡ none) × (woken ≡ c ∷ []))

-- The value was not answered yet, or once.
abbrev pub Answers : {T : Type 0} → T → Bool → List (Result T ℕ) → Type 0
Answers v joinable answers =
    ((joinable ≡ true) × (answers ≡ [])) ⊎ ((joinable ≡ false) × (answers ≡ ok v ∷ []))

module _ {T : Type 0} (v : T) where
  abbrev pub Phase :
      State → Bool → Option Waker → Option Waker → List Waker → Bool → List (Result T ℕ) → Type 0
  Phase (running c) joinable last taken woken ended answers =
      (ended ≡ false)
      × (taken ≡ none)
      × (woken ≡ [])
      × (answers ≡ [])
      × (joinable ≡ true)
      × IsLast c last
  Phase complete joinable last taken woken ended answers =
      (ended ≡ true) × Answers v joinable answers × (c : Waker) × IsLast c last × Fate c taken woken

  abbrev pub HasPhase : World T → Type 0
  HasPhase w = Phase w.handle.state w.handle.join_handle w.last w.taken w.woken w.ended w.answers

  -- The answer of a poll that is `Ready`, before the others.
  abbrev answered : Poll (Result T ℕ) → List (Result T ℕ) → List (Result T ℕ)
  answered pending as' = as'
  answered (ready r) as' = r ∷ as'
