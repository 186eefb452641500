-- ===== src/Flush.antt =====
-- `AsyncWriteFd::poll_flush` of src/futures.rs, which waits for a thread that flushes.
--
-- What the thread answers, `tcdrain` or `fsync` by the style, is an argument, and so is whether a
-- thread can be started. An error is its number.
mod Tests
use epox.Base.{ℕ, ◌≡◌, refl, Bool, true, false, Option, none, some, List, [], ◌∷◌, ◌++◌}
use epox.Waker.{Waker, noop, Poll, pending, ready, Result, ok, err}
use epox.Thread.{Closure, returns, State, running, complete, Handle, spawned, thread_main, poll}

pub data FlushStyle : Type 0 where
  tcdrain fsync : FlushStyle

pub record AsyncWriteFd : Type 0 where
  pub flush_handle : Option Handle
  pub flush_style : Option FlushStyle

-- `std::io::Result<()>`
abbrev pub Flushed : Type 0
Flushed = Result (Unit {0}) ℕ

-- `get_or_insert_with`, of `thread::spawn`, which panics (`none`) when no thread can be started.
abbrev pub get_or_spawn : (starts : Bool) → Option Handle → Option Handle
get_or_spawn true none = some spawned
get_or_spawn false none = none
get_or_spawn starts (some h) = some h

-- The answer of the handle: `ready!`, and the `unwrap` that panics (`none`) when the thread did.
unfoldable pub answer_flush :
    FlushStyle → Option (Poll (Result Flushed ℕ) × Handle) → Option (Poll Flushed × AsyncWriteFd)
answer_flush style none = none
answer_flush style (some (pending, h)) =
    some (pending, record { flush_handle = some h; flush_style = some style })
answer_flush style (some (ready (ok r), h)) =
    some (ready r, record { flush_handle = none; flush_style = some style })
answer_flush style (some (ready (err n), h)) = none

-- The poll of the handle.
unfoldable pub poll_thread :
    (FlushStyle → Closure Flushed)
    → Waker
    → FlushStyle
    → Option Handle
    → Option (Poll Flushed × AsyncWriteFd)
unfolding answer_flush
poll_thread work cx style none = none
poll_thread work cx style (some h) = answer_flush style (poll (work style) cx h)

-- `poll_flush` by the style.
unfoldable pub flush_by :
    (starts : Bool)
    → (FlushStyle → Closure Flushed)
    → Waker
    → Option Handle
    → Option FlushStyle
    → Option (Poll Flushed × AsyncWriteFd)
unfolding poll_thread
flush_by starts work cx h none =
    some (ready (ok tt), record { flush_handle = h; flush_style = none })
flush_by starts work cx h (some style) = poll_thread work cx style (get_or_spawn starts h)

-- `AsyncWriteFd::poll_flush`
unfoldable pub poll_flush :
    (starts : Bool)
    → (FlushStyle → Closure Flushed)
    → Waker
    → AsyncWriteFd
    → Option (Poll Flushed × AsyncWriteFd)
unfolding flush_by
poll_flush starts work cx w = flush_by starts work cx w.flush_handle w.flush_style

-- A list of polls that all answer `Pending`, while threads can be started. `none` when one of them
-- does not.
unfoldable pub flush_waits :
    (FlushStyle → Closure Flushed) → List Waker → AsyncWriteFd → Option AsyncWriteFd
unfolding poll_flush
flush_waits work [] w = some w
flush_waits work (cx ∷ cxs) w = elim (poll_flush true work cx w) [
  | none ↦ none
  | some r ↦ elim r.0 [ pending ↦ flush_waits work cxs r.1 | ready x ↦ none ]
]

abbrev pub idle : FlushStyle → AsyncWriteFd
idle style = record { flush_handle = none; flush_style = some style }

abbrev pub flushing : FlushStyle → State → AsyncWriteFd
flushing style s = record {
  flush_handle = some (record { state = s; join_handle = true });
  flush_style = some style;
}

flush_waits-flushing :
    (work : FlushStyle → Closure Flushed) (style : FlushStyle) (cxs : List Waker) (cx cx0 : Waker)
    → flush_waits work (cxs ++ cx ∷ []) (flushing style (running cx0))
      ≡ some (flushing style (running cx))
unfolding flush_waits poll_flush flush_by poll_thread answer_flush poll
flush_waits-flushing work style [] cx cx0 = refl
flush_waits-flushing work style (u ∷ cxs) cx cx0 = flush_waits-flushing work style cxs cx u

-- A flush of a descriptor that has a style starts a thread at its first poll, which panics if no
-- thread can be started. It waits for the thread however often it is polled. The end of the thread
-- wakes the waker of the last poll, the next poll answers what the thread answered, error or not,
-- whether another thread could be started or not, and then no thread is left: a later flush starts a
-- new one and waits again.
pub poll_flush-returns :
    (work : FlushStyle → Closure Flushed) (style : FlushStyle) (r : Flushed) (cxs : List Waker)
    (cx u : Waker) (starts : Bool)
    → work style ≡ returns r
    → (poll_flush false work u (idle style) ≡ none)
      × (flush_waits work (cxs ++ cx ∷ []) (idle style) ≡ some (flushing style (running cx)))
      × (thread_main (returns r) (running cx) ≡ some (complete, some cx))
      × (poll_flush starts work u (flushing style complete) ≡ some (ready r, idle style))
      × (poll_flush true work u (idle style) ≡ some (pending, flushing style (running u)))
unfolding poll_flush flush_by poll_thread answer_flush thread_main poll flush_waits
poll_flush-returns work style r [] cx u starts does = (refl, refl, refl, rw does refl, refl)
poll_flush-returns work style r (c ∷ cxs) cx u starts does =
    (refl, flush_waits-flushing work style cxs cx c, refl, rw does refl, refl)
