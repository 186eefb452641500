-- ===== src/Timers/Outcome.antt =====
-- What a poll of a `Timeout` means.
use epox.Base.{
  ℕ, ◌≡◌, refl, ◌⊎◌, inl, inr, Bool, true, false, none, some, some_eq, subst, Option-cases,
}
use epox.Flags.{Flags}
use epox.Waker.{Waker, Poll, pending, ready, Result, ok, err}
use epox.EpollWaker.{IoError, EpollWaker}
use epox.Fd.{FdPolled}
use epox.Fd
use epox.EpollWaker.Outcome.{IsSettled}
use epox.EpollWaker.Calls.{Gives}
use epox.Fd.Progress.{HasProgress, poll_with-Progress}
use epox.Timers.{TimeoutPolled, expired, ticked, poll_tick, after_future, poll_timeout}

module _ {F S I A : Type 0} ⦃flags : Flags F⦄ where
  -- The output of the future is handed on and the timer is left alone, also when it has expired. With
  -- the future pending, `Err` is answered when the timer's read was settled, and `Pending` when the
  -- timer has woken the task or its registration has the task's waker and no event noted.
  abbrev pub TimeoutOutcome :
      (read : S → Result ℕ IoError × S)
      → Waker
      → Poll A × I
      → EpollWaker F
      → S
      → TimeoutPolled F S I A
      → Type 0
  TimeoutOutcome read cx (ready a, i) w s p =
      (p.poll ≡ ready (ok a)) × (p.epoll_waker ≡ w) × (p.state ≡ s) × (p.woken ≡ false)
  TimeoutOutcome read cx (pending, i) w s p =
      (p.future ≡ i)
      × (((p.poll ≡ ready (err tt))
            × (p.woken ≡ false)
            × (flags.is_empty w.events ≡ false)
            × ((r : Result ℕ IoError) × IsSettled r
                × Gives (λ s events. read s) w.events s r p.state))
          ⊎ ((p.poll ≡ pending)
              × ((p.woken ≡ true)
                  ⊎ ((p.epoll_waker.waker ≡ cx) × (flags.is_empty p.epoll_waker.events ≡ true)))))

  tick_outcome :
      (read : S → Result ℕ IoError × S) (cx : Waker) (i : I) (w : EpollWaker F) (s : S)
      (w' : EpollWaker F) (s' : S) (woken : Bool) (p : Poll (Result ℕ IoError))
      → HasProgress
          (λ s events. read s)
          cx
          w
          s
          (record { poll = p; epoll_waker = w'; state = s'; woken = woken })
      → TimeoutOutcome read cx
          (pending, i)
          w
          s
          (record { poll = expired p; future = i; epoll_waker = w'; state = s'; woken = woken })
  tick_outcome read cx i w s w' s' woken (ready r) g = (refl, inl (refl, g.0, g.1, (r, g.2, g.3)))
  tick_outcome read cx i w s w' s' woken pending g = (refl, inr (refl, g))

  after_future-TimeoutOutcome :
      (fuel : ℕ) (read : S → Result ℕ IoError × S) (cx : Waker) (r : Poll A × I) (w : EpollWaker F)
      (s : S) {p : TimeoutPolled F S I A}
      → after_future fuel read cx r w s ≡ some p
      → TimeoutOutcome read cx r w s p
  unfolding after_future poll_tick
  after_future-TimeoutOutcome fuel read cx (ready a, i) w s h =
      subst (TimeoutOutcome read cx (ready a, i) w s) (some_eq h) (refl, refl, refl, refl)
  after_future-TimeoutOutcome fuel read cx (pending, i) w s {p} h =
      elim (Option-cases (Fd.poll_with fuel (λ s events. read s) cx w s)) [
        | inl e ↦ absurd (let x : none ≡ some p = rw (e, ticked) at h in cc)
        | inr (q, e) ↦
            subst (TimeoutOutcome read cx (pending, i) w s) (some_eq (rw (e, ticked) at h)) (
              tick_outcome read cx i w s q.epoll_waker q.state q.woken q.poll
                (poll_with-Progress fuel (λ s events. read s) cx w s e))
      ]

  -- A poll of a `Timeout` that comes to an answer: the output of a future that is ready is handed on,
  -- and the timer is not polled, also when it has expired. While the future is pending, `Err` is
  -- answered only when an event of the timer was noted and its read has ended, with an error or not,
  -- after reads that were interrupted. `Pending` is answered only when the timer has woken the task,
  -- or the registration of the timer has the task's waker and no event noted.
  pub poll_timeout-TimeoutOutcome :
      (fuel : ℕ) (future : Waker → I → Poll A × I) (read : S → Result ℕ IoError × S) (cx : Waker)
      (i : I) (w : EpollWaker F) (s : S) {p : TimeoutPolled F S I A}
      → poll_timeout fuel future read cx i w s ≡ some p
      → TimeoutOutcome read cx (future cx i) w s p
  unfolding poll_timeout
  poll_timeout-TimeoutOutcome fuel future read cx i w s h =
      after_future-TimeoutOutcome fuel read cx (future cx i) w s h
