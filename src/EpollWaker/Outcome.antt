-- ===== src/EpollWaker/Outcome.antt =====
-- What one `poll_with` leaves, by the answer it gives.
use epox.Base.{
  some_eq, subst, ℕ, zero, suc, ◌+◌, ◌≤◌, ◌<◌, ◌≡◌, ◌≢◌, refl, true, false, some, leb, arith,
  Bool-cases, inl, inr,
}
use epox.Flags.{Flags}
use epox.Waker.{Waker, pending, ready, Result, ok, err}
use epox.EpollWaker.{
  IoError, interrupted, would_block, other, EpollWaker, ControlFlow, normal, yields, burst_limit,
  Polled, retry, poll_with,
}

-- A settled answer is neither EINTR nor EAGAIN.
abbrev pub IsSettled : {A : Type 0} → Result A IoError → Type 0
IsSettled r = (r ≢ err interrupted) × (r ≢ err would_block)

module _ {F : Type 0} ⦃flags : Flags F⦄ {S A : Type 0} where
  -- The state of the closure after `n` calls with the same events.
  abbrev pub after_calls : (func : S → F → Result A IoError × S) → F → ℕ → S → S
  after_calls func e zero s = s
  after_calls func e (suc n) s = after_calls func e n (func s e).1

  -- `Pending` registers the context's waker, clears the events and ends the burst. `Ready` carries an
  -- answer that is settled, is given only below the limit, and counts one more. A yield ends a burst
  -- that has met its limit, and makes no call.
  abbrev pub Outcome :
      Waker → EpollWaker F → S → ControlFlow (Result A IoError) → EpollWaker F → S → Type 0
  Outcome cx w s (normal pending) w' s' =
      (w'.waker ≡ cx) × (flags.is_empty w'.events ≡ true) × (w'.burst ≡ 0)
  Outcome cx w s (normal (ready r)) w' s' =
      IsSettled r
      × (w' ≡ record w { burst = w.burst + 1 })
      × (w.burst < burst_limit)
      × (flags.is_empty w.events ≡ false)
  Outcome cx w s yields w' s' =
      (w' ≡ record w { burst = 0 })
      × (s' ≡ s)
      × (burst_limit ≤ w.burst)
      × (flags.is_empty w.events ≡ false)

  abbrev pub HasOutcome : Waker → EpollWaker F → S → Polled F S A → Type 0
  HasOutcome cx w s p = Outcome cx w s p.flow p.epoll_waker p.state

  retry-Outcome :
      (r : Result A IoError × S) (fuel : ℕ) (func : S → F → Result A IoError × S) (cx : Waker)
      (w : EpollWaker F) (s0 : S) {p : Polled F S A}
      → w.burst < burst_limit
      → flags.is_empty w.events ≡ false
      → retry r fuel func cx w ≡ some p
      → HasOutcome cx w s0 p
  unfolding retry
  retry-Outcome (err interrupted, s) zero func cx w s0 b e h = cc
  retry-Outcome (err interrupted, s) (suc fuel) func cx w s0 b e h =
      retry-Outcome (func s w.events) fuel func cx w s0 b e h
  retry-Outcome (err would_block, s) fuel func cx w s0 b e h =
      subst (HasOutcome cx w s0) (some_eq h) (refl, flags.empty_is_empty, refl)
  retry-Outcome (err (other n), s) fuel func cx w s0 b e h =
      subst (HasOutcome cx w s0) (some_eq h) ((λ x. cc, λ x. cc), refl, b, e)
  retry-Outcome (ok a, s) fuel func cx w s0 b e h =
      subst (HasOutcome cx w s0) (some_eq h) ((λ x. cc, λ x. cc), refl, b, e)

  -- Of a `poll_with` that comes to an answer.
  pub poll_with-Outcome :
      (fuel : ℕ) (func : S → F → Result A IoError × S) (cx : Waker) (w : EpollWaker F) (s : S)
      {p : Polled F S A}
      → poll_with fuel func cx w s ≡ some p
      → HasOutcome cx w s p
  unfolding poll_with
  poll_with-Outcome fuel func cx w s h = elim (Bool-cases (flags.is_empty w.events)) [
    | inl nothing ↦ subst (HasOutcome cx w s) (some_eq (rw nothing at h)) (refl, nothing, refl)
    | inr some_events ↦ elim (Bool-cases (leb burst_limit w.burst)) [
      | inl full ↦
          subst (HasOutcome cx w s) (some_eq (rw (some_events, full) at h))
            (refl, refl, ground arith, some_events)
      | inr below ↦
          retry-Outcome (func s w.events) fuel func cx w s (ground arith) some_events
            (rw (some_events, below) at h)
    ]
  ]
