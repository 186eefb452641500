-- ===== src/EpollWaker/Burst.antt =====
-- The bound on bursts, and the end of the loop of `poll_with`.
use epox.Base.{
  Option-cases, none, ℕ, zero, suc, ◌+◌, ◌≤◌, ◌≡◌, ◌≢◌, refl, ap, subst, some, leb, arith,
  Bool-cases, inl, inr,
}
use epox.Flags.{Flags}
use epox.Waker.{Waker, ready, Result, ok, err}
use epox.EpollWaker.{
  IoError, interrupted, would_block, other, EpollWaker, normal, burst_limit, Polled, retry,
  poll_with,
}
use epox.EpollWaker.Outcome.{after_calls, Outcome, poll_with-Outcome}

module _ {F : Type 0} ⦃flags : Flags F⦄ where
  -- `n` polls in a row of one registration, by any contexts and closures, each of them `Ready`.
  pub data Readies : ℕ → EpollWaker F → EpollWaker F → Type 1 where
    here : {w : EpollWaker F} → Readies 0 w w
    next :
        {n : ℕ} {w w' : EpollWaker F} {T A : Type 0} (fuel : ℕ)
        (func : T → F → Result A IoError × T) (cx : Waker) (s : T) (p : Polled F T A)
        (r : Result A IoError)
        → Readies n w w'
        → poll_with fuel func cx w' s ≡ some p
        → p.flow ≡ normal (ready r)
        → Readies (suc n) w p.epoll_waker

  Readies-burst :
      {n : ℕ} {w w' : EpollWaker F}
      → w.burst ≤ burst_limit
      → Readies n w w'
      → (w'.burst ≡ n + w.burst) × (n + w.burst ≤ burst_limit)
  Readies-burst b here = (omega arith, omega arith)
  Readies-burst b (next {w'} fuel func cx s p r before run flow) =
      let (_, last, below, _) =
        subst (λ f. Outcome cx w' s f p.epoll_waker p.state) flow
          (poll_with-Outcome fuel func cx w' s run) in
      omega (
        arith,
        (Readies-burst b before).0,
        (Readies-burst b before).1,
        ap (λ x. x.burst) last,
        below,
      )

  -- A registration is polled `Ready` at most as often in a row as is
  -- left of its limit of 20.
  pub Readies-bound :
      {n : ℕ} {w w' : EpollWaker F}
      → w.burst ≤ burst_limit
      → Readies n w w'
      → n + w.burst ≤ burst_limit
  Readies-bound b r = omega (arith, (Readies-burst b r).1)

module _ {F : Type 0} ⦃flags : Flags F⦄ {S A : Type 0} where
  retry-total :
      (func : S → F → Result A IoError × S) (cx : Waker) (w : EpollWaker F) (fuel n : ℕ) (s : S)
      (r : Result A IoError × S)
      → func s w.events ≡ r
      → n ≤ fuel
      → (func (after_calls func w.events n s) w.events).0 ≢ err interrupted
      → (p : Polled F S A) × (retry r fuel func cx w ≡ some p)
  unfolding retry
  retry-total func cx w zero zero s (err interrupted, s1) e le settled =
      absurd (settled (ap (λ x. x.0) e))
  retry-total func cx w zero (suc n) s (err interrupted, s1) e le settled = absurd (omega arith)
  retry-total func cx w (suc fuel) zero s (err interrupted, s1) e le settled =
      absurd (settled (ap (λ x. x.0) e))
  retry-total func cx w (suc fuel) (suc n) s (err interrupted, s1) e le settled =
      retry-total func cx w fuel n s1 (func s1 w.events) refl (omega arith) (
        subst (λ x. (func (after_calls func w.events n x.1) w.events).0 ≢ err interrupted) e
          settled)
  retry-total func cx w fuel n s (err would_block, s1) e le settled = (_, refl)
  retry-total func cx w fuel n s (err (other x), s1) e le settled = (_, refl)
  retry-total func cx w fuel n s (ok a, s1) e le settled = (_, refl)

  poll_with-ne-none :
      (func : S → F → Result A IoError × S) (cx : Waker) (w : EpollWaker F) (fuel n : ℕ) (s : S)
      → n ≤ fuel
      → (func (after_calls func w.events n s) w.events).0 ≢ err interrupted
      → poll_with fuel func cx w s ≢ none
  unfolding poll_with
  poll_with-ne-none func cx w fuel n s le settled = elim (Bool-cases (flags.is_empty w.events)) [
    | inl nothing ↦ rw nothing (λ e. cc)
    | inr some_events ↦ elim (Bool-cases (leb burst_limit w.burst)) [
      | inl full ↦ rw (some_events, full) (λ e. cc)
      | inr below ↦
          let found = retry-total func cx w fuel n s (func s w.events) refl le settled in
          rw (some_events, below, found.1) (λ e. cc)
    ]
  ]

  -- If one of the first `fuel + 1` calls of the closure is not interrupted, `poll_with` comes to an
  -- answer.
  poll_with-total :
      (func : S → F → Result A IoError × S) (cx : Waker) (w : EpollWaker F) (fuel n : ℕ) (s : S)
      → n ≤ fuel
      → (func (after_calls func w.events n s) w.events).0 ≢ err interrupted
      → (p : Polled F S A) × (poll_with fuel func cx w s ≡ some p)
  poll_with-total func cx w fuel n s le settled = elim (Option-cases (poll_with fuel func cx w s)) [
    | inl e ↦ absurd (poll_with-ne-none func cx w fuel n s le settled e)
    | inr found ↦ found
  ]
