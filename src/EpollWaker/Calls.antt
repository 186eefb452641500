-- ===== src/EpollWaker/Calls.antt =====
-- Which call of the closure gives the answer of `poll_with`.
use epox.Base.{
  ℕ, zero, suc, ◌≤◌, arith, true, sym, ◌∙◌, ◌≡◌, ◌≢◌, refl, ◌⊎◌, inl, inr, some, some_eq, subst,
  leb, Bool-cases,
}
use epox.Flags.{Flags}
use epox.Waker.{Waker, pending, ready, Result, ok, err}
use epox.EpollWaker.{
  IoError, interrupted, would_block, other, EpollWaker, ControlFlow, normal, yields, burst_limit,
  Polled, finish, retry, poll_with,
}
use epox.EpollWaker.Outcome.{after_calls, HasOutcome, poll_with-Outcome}

-- `Pending` for EAGAIN, and the answer of the call otherwise.
abbrev pub answer_of : {A : Type 0} → Result A IoError → ControlFlow (Result A IoError)
answer_of (err would_block) = normal pending
answer_of r = normal (ready r)

handed_on : {A : Type 0} (a r : Result A IoError) → normal (ready r) ≡ answer_of a → a ≡ r
handed_on (ok x) r h = cc
handed_on (err interrupted) r h = cc
handed_on (err would_block) r h = cc
handed_on (err (other n)) r h = cc

module _ {F S A : Type 0} where
  -- The first `n` calls are interrupted.
  abbrev pub AreInterrupted : (func : S → F → Result A IoError × S) → F → ℕ → S → Type 0
  AreInterrupted func e zero s = Unit {0}
  AreInterrupted func e (suc n) s =
      ((func s e).0 ≡ err interrupted) × AreInterrupted func e n (func s e).1

module _ {F : Type 0} ⦃flags : Flags F⦄ {S A : Type 0} where
  -- The first call that is not interrupted gives the answer and is the last one.
  abbrev pub LastCall : (func : S → F → Result A IoError × S) → F → S → Polled F S A → Type 0
  LastCall func e s p =
      (n : ℕ) × AreInterrupted func e n s
      × ((func (after_calls func e n s) e).0 ≢ err interrupted)
      × (p.flow ≡ answer_of (func (after_calls func e n s) e).0)
      × (p.state ≡ (func (after_calls func e n s) e).1)

  settles :
      (func : S → F → Result A IoError × S) (cx : Waker) (w : EpollWaker F) (s : S)
      (r : Result A IoError) (s1 : S)
      → func s w.events ≡ (r, s1)
      → r ≢ err interrupted
      → LastCall func w.events s (finish cx w r s1)
  unfolding finish
  settles func cx w s (err would_block) s1 e n = (0, tt, rw e n, rw e refl, rw e refl)
  settles func cx w s (err interrupted) s1 e n = absurd (n refl)
  settles func cx w s (err (other x)) s1 e n = (0, tt, rw e n, rw e refl, rw e refl)
  settles func cx w s (ok a) s1 e n = (0, tt, rw e n, rw e refl, rw e refl)

  retry-LastCall :
      (func : S → F → Result A IoError × S) (cx : Waker) (w : EpollWaker F) (fuel : ℕ) (s : S)
      (r : Result A IoError × S) {p : Polled F S A}
      → func s w.events ≡ r
      → retry r fuel func cx w ≡ some p
      → LastCall func w.events s p
  unfolding retry
  retry-LastCall func cx w zero s (err interrupted, s1) e h = cc
  retry-LastCall func cx w (suc fuel) s (err interrupted, s1) e h =
      let (n, a, k, f, t) = retry-LastCall func cx w fuel s1 (func s1 w.events) refl h in
      (suc n, (rw e refl, rw e a), rw e k, rw e f, rw e t)
  retry-LastCall func cx w fuel s (err would_block, s1) e h =
      subst (LastCall func w.events s) (some_eq h)
        (settles func cx w s (err would_block) s1 e (λ x. cc))
  retry-LastCall func cx w fuel s (err (other x), s1) e h =
      subst (LastCall func w.events s) (some_eq h)
        (settles func cx w s (err (other x)) s1 e (λ y. cc))
  retry-LastCall func cx w fuel s (ok a, s1) e h =
      subst (LastCall func w.events s) (some_eq h) (settles func cx w s (ok a) s1 e (λ y. cc))

  -- No call was made, since no event was at hand or the limit of the burst was met.
  abbrev pub NoCall : EpollWaker F → S → Polled F S A → Type 0
  NoCall w s p =
      (p.state ≡ s)
      × (((flags.is_empty w.events ≡ true) × (p.flow ≡ normal pending))
          ⊎ ((burst_limit ≤ w.burst) × (p.flow ≡ yields)))

  abbrev pub IsAnswered :
      (func : S → F → Result A IoError × S) → Waker → EpollWaker F → S → Polled F S A → Type 0
  IsAnswered func cx w s p = HasOutcome cx w s p × (NoCall w s p ⊎ LastCall func w.events s p)

  poll_with_calls :
      (fuel : ℕ) (func : S → F → Result A IoError × S) (cx : Waker) (w : EpollWaker F) (s : S)
      {p : Polled F S A}
      → poll_with fuel func cx w s ≡ some p
      → NoCall w s p ⊎ LastCall func w.events s p
  unfolding poll_with
  poll_with_calls fuel func cx w s {p} h = elim (Bool-cases (flags.is_empty w.events)) [
    | inl nothing ↦ inl (subst (NoCall w s) (some_eq (rw nothing at h)) (refl, inl (nothing, refl)))
    | inr some_events ↦ elim (Bool-cases (leb burst_limit w.burst)) [
      | inl full ↦ inl (
          subst (NoCall w s) (some_eq (rw (some_events, full) at h))
            (refl, inr (ground arith, refl)))
      | inr below ↦
          inr
            (retry-LastCall func cx w fuel s (func s w.events) refl (rw (some_events, below) at h))
    ]
  ]

  -- What a `poll_with` that comes to an answer leaves: `Pending` registers the waker of the context,
  -- clears the events and ends the burst; `Ready` is given only with events at hand and below the
  -- limit of the burst, and counts one more; a yield is given only with events at hand and the limit
  -- met, and starts a new burst. Without events at hand, or with the limit met, no call of the closure
  -- is made. Else it is called until the first call that is not interrupted, and the answer of that
  -- call is handed on, EAGAIN as `Pending`.
  pub poll_with-IsAnswered :
      (fuel : ℕ) (func : S → F → Result A IoError × S) (cx : Waker) (w : EpollWaker F) (s : S)
      {p : Polled F S A}
      → poll_with fuel func cx w s ≡ some p
      → IsAnswered func cx w s p
  poll_with-IsAnswered fuel func cx w s h =
      (poll_with-Outcome fuel func cx w s h, poll_with_calls fuel func cx w s h)

  -- The answer of a call after calls that were interrupted, and the state of the closure then.
  abbrev pub Gives : (func : S → F → Result A IoError × S) → F → S → Result A IoError → S → Type 0
  Gives func e s r s' =
      (n : ℕ) × AreInterrupted func e n s
      × ((func (after_calls func e n s) e).0 ≡ r)
      × (s' ≡ (func (after_calls func e n s) e).1)

  -- An answer that is `Ready` is one of the closure's.
  pub ready-Gives :
      (func : S → F → Result A IoError × S) (w : EpollWaker F) (s : S) (p : Polled F S A)
      (r : Result A IoError)
      → p.flow ≡ normal (ready r)
      → NoCall w s p ⊎ LastCall func w.events s p
      → Gives func w.events s r p.state
  ready-Gives func w s p r is (inl (k, inl (e, f))) = cc
  ready-Gives func w s p r is (inl (k, inr (e, f))) = cc
  ready-Gives func w s p r is (inr (n, a, k, f, t)) = (n, a, handed_on _ r (sym is ∙ f), t)
