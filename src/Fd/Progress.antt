-- ===== src/Fd/Progress.antt =====
-- A poll of a descriptor never loses its task.
use epox.Base.{ℕ, ◌≡◌, refl, ◌⊎◌, inl, inr, true, false, some, some_eq, subst, Option-cases}
use epox.Flags.{Flags}
use epox.Waker.{Waker, Poll, pending, ready, Result}
use epox.EpollWaker.{IoError, EpollWaker, ControlFlow, normal, yields, Polled}
use epox.EpollWaker
use epox.EpollWaker.Outcome.{Outcome, IsSettled}
use epox.EpollWaker.Calls.{NoCall, LastCall, Gives, ready-Gives, poll_with-IsAnswered}
use epox.Fd.{FdPolled, answer_flow, poll_with}

-- After `Pending` either the task was woken at once, or its waker is registered and an event of
-- any kind will be news. After `Ready` nobody was woken, and the answer is one of the closure's, which
-- had events at hand.
abbrev pub Progress :
    {F S A : Type 0} ⦃flags : Flags F⦄
    → (func : S → F → Result A IoError × S) → Waker
    → EpollWaker F
    → S
    → FdPolled F S A
    → Poll (Result A IoError)
    → Type 0
Progress ⦃flags⦄ func cx w s p pending =
    (p.woken ≡ true) ⊎ ((p.epoll_waker.waker ≡ cx) × (flags.is_empty p.epoll_waker.events ≡ true))
Progress ⦃flags⦄ func cx w s p (ready r) =
    (p.woken ≡ false)
    × (flags.is_empty w.events ≡ false)
    × IsSettled r
    × Gives func w.events s r p.state

module _ {F : Type 0} ⦃flags : Flags F⦄ {S A : Type 0} where
  abbrev pub HasProgress :
      (func : S → F → Result A IoError × S) → Waker → EpollWaker F → S → FdPolled F S A → Type 0
  HasProgress func cx w s p = Progress func cx w s p p.poll

  flow-Progress :
      (func : S → F → Result A IoError × S) (cx : Waker) (w : EpollWaker F) (s : S)
      (flow : ControlFlow (Result A IoError)) (w' : EpollWaker F) (s' : S)
      → Outcome cx w s flow w' s'
      → NoCall w s (record { flow = flow; epoll_waker = w'; state = s' })
        ⊎ LastCall func w.events s (record { flow = flow; epoll_waker = w'; state = s' })
      → HasProgress func cx w s (answer_flow flow w' s')
  flow-Progress func cx w s (normal pending) w' s' o c = inr (o.0, o.1)
  flow-Progress func cx w s (normal (ready r)) w' s' o c = (
    refl,
    o.3,
    o.0,
    ready-Gives func w s (record { flow = normal (ready r); epoll_waker = w'; state = s' }) r refl
        c,
  )
  flow-Progress func cx w s yields w' s' o c = inl refl

  -- A poll of a descriptor that answers `Pending` has woken its task or has registered the task's
  -- waker with no event noted; one that answers `Ready` had an event noted, wakes nobody and hands on
  -- the answer of a call of the closure, the one that came after calls that were interrupted, which is
  -- neither EINTR nor EAGAIN.
  pub poll_with-Progress :
      (fuel : ℕ) (func : S → F → Result A IoError × S) (cx : Waker) (w : EpollWaker F) (s : S)
      {p : FdPolled F S A}
      → poll_with fuel func cx w s ≡ some p
      → HasProgress func cx w s p
  unfolding poll_with
  poll_with-Progress fuel func cx w s h =
      elim (Option-cases (EpollWaker.poll_with fuel func cx w s)) [
        | inl e ↦ absurd (cc)
        | inr (q, e) ↦
            let a = poll_with-IsAnswered fuel func cx w s e in
            subst (HasProgress func cx w s) (some_eq (rw e at h))
              (flow-Progress func cx w s q.flow q.epoll_waker q.state a.0 a.1)
      ]
