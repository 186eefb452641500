-- ===== src/Executor/Fit.antt =====
-- What the actions of a poll do to tasks that have completed.
use epox.Base.{
  ◌≡◌, refl, sym, ◌∙◌, ap, inl, inr, Bool, true, false, not, ◌&&◌, Option, none, some, List, [],
  ◌∷◌, ◌==◌, arith, Bool-cases,
}
use epox.Queue.Links.{Ptr}
use epox.Flags.{Flags}
use epox.Waker.{Waker, noop, task, block_on, foreign, Poll, pending, ready}
use epox.Executor.{Executor, cloned, is_alive, set_shutdown}
use epox.Executor.Events.{Kernel, Timeout, now, epoll_wait, wake_here}
use epox.Executor.Rule.{epoll_wait_rule}
use epox.Executor.Register.Same.{new_fd-AreSame, drop_fd-AreSame}
use epox.Executor.InLine.{is_of}
use epox.Executor.Clean.{
  IsClean, same-IsClean, enqueue-IsClean, abort-IsClean, set_cell-IsClean, spawn-IsClean,
}
use epox.Executor.Run.{
  Action, wakes, spawns, aborts, drops, awaits, shuts_down, registers, deregisters, polls_fd, Turn,
  wake_waker, await_output, act, act_all,
}

-- The waker is that of a task that is polled.
abbrev pub is_polled : (polled : Ptr → Bool) → Waker → Bool
is_polled polled (task t) = polled t
is_polled polled _ = false

-- What a poll may do: it does not wake its own task when it ends `Ready`, makes no task at the
-- address of its own, and polls no handle in the context of the task that the handle is of.
abbrev pub is_fit : {F : Type 0} → (polled : Ptr → Bool) → (away : Bool) → Action F → Bool
is_fit polled away (wakes w) = not (away && is_polled polled w)
is_fit polled away (spawns a p) = not (polled a)
is_fit polled away (awaits t w) = not (is_of t w)
is_fit polled away _ = true

abbrev pub AreFit : {F : Type 0} → (polled : Ptr → Bool) → (away : Bool) → List (Action F) → Type 0
AreFit polled away [] = Unit {0}
AreFit polled away (a ∷ as') = (is_fit polled away a ≡ true) × AreFit polled away as'

abbrev pub is_ready : {V : Type 0} → Poll V → Bool
is_ready (ready v) = true
is_ready pending = false

abbrev pub IsFit : {F V : Type 0} → Ptr → Turn F V → Type 0
IsFit t turn = AreFit (λ s. t == s) (is_ready turn.poll) turn.actions

-- No task is polled.
abbrev pub nobody : Ptr → Bool
nobody t = false

module _ {F V : Type 0} ⦃flags : Flags F⦄ (kernel : Kernel F) where
  pub epoll_wait-IsClean :
      (polled : Ptr → Bool) (timeout : Timeout) (e : Executor F V)
      → IsClean polled false e
      → IsClean polled false (epoll_wait kernel timeout e).0
  epoll_wait-IsClean polled timeout e v =
      epoll_wait_rule (IsClean polled false) (λ t f k. same-IsClean k refl refl)
        (λ t f k. enqueue-IsClean t f refl k) (λ ev f k. same-IsClean k refl refl)
        (λ ps n f k. same-IsClean k refl refl) kernel timeout e v

  -- A wake of a task that is borrowed looks for events first.
  self_wake :
      (polled : Ptr → Bool) (away : Bool) (t : Ptr) (e : Executor F V)
      → (away && polled t) ≡ false
      → (e.cell t).borrowed ≡ true
      → IsClean polled away e
      → IsClean polled away (epoll_wait kernel now (cloned t e)).0
  self_wake polled false t e here b v =
      epoll_wait-IsClean polled now (cloned t e) (same-IsClean v refl refl)
  self_wake polled true t e here b v =
      absurd (let x : true ≡ false = sym b ∙ v.unborrowed t here in cc)

  wake_here-IsClean :
      (polled : Ptr → Bool) (away : Bool) (t : Ptr) (e : Executor F V)
      → (away && polled t) ≡ false
      → IsClean polled away e
      → IsClean polled away (wake_here kernel t e)
  unfolding wake_here
  wake_here-IsClean polled away t e here v = elim (Bool-cases (is_alive e t)) [
    | inr gone ↦ rw gone v
    | inl live ↦ rw live (elim (Bool-cases (e.cell t).borrowed) [
      | inl self ↦ rw self (enqueue-IsClean t _ here (self_wake polled away t e here self v))
      | inr other ↦ rw other (enqueue-IsClean t (cloned t e) here (same-IsClean v refl refl))
    ])
  ]

  pub wake_waker-IsClean :
      (polled : Ptr → Bool) (away : Bool) (w : Waker) (e : Executor F V)
      → (away && is_polled polled w) ≡ false
      → IsClean polled away e
      → IsClean polled away (wake_waker kernel w e)
  unfolding wake_waker
  wake_waker-IsClean polled away (task t) e here v =
      elim (Bool-cases ((e.cell t).pipe_wr == e.pipe_wr)) [
        | inl mine ↦ rw mine (wake_here-IsClean polled away t e here v)
        | inr other ↦ rw other v
      ]
  wake_waker-IsClean polled away noop e here v = v
  wake_waker-IsClean polled away (block_on n) e here v = v
  wake_waker-IsClean polled away (foreign n) e here v = v

  await_output-IsClean :
      (polled : Ptr → Bool) (away : Bool) (o : Option V) (t : Ptr) (w : Waker) (e : Executor F V)
      → is_of t w ≡ false
      → IsClean polled away e
      → IsClean polled away (await_output kernel o t w e)
  await_output-IsClean polled away none t w e own v =
      set_cell-IsClean t _ e refl (v.unborrowed t) own v
  await_output-IsClean polled away (some x) t w e own v =
      set_cell-IsClean t _ e refl (v.unborrowed t) (v.unwatched t) v

  act-IsClean :
      (polled : Ptr → Bool) (away : Bool) (a : Action F) (e : Executor F V)
      → is_fit polled away a ≡ true
      → IsClean polled away e
      → IsClean polled away (act kernel a e)
  unfolding act set_shutdown
  act-IsClean polled away (wakes w) e s v = wake_waker-IsClean polled away w e (ground arith) v
  act-IsClean polled away (spawns a p) e s v = elim (Bool-cases (is_alive e a)) [
    | inl used ↦ rw used v
    | inr free ↦ rw free (spawn-IsClean a p e (ground arith) v)
  ]
  act-IsClean polled away (aborts t) e s v = abort-IsClean t e v
  act-IsClean polled away (drops t) e s v = same-IsClean v refl refl
  act-IsClean polled away (awaits t w) e s v =
      await_output-IsClean polled away (e.cell t).output t w e (ground arith) v
  act-IsClean polled away shuts_down e s v = same-IsClean v refl refl
  act-IsClean polled away (registers key fs x) e s v =
      let k = new_fd-AreSame key fs x e in same-IsClean v (ap (λ m. m.contents) k.queues) k.cell
  act-IsClean polled away (deregisters ctl) e s v =
      let k = drop_fd-AreSame ctl e in same-IsClean v (ap (λ m. m.contents) k.queues) k.cell
  act-IsClean polled away (polls_fd key x) e s v = same-IsClean v refl refl

  pub act_all-IsClean :
      (polled : Ptr → Bool) (away : Bool) (as' : List (Action F)) (e : Executor F V)
      → AreFit polled away as'
      → IsClean polled away e
      → IsClean polled away (act_all kernel as' e)
  unfolding act_all
  act_all-IsClean polled away [] e s v = v
  act_all-IsClean polled away (a ∷ as') e s v =
      act_all-IsClean polled away as' (act kernel a e) s.1 (act-IsClean polled away a e s.0 v)
