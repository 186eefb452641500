-- ===== src/Programs/Mild.antt =====
-- Polls that end as `run` needs them: they shut nothing down, abort no task, and do nothing to a task
-- that has completed.
use epox.Base.{
  ◌≡◌, refl, ◌∙◌, inl, inr, Bool, true, false, Option, none, some, List, [], ◌∷◌, ◌==◌, Bool-cases,
  Option-cases, is_nil,
}
use epox.Queue.Links.{Ptr}
use epox.Flags.{Flags}
use epox.Waker.{Waker, noop, task, block_on, foreign, Poll, pending, ready}
use epox.Executor.{
  Executor, cloned, allocated, set_cell, is_alive, is_queued, sleepq, enqueue, sleep, spawn,
}
use epox.Executor.Events.{Kernel, Timeout, now, never, Status, fine, fails, epoll_wait}
use epox.Executor.Rule.{epoll_wait_rule, wake_here_rule}
use epox.Executor.Remain.{AreSparing}
use epox.Executor.Register.Same.{new_fd-AreSame, drop_fd-AreSame}
use epox.Executor.Run.{
  Action, wakes, spawns, aborts, drops, awaits, shuts_down, registers, deregisters, polls_fd, Turn,
  wake_waker, act, act_all, complete, suspend, finish, run_task, check, after_task, when_idle,
  round,
}
use epox.Executor.Fit.{is_fit, AreFit, is_ready}

abbrev pub is_mild : {F : Type 0} → (polled : Ptr → Bool) → (away : Bool) → Action F → Bool
is_mild polled away (aborts t) = false
is_mild polled away shuts_down = false
is_mild polled away a = is_fit polled away a

abbrev pub AreMild : {F : Type 0} → (polled : Ptr → Bool) → (away : Bool) → List (Action F) → Type 0
AreMild polled away [] = Unit {0}
AreMild polled away (a ∷ as') = (is_mild polled away a ≡ true) × AreMild polled away as'

abbrev pub IsMild : {F V : Type 0} → Ptr → Turn F V → Type 0
IsMild t turn = AreMild (λ s. t == s) (is_ready turn.poll) turn.actions

module _ {F : Type 0} where
  pub AreMild-AreFit :
      (polled : Ptr → Bool) (away : Bool) (as' : List (Action F))
      → AreMild polled away as'
      → AreFit polled away as'
  AreMild-AreFit polled away [] m = tt
  AreMild-AreFit polled away (a ∷ as') m = (fit a m.0, AreMild-AreFit polled away as' m.1)
    where
      fit : (a : Action F) → is_mild polled away a ≡ true → is_fit polled away a ≡ true
      fit (wakes w) m = m
      fit (spawns b p) m = m
      fit (aborts t) m = refl
      fit (drops t) m = m
      fit (awaits t w) m = m
      fit shuts_down m = refl
      fit (registers k f s) m = m
      fit (deregisters s) m = m
      fit (polls_fd k w) m = m

  pub AreMild-AreSparing :
      (polled : Ptr → Bool) (away : Bool) (u : Ptr) (as' : List (Action F))
      → AreMild polled away as'
      → AreSparing u as'
  AreMild-AreSparing polled away u [] m = tt
  AreMild-AreSparing polled away u (aborts t ∷ as') m = cc
  AreMild-AreSparing polled away u (wakes w ∷ as') m =
      (refl, AreMild-AreSparing polled away u as' m.1)
  AreMild-AreSparing polled away u (spawns b p ∷ as') m =
      (refl, AreMild-AreSparing polled away u as' m.1)
  AreMild-AreSparing polled away u (drops t ∷ as') m =
      (refl, AreMild-AreSparing polled away u as' m.1)
  AreMild-AreSparing polled away u (awaits t w ∷ as') m =
      (refl, AreMild-AreSparing polled away u as' m.1)
  AreMild-AreSparing polled away u (shuts_down ∷ as') m =
      (refl, AreMild-AreSparing polled away u as' m.1)
  AreMild-AreSparing polled away u (registers k f s ∷ as') m =
      (refl, AreMild-AreSparing polled away u as' m.1)
  AreMild-AreSparing polled away u (deregisters s ∷ as') m =
      (refl, AreMild-AreSparing polled away u as' m.1)
  AreMild-AreSparing polled away u (polls_fd k w ∷ as') m =
      (refl, AreMild-AreSparing polled away u as' m.1)

module _ {F V : Type 0} where
  enqueue-shutdown : (t : Ptr) (e : Executor F V) → (enqueue t e).shutdown ≡ e.shutdown
  unfolding enqueue
  enqueue-shutdown t e = elim (Bool-cases (e.cell t).has_completed) [
    | inl done ↦ rw done refl
    | inr live ↦ rw live refl
  ]

module _ {F V : Type 0} ⦃flags : Flags F⦄ (kernel : Kernel F) where
  epoll_wait-shutdown :
      (timeout : Timeout) (e : Executor F V) → (epoll_wait kernel timeout e).0.shutdown ≡ e.shutdown
  epoll_wait-shutdown timeout e =
      epoll_wait_rule (λ f. f.shutdown ≡ e.shutdown) (λ t f k. k)
        (λ t f k. enqueue-shutdown t f ∙ k) (λ ev f k. k) (λ ps n f k. k) kernel timeout e refl

  wake_waker-shutdown :
      (w : Waker) (e : Executor F V) → (wake_waker kernel w e).shutdown ≡ e.shutdown
  unfolding wake_waker
  wake_waker-shutdown (task t) e = elim (Bool-cases ((e.cell t).pipe_wr == e.pipe_wr)) [
    | inl mine ↦ rw mine (
        wake_here_rule (λ f. f.shutdown ≡ e.shutdown) (λ t f k. k)
          (λ t f k. enqueue-shutdown t f ∙ k) (λ ev f k. k) (λ ps n f k. k) kernel t e refl)
    | inr other ↦ rw other refl
  ]
  wake_waker-shutdown noop e = refl
  wake_waker-shutdown (block_on n) e = refl
  wake_waker-shutdown (foreign n) e = refl

  act-shutdown :
      (polled : Ptr → Bool) (away : Bool) (a : Action F) (e : Executor F V)
      → is_mild polled away a ≡ true
      → (act kernel a e).shutdown ≡ e.shutdown
  unfolding act spawn
  act-shutdown polled away (wakes w) e m = wake_waker-shutdown w e
  act-shutdown polled away (spawns b p) e m = elim (Bool-cases (is_alive e b)) [
    | inl used ↦ rw used refl
    | inr free ↦ rw free (enqueue-shutdown b (cloned b (allocated b p e)))
  ]
  act-shutdown polled away (aborts t) e m = cc
  act-shutdown polled away (drops t) e m = refl
  act-shutdown polled away (awaits t w) e m = elim (Option-cases (e.cell t).output) [
    | inl n ↦ rw n refl
    | inr (x, s) ↦ rw s refl
  ]
  act-shutdown polled away shuts_down e m = cc
  act-shutdown polled away (registers k f s) e m = (new_fd-AreSame k f s e).shutdown
  act-shutdown polled away (deregisters ctl) e m = (drop_fd-AreSame ctl e).shutdown
  act-shutdown polled away (polls_fd k w) e m = refl

  act_all-shutdown :
      (polled : Ptr → Bool) (away : Bool) (as' : List (Action F)) (e : Executor F V)
      → AreMild polled away as'
      → (act_all kernel as' e).shutdown ≡ e.shutdown
  unfolding act_all
  act_all-shutdown polled away [] e m = refl
  act_all-shutdown polled away (a ∷ as') e m =
      act_all-shutdown polled away as' (act kernel a e) m.1 ∙ act-shutdown polled away a e m.0

  finish-shutdown :
      (t : Ptr) (p : Poll V) (e : Executor F V) → (finish kernel t p e).shutdown ≡ e.shutdown
  unfolding finish complete suspend sleep
  finish-shutdown t (ready v) e = wake_waker-shutdown (e.cell t).handle_waker _
  finish-shutdown t pending e =
      let e1 : Executor F V = set_cell t (record (e.cell t) { borrowed = false }) e in
      elim (Bool-cases (is_queued e1 t)) [ inl b ↦ rw b refl | inr b ↦ rw b refl ]

  check-shutdown : (r : Executor F V × Status) → (check kernel r).0.shutdown ≡ r.0.shutdown
  unfolding check
  check-shutdown (f, fine) = refl
  check-shutdown (f, fails n) = refl

  after_task-shutdown :
      (b : Bool) (e : Executor F V) → (after_task kernel b e).0.shutdown ≡ e.shutdown
  unfolding after_task
  after_task-shutdown true e = refl
  after_task-shutdown false e = check-shutdown (epoll_wait kernel now e) ∙ epoll_wait-shutdown now e

  when_idle-shutdown :
      (b : Bool) (e : Executor F V) → (when_idle kernel b e).0.shutdown ≡ e.shutdown
  unfolding when_idle
  when_idle-shutdown true e = refl
  when_idle-shutdown false e =
      check-shutdown (epoll_wait kernel never e) ∙ epoll_wait-shutdown never e

  -- A round whose turn is mild does not shut the executor down.
  pub round-shutdown :
      (turn : Turn F V) (c : Option Ptr × Executor F V)
      → ((t : Ptr) → c.0 ≡ some t → IsMild t turn)
      → (round kernel (λ n s. turn) c).0.shutdown ≡ c.1.shutdown
  unfolding round run_task
  round-shutdown turn (some t, e) mild =
      after_task-shutdown (run_task kernel (λ n s. turn) t e).shutdown
        (run_task kernel (λ n s. turn) t e)
      ∙ finish-shutdown t turn.poll _
      ∙ act_all-shutdown (λ s. t == s) (is_ready turn.poll) turn.actions _ (mild t refl)
  round-shutdown turn (none, e) mild = when_idle-shutdown (is_nil (e.queues.contents sleepq)) e
