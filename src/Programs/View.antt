-- ===== src/Programs/View.antt =====
-- The outputs of the tasks, and which have completed, through a round of `run`.
use epox.Base.{
  ◌≡◌, refl, ◌∙◌, ap, inl, inr, Bool, true, false, Option, some, ◌==◌, arith, Bool-cases,
  if◌then◌else◌,
}
use epox.Queue.Links.{Ptr}
use epox.Flags.{Flags}
use epox.Waker.{Waker, noop, task, block_on, foreign, Poll, pending, ready}
use epox.Executor.{Executor, set_cell, is_queued, sleep}
use epox.Executor.Events.{Kernel, Timeout, now, never, Status, fine, fails, epoll_wait}
use epox.Executor.Rule.{epoll_wait_rule, wake_here_rule}
use epox.Executor.Wakeups.{enqueue-cell}
use epox.Executor.Run.{
  Turn, wake_waker, act_all, complete, suspend, finish, run_task, check, after_task, when_idle,
  round,
}
use epox.Programs.{begun}

-- Outputs after a task has ended `Ready`, and which tasks have completed then.
abbrev pub with_output : {V : Type 0} → Ptr → Poll V → (Ptr → Option V) → Ptr → Option V
with_output t pending o u = o u
with_output t (ready v) o u = if t == u then some v else o u

abbrev pub with_completed : {V : Type 0} → Ptr → Poll V → (Ptr → Bool) → Ptr → Bool
with_completed t pending d u = d u
with_completed t (ready v) d u = if t == u then true else d u

module _ {F V : Type 0} where
  abbrev pub output_of : Executor F V → Ptr → Option V
  output_of e u = (e.cell u).output

  abbrev pub completed : Executor F V → Ptr → Bool
  completed e u = (e.cell u).has_completed

module _ {F V : Type 0} ⦃flags : Flags F⦄ (kernel : Kernel F) where
  pub epoll_wait-cell :
      (timeout : Timeout) (e : Executor F V) → (epoll_wait kernel timeout e).0.cell ≡ e.cell
  epoll_wait-cell timeout e =
      epoll_wait_rule (λ f. f.cell ≡ e.cell) (λ t f k. k) (λ t f k. enqueue-cell t f ∙ k)
        (λ ev f k. k) (λ ps n f k. k) kernel timeout e refl

  pub wake_waker-cell : (w : Waker) (e : Executor F V) → (wake_waker kernel w e).cell ≡ e.cell
  unfolding wake_waker
  wake_waker-cell (task t) e = elim (Bool-cases ((e.cell t).pipe_wr == e.pipe_wr)) [
    | inl mine ↦ rw mine (
        wake_here_rule (λ f. f.cell ≡ e.cell) (λ t f k. k) (λ t f k. enqueue-cell t f ∙ k)
          (λ ev f k. k) (λ ps n f k. k) kernel t e refl)
    | inr other ↦ rw other refl
  ]
  wake_waker-cell noop e = refl
  wake_waker-cell (block_on n) e = refl
  wake_waker-cell (foreign n) e = refl

  complete_view :
      (t u : Ptr) (v : V) (e : Executor F V)
      → (output_of (complete kernel t v e) u ≡ (if t == u then some v else output_of e u))
        × (completed (complete kernel t v e) u ≡ (if t == u then true else completed e u))
  unfolding complete
  complete_view t u v e =
      let e1 : Executor F V =
        set_cell t (record (e.cell t) { output = some v; handle_waker = noop }) e in
      let same = wake_waker-cell (e.cell t).handle_waker e1 in
      let self : (t == t) ≡ true = ground arith in rw (same, self) (ground arith)

  suspend_view :
      (t u : Ptr) (e : Executor F V)
      → (output_of (suspend kernel t e) u ≡ output_of e u)
        × (completed (suspend kernel t e) u ≡ completed e u)
  unfolding suspend sleep
  suspend_view t u e =
      let e1 : Executor F V = set_cell t (record (e.cell t) { borrowed = false }) e in
      elim (Bool-cases (is_queued e1 t)) [ inl b ↦ rw b (kept t u e) | inr b ↦ rw b (kept t u e) ]
    where
      kept :
          (t u : Ptr) (e : Executor F V)
          → (output_of (set_cell t (record (e.cell t) { borrowed = false }) e) u ≡ output_of e u)
            × (completed (set_cell t (record (e.cell t) { borrowed = false }) e) u ≡ completed e u)
      kept t u e = ground arith

  finish_view :
      (t u : Ptr) (p : Poll V) (e : Executor F V)
      → (output_of (finish kernel t p e) u ≡ with_output t p (output_of e) u)
        × (completed (finish kernel t p e) u ≡ with_completed t p (completed e) u)
  unfolding finish
  finish_view t u (ready v) e = complete_view t u v e
  finish_view t u pending e = suspend_view t u e

  after_task-cell : (b : Bool) (e : Executor F V) → (after_task kernel b e).0.cell ≡ e.cell
  unfolding after_task check
  after_task-cell true e = refl
  after_task-cell false e = check_cell (epoll_wait kernel now e) ∙ epoll_wait-cell now e
    where
      check_cell : (r : Executor F V × Status) → (check kernel r).0.cell ≡ r.0.cell
      check_cell (f, fine) = refl
      check_cell (f, fails n) = refl

  pub idle-cell : (b : Bool) (e : Executor F V) → (when_idle kernel b e).0.cell ≡ e.cell
  unfolding when_idle check
  idle-cell true e = refl
  idle-cell false e = check_cell (epoll_wait kernel never e) ∙ epoll_wait-cell never e
    where
      check_cell : (r : Executor F V × Status) → (check kernel r).0.cell ≡ r.0.cell
      check_cell (f, fine) = refl
      check_cell (f, fails n) = refl

  -- A round that polls `t`, by what its turn does and how it ends.
  pub round_view :
      (turn : Turn F V) (t u : Ptr) (e : Executor F V)
      → let acted : Executor F V = act_all kernel turn.actions (begun kernel t e) in
        let left : Executor F V = (round kernel (λ n s. turn) (some t, e)).0 in
        (output_of left u ≡ with_output t turn.poll (output_of acted) u)
        × (completed left u ≡ with_completed t turn.poll (completed acted) u)
  unfolding round run_task
  round_view turn t u e =
      let f = finish kernel t turn.poll (act_all kernel turn.actions (begun kernel t e)) in
      let same = after_task-cell f.shutdown f in
      let v = finish_view t u turn.poll (act_all kernel turn.actions (begun kernel t e)) in
      (ap (λ c. (c u).output) same ∙ v.0, ap (λ c. (c u).has_completed) same ∙ v.1)
