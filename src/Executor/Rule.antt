-- ===== src/Executor/Rule.antt =====
-- A rule for what the wakeups keep: a property that every clone, `enqueue`, note of an event and
-- change of the pipe keeps is kept by `epoll_wait` and by a wake, whatever the kernel answers.
use epox.Base.{ℕ, ◌+◌, List, [], ◌∷◌, ◌++◌, ◌==◌, Bool-cases, inl, inr}
use epox.Queue.Links.{Ptr, null}
use epox.Flags.{Flags}
use epox.Waker.{Waker, noop, task, block_on, foreign}
use epox.Executor.{Executor, cloned, is_alive, enqueue}
use epox.Executor.Events.{
  Event, Answer, events, interrupted, failed, Kernel, Timeout, now, Status, fine, fails, noted,
  waited, wake_weak, read_pipe, wake_from_pipe, wake_if_task, notify, deliver, deliver_all,
  on_success, answered, epoll_wait, wake_here,
}

module _ {F V : Type 0} ⦃flags : Flags F⦄ (P : Executor F V → Type 0)
    (keep_clone : (t : Ptr) (e : Executor F V) → P e → P (cloned t e))
    (keep_enqueue : (t : Ptr) (e : Executor F V) → P e → P (enqueue t e))
    (keep_noted : (ev : Event F) (e : Executor F V) → P e → P (noted ev e))
    (keep_pipe : (ps : List Ptr) (n : ℕ) (e : Executor F V)
      → P e
      → P (record e { pipe = ps; waits = n })) where
  wake_weak_rule : (t : Ptr) (e : Executor F V) → P e → P (wake_weak t e)
  unfolding wake_weak
  wake_weak_rule t e v = elim (Bool-cases (is_alive e t)) [
    | inl live ↦ rw live (keep_enqueue t (cloned t e) (keep_clone t e v))
    | inr gone ↦ rw gone v
  ]

  read_pipe_rule : (ps : List Ptr) (e : Executor F V) → P e → P (read_pipe ps e).0
  unfolding read_pipe
  read_pipe_rule [] e v = v
  read_pipe_rule (p ∷ rest) e v = elim (Bool-cases (p == null)) [
    | inl b ↦ rw b (keep_pipe rest e.waits e v)
    | inr b ↦ rw b (wake_weak_rule p (record e { pipe = rest }) (keep_pipe rest e.waits e v))
  ]

  wake_if_task_rule : (w : Waker) (e : Executor F V) → P e → P (wake_if_task w e)
  unfolding wake_if_task
  wake_if_task_rule (task t) e v = wake_weak_rule t e v
  wake_if_task_rule noop e v = v
  wake_if_task_rule (block_on n) e v = v
  wake_if_task_rule (foreign n) e v = v

  notify_rule : (ev : Event F) (e : Executor F V) → P e → P (notify ev e)
  unfolding notify
  notify_rule ev e v = elim (Bool-cases (flags.contains (e.epoll_waker ev.key).events ev.flags)) [
    | inl old ↦ rw old v
    | inr news ↦
        rw news (wake_if_task_rule (e.epoll_waker ev.key).waker (noted ev e) (keep_noted ev e v))
  ]

  deliver_rule : (ev : Event F) (e : Executor F V) → P e → P (deliver ev e).0
  unfolding wake_from_pipe
  deliver_rule ev e v = elim (Bool-cases (ev.key == 0)) [
    | inl pipe ↦ rw pipe (read_pipe_rule e.pipe e v)
    | inr fd ↦ rw fd (notify_rule ev e v)
  ]

  on_success_rule :
      (r : Executor F V × Status) (f : Executor F V → Executor F V × Status)
      → P r.0
      → ((e : Executor F V) → P e → P (f e).0)
      → P (on_success r f).0
  on_success_rule (e, fine) f v keep = keep e v
  on_success_rule (e, fails n) f v keep = v

  deliver_all_rule : (evs : List (Event F)) (e : Executor F V) → P e → P (deliver_all evs e).0
  unfolding deliver_all
  deliver_all_rule [] e v = v
  deliver_all_rule (ev ∷ evs) e v =
      on_success_rule (deliver ev e) _ (deliver_rule ev e v) (deliver_all_rule evs)

  answered_rule : (a : Answer F) (e : Executor F V) → P e → P (answered a e).0
  unfolding answered
  answered_rule (events evs) e v = deliver_all_rule evs e v
  answered_rule interrupted e v = v
  answered_rule (failed n) e v = v

  pub epoll_wait_rule :
      (kernel : Kernel F) (timeout : Timeout) (e : Executor F V)
      → P e
      → P (epoll_wait kernel timeout e).0
  unfolding epoll_wait
  epoll_wait_rule kernel timeout e v = elim (Bool-cases (e.slots == 0)) [
    | inl b ↦ rw b v
    | inr b ↦
        let w = kernel e.waits timeout e.slots in
        rw b
          (answered_rule w.answer (waited w e) (keep_pipe (e.pipe ++ w.arrived) (e.waits + 1) e v))
  ]

  pub wake_here_rule :
      (kernel : Kernel F) (t : Ptr) (e : Executor F V) → P e → P (wake_here kernel t e)
  unfolding wake_here
  wake_here_rule kernel t e v = elim (Bool-cases (is_alive e t)) [
    | inr gone ↦ rw gone v
    | inl live ↦ rw live (elim (Bool-cases (e.cell t).borrowed) [
      | inl self ↦
          rw self (keep_enqueue t _ (epoll_wait_rule kernel now (cloned t e) (keep_clone t e v)))
      | inr other ↦ rw other (keep_enqueue t (cloned t e) (keep_clone t e v))
    ])
  ]
