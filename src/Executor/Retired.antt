-- ===== src/Executor/Retired.antt =====
-- Tasks that have completed, through the polls and the loops of `run` in src/executor.rs.
use epox.Base.{
  ◌≡◌, refl, sym, ◌∙◌, inl, inr, Bool, true, false, ◌&&◌, Option, none, some, ◌==◌, arith, mem,
  Bool-cases,
}
use epox.Queue.Links.{Ptr}
use epox.Flags.{Flags}
use epox.Waker.{Waker, noop, task, block_on, foreign, Poll, pending, ready}
use epox.Executor.{Executor, set_cell, is_queued}
use epox.Executor.Events.{Kernel, now, never, Status, fine, fails, epoll_wait}
use epox.Executor.Order.{tasks, Chosen}
use epox.Executor.Tidy.{IsTidy}
use epox.Executor.InLine.{is_of}
use epox.Executor.Clean.{same-IsClean, sleep-IsClean, set_cell-IsClean}
use epox.Executor.Fit.{
  is_polled, IsFit, is_ready, nobody, epoll_wait-IsClean, wake_waker-IsClean, act_all-IsClean,
}
use epox.Executor.Run.{
  Futures, wake_waker, complete, suspend, finish, run_task, check, after_task, when_idle, round,
}
use epox.Executor.Rest.{
  IsAtRest, InPoll, next-lives, next-absent, next-IsAtRest, begun-InPoll, over-IsAtRest,
}

module _ {F V : Type 0} ⦃flags : Flags F⦄ (kernel : Kernel F) where
  complete-IsAtRest :
      (t : Ptr) (x : V) (e : Executor F V) → InPoll t true e → IsAtRest (complete kernel t x e)
  unfolding complete
  complete-IsAtRest t x e v =
      let self : (t == t) ≡ true = ground arith in
      let e1 : Executor F V =
        set_cell t (record (e.cell t) { output = some x; handle_waker = noop }) e in
      let v1 : InPoll t true e1 =
        set_cell-IsClean t _ e refl (λ i. absurd (let y : true ≡ false = sym self ∙ i in cc)) refl
          v in
      let e2 : Executor F V = wake_waker kernel (e.cell t).handle_waker e1 in
      let v2 : InPoll t true e2 =
        wake_waker-IsClean kernel (λ s. t == s) true (e.cell t).handle_waker e1
          (other_waker t (e.cell t).handle_waker (v.unwatched t)) v1 in
      let v3 =
        over-IsAtRest t true (record (e2.cell t) { has_completed = true; borrowed = false }) e2 refl
          refl (λ i. refl) v2 in
      same-IsClean v3 refl refl
    where
      other_waker :
          (t : Ptr) (w : Waker) → is_of t w ≡ false → (true && is_polled (λ s. t == s) w) ≡ false
      other_waker t (task s) ne = ground (arith, ne)
      other_waker t noop ne = refl
      other_waker t (block_on n) ne = refl
      other_waker t (foreign n) ne = refl

  suspend-IsAtRest : (t : Ptr) (e : Executor F V) → InPoll t false e → IsAtRest (suspend kernel t e)
  unfolding suspend
  suspend-IsAtRest t e v =
      let self : (t == t) ≡ true = ground arith in
      let live : (e.cell t).has_completed ≡ false = v.running t self in
      let e1 : Executor F V = set_cell t (record (e.cell t) { borrowed = false }) e in
      let v1 : IsAtRest e1 =
        over-IsAtRest t false (record (e.cell t) { borrowed = false }) e refl refl
          (λ done. absurd (let y : true ≡ false = sym done ∙ live in cc)) v in
      elim (Bool-cases (is_queued e1 t)) [
        | inl b ↦ rw b (same-IsClean v1 refl refl)
        | inr b ↦ rw b (sleep-IsClean t e1 (rw self live) refl v1)
      ]

  finish-IsAtRest :
      (t : Ptr) (p : Poll V) (e : Executor F V)
      → InPoll t (is_ready p) e
      → IsAtRest (finish kernel t p e)
  unfolding finish
  finish-IsAtRest t (ready x) e v = complete-IsAtRest t x e v
  finish-IsAtRest t pending e v = suspend-IsAtRest t e v

  pub run_task-IsAtRest :
      (futures : Futures F V) (t : Ptr) (e : Executor F V)
      → IsFit t (futures e.polls t)
      → (e.cell t).has_completed ≡ false
      → ((q : Ptr) → mem t (tasks e q) ≡ false)
      → IsAtRest e
      → IsAtRest (run_task kernel futures t e)
  unfolding run_task
  run_task-IsAtRest futures t e fit live gone v =
      let turn = futures e.polls t in
      finish-IsAtRest t turn.poll _ (
        act_all-IsClean kernel (λ s. t == s) (is_ready turn.poll) turn.actions _ fit
          (begun-InPoll t (is_ready turn.poll) e live gone v))

  check-IsAtRest : (r : Executor F V × Status) → IsAtRest r.0 → IsAtRest (check kernel r).0
  unfolding check
  check-IsAtRest (e, fine) v = v
  check-IsAtRest (e, fails n) v = v

  after_task-IsAtRest :
      (b : Bool) (e : Executor F V) → IsAtRest e → IsAtRest (after_task kernel b e).0
  unfolding after_task
  after_task-IsAtRest true e v = v
  after_task-IsAtRest false e v =
      check-IsAtRest (epoll_wait kernel now e) (epoll_wait-IsClean kernel nobody now e v)

  when_idle-IsAtRest :
      (b : Bool) (e : Executor F V) → IsAtRest e → IsAtRest (when_idle kernel b e).0
  unfolding when_idle
  when_idle-IsAtRest true e v = v
  when_idle-IsAtRest false e v =
      check-IsAtRest (epoll_wait kernel never e) (epoll_wait-IsClean kernel nobody never e v)

  pub round-IsAtRest :
      (futures : Futures F V) (e : Executor F V) (c : Option Ptr × Executor F V)
      → ((t : Ptr) → c.0 ≡ some t → IsFit t (futures c.1.polls t))
      → Chosen e c
      → IsTidy e
      → IsAtRest e
      → IsAtRest (round kernel futures c).0
  unfolding round
  round-IsAtRest futures e (some t, e') fit (p, n) tidy v =
      after_task-IsAtRest (run_task kernel futures t e').shutdown (run_task kernel futures t e') (
        run_task-IsAtRest futures t e' (fit t refl) (rw n.cells (next-lives n v))
          (next-absent n tidy) (next-IsAtRest n v))
  round-IsAtRest futures e (none, e') fit (_, _, _, same) tidy v =
      when_idle-IsAtRest _ e' (rw same v)
