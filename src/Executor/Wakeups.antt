-- ===== src/Executor/Wakeups.antt =====
-- What an event and a wake do to the queues.
use epox.Base.{
  ℕ, ◌≡◌, refl, ap, ◌∙◌, true, false, List, [], ◌∷◌, ◌++◌, none, some, arith, ◌==◌, without,
  Bool-cases, inl, inr, sym,
}
use epox.Queue.Links.{Ptr, null}
use epox.Flags.{Flags}
use epox.Waker.{task}
use epox.Executor.{Executor, runq, cloned, is_alive, enqueue}
use epox.Executor.Events.{
  Event, Kernel, fine, whole, bad_descriptor, refused, wake_weak, wake_if_task, notify, read_pipe,
  wake_from_pipe, wake, wake_block_on, Written,
}

module _ {F V : Type 0} where
  -- `t` was put behind all others in the run queue of its priority, and is in no other queue.
  pub record IsLast (t : Ptr) (e e' : Executor F V) : Type 0 where
    pub last :
        e'.queues.contents (runq (e.cell t).priority)
        ≡ without t (e.queues.contents (runq (e.cell t).priority)) ++ t ∷ []
    pub others :
        (q : Ptr)
        → (runq (e.cell t).priority == q) ≡ false
        → e'.queues.contents q ≡ without t (e.queues.contents q)

  pub enqueue-IsLast :
      (t : Ptr) (e e1 : Executor F V)
      → e1.queues.contents ≡ e.queues.contents
      → e1.cell ≡ e.cell
      → (e.cell t).has_completed ≡ false
      → IsLast t e (enqueue t e1)
  unfolding enqueue
  enqueue-IsLast t e e1 c k live =
      let same : (runq (e.cell t).priority == runq (e.cell t).priority) ≡ true = ground arith in
      rw (k, live, c) (record { last = rw same; others = λ q o. rw o })

  enqueue-epoll_waker : (t : Ptr) (e : Executor F V) → (enqueue t e).epoll_waker ≡ e.epoll_waker
  unfolding enqueue
  enqueue-epoll_waker t e = elim (Bool-cases (e.cell t).has_completed) [
    | inl done ↦ rw done
    | inr live ↦ rw live
  ]

  enqueue-pipe : (t : Ptr) (e : Executor F V) → (enqueue t e).pipe ≡ e.pipe
  unfolding enqueue
  enqueue-pipe t e = elim (Bool-cases (e.cell t).has_completed) [
    | inl done ↦ rw done
    | inr live ↦ rw live
  ]

  pub enqueue-cell : (t : Ptr) (e : Executor F V) → (enqueue t e).cell ≡ e.cell
  unfolding enqueue
  enqueue-cell t e = elim (Bool-cases (e.cell t).has_completed) [
    | inl done ↦ rw done
    | inr live ↦ rw live
  ]

module _ {F V : Type 0} ⦃flags : Flags F⦄ where
  -- With the waker of a live task registered that has not completed, and no event noted, an event of
  -- any kind puts the task behind the others in the run queue of its priority, and is noted.
  pub notify-IsLast :
      (ev : Event F) (e : Executor F V) (t : Ptr)
      → (e.epoll_waker ev.key).waker ≡ task t
      → flags.is_empty (e.epoll_waker ev.key).events ≡ true
      → flags.is_empty ev.flags ≡ false
      → is_alive e t ≡ true
      → (e.cell t).has_completed ≡ false
      → IsLast t e (notify ev e)
        × (flags.contains ((notify ev e).epoll_waker ev.key).events ev.flags ≡ true)
  unfolding notify wake_if_task wake_weak
  notify-IsLast ev e t registered idle some_event alive live =
      let w = e.epoll_waker ev.key in
      let news : flags.contains w.events ev.flags ≡ false =
        flags.empty-contains w.events ev.flags idle ∙ some_event in
      let self : (ev.key == ev.key) ≡ true = ground arith in
      (
        rw (news, registered, alive) (enqueue-IsLast t e _ refl refl live),
        rw (news, registered, alive, enqueue-epoll_waker, self)
            (flags.contains-union w.events ev.flags),
      )

  read_pipe_wakes :
      (t : Ptr) (ps : List Ptr) (e e1 : Executor F V)
      → ps ≡ []
      → e1.queues ≡ e.queues
      → e1.cell ≡ e.cell
      → (t == null) ≡ false
      → is_alive e t ≡ true
      → (e.cell t).has_completed ≡ false
      → IsLast t e (read_pipe (ps ++ t ∷ []) e1).0
        × ((read_pipe (ps ++ t ∷ []) e1).0.pipe ≡ [])
        × ((read_pipe (ps ++ t ∷ []) e1).1 ≡ fine)
  unfolding read_pipe wake_weak
  read_pipe_wakes t ps e e1 idle q k nonnull alive live =
      let alive1 : is_alive e1 t ≡ true = rw q alive in
      rw (idle, nonnull, alive1)
        (
          enqueue-IsLast t e (cloned t (record e1 { pipe = [] })) (rw q refl) k live,
          enqueue-pipe t (cloned t (record e1 { pipe = [] })),
          refl,
        )

  -- A task that is woken from another thread is put behind the others in the run queue of its priority
  -- when its executor reads the pipe, and the pipe is empty again. The thread that wakes panics exactly
  -- when the write fails for another reason than a closed pipe.
  pub wake-wake_from_pipe :
      (kernel : Kernel F) (here : ℕ) (t : Ptr) (e : Executor F V)
      → (t == null) ≡ false
      → is_alive e t ≡ true
      → (e.cell t).has_completed ≡ false
      → ((e.cell t).pipe_wr == here) ≡ false
      → e.pipe ≡ []
      → ((e' : Executor F V) × (wake kernel whole here t e ≡ some e')
          × IsLast t e (wake_from_pipe e').0
          × ((wake_from_pipe e').0.pipe ≡ [])
          × ((wake_from_pipe e').1 ≡ fine))
        × (wake kernel bad_descriptor here t e ≡ some e)
        × ((n : ℕ) → wake kernel (refused n) here t e ≡ none)
  unfolding wake wake_from_pipe
  wake-wake_from_pipe kernel here t e nonnull alive live away idle =
      let r =
        read_pipe_wakes t e.pipe e (record e { pipe = e.pipe ++ t ∷ [] }) idle refl refl nonnull
          alive live in
      (
        (record e { pipe = e.pipe ++ t ∷ [] }, rw (alive, away), r.0, r.1, r.2),
        rw (alive, away),
        λ n. rw (alive, away),
      )

  read_pipe-null :
      (ps : List Ptr) (e : Executor F V)
      → ps ≡ []
      → read_pipe (ps ++ null ∷ []) e ≡ (record e { pipe = [] }, fine)
  unfolding read_pipe
  read_pipe-null ps e idle = rw idle refl

  -- A wake of the waker of `block_on` on its own thread has no effect, however a write would end. On
  -- another thread it puts a null pointer into the pipe, and once the executor has read that pointer
  -- it is in the state from before the wake: no task is enqueued. With a closed pipe the wake has no
  -- effect, and the thread that wakes panics exactly when the write fails for another reason.
  pub wake_block_on-wake_from_pipe :
      (here : ℕ) (e : Executor F V)
      → (e.pipe_wr == here) ≡ false
      → e.pipe ≡ []
      → ((written : Written) → wake_block_on written e.pipe_wr e ≡ some e)
        × ((e' : Executor F V) × (wake_block_on whole here e ≡ some e')
            × (e'.pipe ≡ null ∷ [])
            × (wake_from_pipe e' ≡ (e, fine)))
        × (wake_block_on bad_descriptor here e ≡ some e)
        × ((n : ℕ) → wake_block_on (refused n) here e ≡ none)
  unfolding wake_block_on wake_from_pipe
  wake_block_on-wake_from_pipe here e away idle =
      let self : (e.pipe_wr == e.pipe_wr) ≡ true = ground arith in
      (
        λ written. rw self refl,
        (
          record e { pipe = e.pipe ++ null ∷ [] },
          rw away refl,
          rw idle refl,
          read_pipe-null e.pipe (record e { pipe = e.pipe ++ null ∷ [] }) idle
              ∙ ap (λ p. (record e { pipe = p }, fine)) (sym idle),
        ),
        rw away refl,
        λ n. rw away refl,
      )
