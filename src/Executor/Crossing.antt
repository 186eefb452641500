-- ===== src/Executor/Crossing.antt =====
-- A wake from another thread against a wake on the thread of the task.
use epox.Base.{ℕ, ◌≡◌, refl, sym, ap, ◌∙◌, true, false, some, List, [], ◌∷◌, ◌++◌, ◌==◌}
use epox.Queue.Links.{Ptr, null}
use epox.Flags.{Flags}
use epox.Executor.{Executor, cloned, is_alive, enqueue}
use epox.Executor.Events.{
  Kernel, fine, whole, wake_weak, read_pipe, wake_from_pipe, wake_here, wake,
}

module _ {F V : Type 0} ⦃flags : Flags F⦄ where
  read_back :
      (t : Ptr) (ps : List Ptr) (e : Executor F V)
      → ps ≡ []
      → (t == null) ≡ false
      → is_alive e t ≡ true
      → read_pipe (ps ++ t ∷ []) (record e { pipe = ps ++ t ∷ [] })
        ≡ (enqueue t (cloned t (record e { pipe = [] })), fine)
  unfolding read_pipe wake_weak
  read_back t ps e idle nonnull alive = rw (idle, nonnull, alive) refl

  -- With nothing else in the pipe, a wake of a task from another thread, once its executor has read
  -- the pipe, leaves the same state as a wake on the thread of the task, of a task that is there and
  -- is not being polled.
  pub wake-wake_here :
      (kernel : Kernel F) (here : ℕ) (t : Ptr) (e : Executor F V)
      → (t == null) ≡ false
      → is_alive e t ≡ true
      → (e.cell t).borrowed ≡ false
      → ((e.cell t).pipe_wr == here) ≡ false
      → e.pipe ≡ []
      → (e' : Executor F V) × (wake kernel whole here t e ≡ some e')
        × (wake_from_pipe e' ≡ (wake_here kernel t e, fine))
  unfolding wake wake_from_pipe wake_here
  wake-wake_here kernel here t e nonnull alive free away idle = (
    record e { pipe = e.pipe ++ t ∷ [] },
    rw (alive, away),
    read_back t e.pipe e idle nonnull alive
        ∙ ap (λ ps. (enqueue t (cloned t (record e { pipe = ps })), fine)) (sym idle)
        ∙ rw (alive, free) refl,
  )
