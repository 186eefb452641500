-- ===== src/Executor/Order.antt =====
-- Which task runs next.
use epox.Base.{◌≡◌, refl, ◌==◌, false, List, [], ◌∷◌, Option, none, some}
use epox.Queue.Links.{Ptr}
use epox.Executor.{
  Executor, Priority, high, normal, low, runq, runq_high, runq_normal, runq_low,
  highest_priority_runnable_task,
}

module _ {F V : Type 0} where
  abbrev pub tasks : Executor F V → Ptr → List Ptr
  tasks e q = e.queues.contents q

  -- The run queues above a priority are empty.
  abbrev pub IdleAbove : Priority → Executor F V → Type 0
  IdleAbove high e = Unit {0}
  IdleAbove normal e = tasks e runq_high ≡ []
  IdleAbove low e = (tasks e runq_high ≡ []) × (tasks e runq_normal ≡ [])

  -- `t` is the oldest task of the highest run queue that is not empty, and the rest stays.
  pub record IsNext (t : Ptr) (p : Priority) (e e' : Executor F V) : Type 0 where
    pub idle_above : IdleAbove p e
    pub oldest : tasks e (runq p) ≡ t ∷ tasks e' (runq p)
    pub others : (q : Ptr) → (runq p == q) ≡ false → tasks e' q ≡ tasks e q
    pub cells : e'.cell ≡ e.cell

  abbrev pub Chosen : Executor F V → Option Ptr × Executor F V → Type 0
  Chosen e (none, e') =
      (tasks e runq_high ≡ []) × (tasks e runq_normal ≡ []) × (tasks e runq_low ≡ []) × (e' ≡ e)
  Chosen e (some t, e') = (p : Priority) × IsNext t p e e'

  -- `highest_priority_runnable_task` takes the oldest task of the highest run queue that is not
  -- empty and leaves the other queues as they were. It finds none exactly when all three are empty,
  -- and then changes nothing.
  pub highest_priority_runnable_task-Chosen :
      (e : Executor F V) → Chosen e (highest_priority_runnable_task e)
  unfolding highest_priority_runnable_task
  highest_priority_runnable_task-Chosen e =
      split (tasks e runq_high) refl (tasks e runq_normal) refl (tasks e runq_low) refl
    where
      split :
          (hs : List Ptr)
          → tasks e runq_high ≡ hs
          → (ns : List Ptr) → tasks e runq_normal ≡ ns
          → (ls : List Ptr) → tasks e runq_low ≡ ls
          → Chosen e (highest_priority_runnable_task e)
      split [] h [] n [] l = rw (h, n, l) (h, n, l, refl)
      split [] h [] n (t ∷ ls) l =
          rw (h, n, l)
            (low, record { idle_above = (h, n); oldest = l; others = λ q o. rw o; cells = refl })
      split [] h (t ∷ ns) n ls l =
          rw (h, n)
            (normal, record { idle_above = h; oldest = n; others = λ q o. rw o; cells = refl })
      split (t ∷ hs) h ns n ls l =
          rw h (high, record { idle_above = tt; oldest = h; others = λ q o. rw o; cells = refl })
