-- ===== src/Wakers/Balance.antt =====
-- Every weak reference is owned by a waker or by the pipe, or was lost with a closed pipe.
use epox.Base.{
  ℕ, suc, ◌+◌, ◌-◌, ◌<◌, ◌≡◌, Bool, true, false, some, List, [], ◌∷◌, ◌++◌, ◌==◌, if◌then◌else◌,
  update,
}
use epox.Queue.Links.{Ptr, null}
use epox.Executor.Events.{Written, bad_descriptor}
use epox.Wakers.{Weaks, build_waker, clone_waker, wake_by_ref, wake_by_val, drop_waker, read_weak}

abbrev pub count : ℕ → List ℕ → ℕ
count a [] = 0
count a (x ∷ xs) = let rest = count a xs in if a == x then suc rest else rest

-- The weak references by owner: `held` counts the wakers of a task that exist, and `lost` the wakes
-- of a task through a pipe that was closed.
pub record Ledger : Type 0 where
  pub held : Ptr → ℕ
  pub lost : Ptr → ℕ

abbrev pub one_more : (Ptr → ℕ) → Ptr → Ptr → ℕ
one_more f t = update f t (f t + 1)

abbrev pub one_less : (Ptr → ℕ) → Ptr → Ptr → ℕ
one_less f t = update f t (f t - 1)

-- What a wake of a task that is there loses.
abbrev pub loses : (alive here : Bool) → Written → ℕ
loses true false bad_descriptor = 1
loses _ _ _ = 0

abbrev pub charged : Bool → Bool → Written → Ptr → Ledger → Ledger
charged alive here written t g = record g {
  lost = update g.lost t (g.lost t + loses alive here written);
}

-- One use of a waker, by who holds it, one read of the pipe, one wake of `block_on`, which writes a
-- null pointer, or the end of the last Arc of a task.
pub data Step (g : Ledger) (s : Weaks) : Ledger → Weaks → Type 0 where
  builds :
      (t : Ptr)
      → (t == null) ≡ false
      → Step g s (record g { held = one_more g.held t }) (build_waker t s).1
  clones :
      (t : Ptr)
      → 0 < g.held t
      → s.alive t ≡ true
      → Step g s (record g { held = one_more g.held t }) (clone_waker t s).1
  clones_ended : (t : Ptr) → 0 < g.held t → s.alive t ≡ false → Step g s g (clone_waker t s).1
  wakes :
      (t : Ptr) (here : Bool) (written : Written) {s' : Weaks}
      → 0 < g.held t
      → wake_by_ref here written t s ≡ some s'
      → Step g s (charged (s.alive t) here written t g) s'
  wakes_by_val :
      (t : Ptr) (here : Bool) (written : Written) {s' : Weaks}
      → 0 < g.held t
      → wake_by_val here written t s ≡ some s'
      → Step g s (record (charged (s.alive t) here written t g) { held = one_less g.held t }) s'
  drops :
      (t : Ptr) → 0 < g.held t → Step g s (record g { held = one_less g.held t }) (drop_waker t s)
  reads : Step g s g (read_weak s.pipe s)
  nudges : Step g s g (record s { pipe = s.pipe ++ null ∷ [] })
  ends : (t : Ptr) → Step g s g (record s { alive = update s.alive t false })

pub data Reach : Ledger → Weaks → Type 0 where
  start :
      (alive : Ptr → Bool)
      → Reach
          (record { held = λ _. 0; lost = λ _. 0 })
          (record { weak = λ _. 0; alive = alive; pipe = [] })
  later : {g g' : Ledger} {s s' : Weaks} → Reach g s → Step g s g' s' → Reach g' s'

-- No waker is of the task at address zero.
pub record Balanced (g : Ledger) (s : Weaks) : Type 0 where
  pub owned : (t : Ptr) → (t == null) ≡ false → s.weak t ≡ g.held t + count t s.pipe + g.lost t
  pub none_null : g.held null ≡ 0
