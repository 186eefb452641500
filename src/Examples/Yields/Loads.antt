-- ===== src/Examples/Yields/Loads.antt =====
-- How many polls the tasks of the run queues take, after a task was taken or put back.
use epox.Base.{
  ℕ, suc, ◌+◌, ◌≡◌, refl, ap, false, List, [], ◌∷◌, ◌++◌, arith, mem, without, without_absent,
  update,
}
use epox.Queue.Links.{Ptr}
use epox.Queue.Push.{pushed}
use epox.Executor.{Executor, Priority, high, normal, low, runq, runq_high, runq_normal, runq_low}
use epox.Executor.Order.{tasks, IsNext}
use epox.Examples.Yields.{load, loads}

load-update :
    (w : Ptr → ℕ) (t n : ℕ) (ts : List Ptr) → mem t ts ≡ false → load (update w t n) ts ≡ load w ts
load-update w t n [] away = refl
load-update w t n (x ∷ ts) away = ground (arith, load-update w t n ts, away)

load-append :
    (w : Ptr → ℕ) (t : Ptr) (ts : List Ptr) → load w (ts ++ t ∷ []) ≡ suc (w t) + load w ts
load-append w t [] = refl
load-append w t (x ∷ ts) = omega (arith, load-append w t ts)

-- The loads of a list that does not have a task, once the task has a number of steps left: without it,
-- and with it at the end.
abbrev AreLoads : (Ptr → ℕ) → Ptr → ℕ → List Ptr → Type 0
AreLoads w t n ts =
    (load (update w t n) (without t ts) ≡ load w ts)
    × (load (update w t n) (without t ts ++ t ∷ []) ≡ suc n + load w ts)

load-pushed : (w : Ptr → ℕ) (t n : ℕ) (ts : List Ptr) → mem t ts ≡ false → AreLoads w t n ts
load-pushed w t n ts away =
    let self : update w t n t ≡ n = ground arith in
    let same = load-update w t n ts away in
    rw (without_absent t ts away) (same, omega (arith, load-append (update w t n) t ts, self, same))

module _ {F V : Type 0} where
  pub next-loads :
      {t : Ptr} (p : Priority) {e e' : Executor F V} (w : Ptr → ℕ)
      → IsNext t p e e'
      → loads w e ≡ suc (w t) + loads w e'
  next-loads high w n = omega (
    arith,
    ap (load w) n.oldest,
    ap (load w) (n.others runq_normal refl),
    ap (load w) (n.others runq_low refl),
  )
  next-loads normal w n = omega (
    arith,
    ap (load w) n.oldest,
    ap (load w) (n.others runq_high refl),
    ap (load w) (n.others runq_low refl),
  )
  next-loads low w n = omega (
    arith,
    ap (load w) n.oldest,
    ap (load w) (n.others runq_high refl),
    ap (load w) (n.others runq_normal refl),
  )

  pub yields-loads :
      (t k : ℕ) (p : Priority) (e e' : Executor F V) (w : Ptr → ℕ)
      → ((q : Ptr) → mem t (tasks e q) ≡ false)
      → ((q : Ptr) → tasks e' q ≡ (pushed (runq p) t e.queues).contents q)
      → loads (update w t k) e' ≡ suc k + loads w e
  yields-loads t k p e e' w away left =
      let h = load-pushed w t k (tasks e runq_high) (away runq_high) in
      let n = load-pushed w t k (tasks e runq_normal) (away runq_normal) in
      let l = load-pushed w t k (tasks e runq_low) (away runq_low) in
      rw (left runq_high, left runq_normal, left runq_low) (split p h n l)
    where
      split :
          (p : Priority)
          → AreLoads w t k (tasks e runq_high)
          → AreLoads w t k (tasks e runq_normal)
          → AreLoads w t k (tasks e runq_low)
          → load (update w t k) ((pushed (runq p) t e.queues).contents runq_high)
              + (load (update w t k) ((pushed (runq p) t e.queues).contents runq_normal)
                  + load (update w t k) ((pushed (runq p) t e.queues).contents runq_low))
            ≡ suc k + loads w e
      split high h n l = omega (arith, h.1, n.0, l.0)
      split normal h n l = omega (arith, h.0, n.1, l.0)
      split low h n l = omega (arith, h.0, n.0, l.1)

  pub ends-loads :
      (t k : ℕ) (e e' : Executor F V) (w : Ptr → ℕ)
      → ((q : Ptr) → mem t (tasks e q) ≡ false)
      → ((q : Ptr) → tasks e' q ≡ tasks e q)
      → loads (update w t k) e' ≡ loads w e
  ends-loads t k e e' w away left = omega (
    arith,
    ap (load (update w t k)) (left runq_high),
    ap (load (update w t k)) (left runq_normal),
    ap (load (update w t k)) (left runq_low),
    load-update w t k (tasks e runq_high) (away runq_high),
    load-update w t k (tasks e runq_normal) (away runq_normal),
    load-update w t k (tasks e runq_low) (away runq_low),
  )
