-- ===== src/Executor/InLine.antt =====
-- A task that waits in the run queue of high priority, and what lets it keep its place there.
use epox.Base.{
  ℕ, zero, suc, ◌≤◌, ◌≡◌, refl, sym, subst, inl, inr, Bool, true, false, not, List, [], ◌∷◌, ◌++◌,
  ◌==◌, ==_iff, arith, mem, without, mem-without, mem-append, Bool-cases, if◌then◌else◌,
}
use epox.Queue.Links.{Ptr}
use epox.Queue.Push.{pushed}
use epox.Waker.{Waker, task}
use epox.Executor.{
  Executor, TaskCell, Priority, high, normal, low, runq, runq_high, cloned, set_cell, is_alive,
  enqueue, allocated,
}
use epox.Executor.Order.{tasks, IsNext}
use epox.Executor.Run.{Action, wakes, aborts, awaits}

-- The number of tasks before `u`.
abbrev pub ahead : Ptr → List Ptr → ℕ
ahead u [] = 0
ahead u (t ∷ ts) = let rest = ahead u ts in if t == u then 0 else suc rest

ahead-without : (u t : Ptr) (ts : List Ptr) → (t == u) ≡ false → ahead u (without t ts) ≤ ahead u ts
ahead-without u t [] ne = omega arith
ahead-without u t (x ∷ ts) ne = ground (arith, ahead-without u t ts ne)

ahead-append : (u t : Ptr) (ts : List Ptr) → mem u ts ≡ true → ahead u (ts ++ t ∷ []) ≡ ahead u ts
ahead-append u t [] i = cc
ahead-append u t (x ∷ ts) i = ground (arith, ahead-append u t ts)

-- The waker is not that of `u`, and the action neither wakes nor aborts it.
abbrev pub is_of : Ptr → Waker → Bool
is_of u (task t) = t == u
is_of u _ = false

abbrev pub leaves_be : {F : Type 0} → Ptr → Action F → Bool
leaves_be u (wakes w) = not (is_of u w)
leaves_be u (aborts t) = not (t == u)
leaves_be u (awaits t w) = not (is_of u w)
leaves_be u _ = true

abbrev pub AreLeavingBe : {F : Type 0} → Ptr → List (Action F) → Type 0
AreLeavingBe u [] = Unit {0}
AreLeavingBe u (a ∷ as') = (leaves_be u a ≡ true) × AreLeavingBe u as'

module _ {F V : Type 0} where
  -- At most `k` tasks are before `u` in the run queue of high priority, and no handle wakes it.
  pub record InLine (k : ℕ) (u : Ptr) (e : Executor F V) : Type 0 where
    pub stands : mem u (tasks e runq_high) ≡ true
    pub near : ahead u (tasks e runq_high) ≤ k
    pub unwatched : (t : Ptr) → is_of u (e.cell t).handle_waker ≡ false

  pub same-InLine :
      {k : ℕ} {u : Ptr} {e e' : Executor F V}
      → InLine k u e
      → tasks e' runq_high ≡ tasks e runq_high
      → ((t : Ptr) → is_of u (e'.cell t).handle_waker ≡ false)
      → InLine k u e'
  same-InLine w c h = record { stands = rw c w.stands; near = rw c w.near; unwatched = h }

  pub without-InLine :
      {k : ℕ} {u : Ptr} (t : Ptr) {e e' : Executor F V}
      → InLine k u e
      → (t == u) ≡ false
      → tasks e' runq_high ≡ without t (tasks e runq_high)
      → ((s : Ptr) → is_of u (e'.cell s).handle_waker ≡ false)
      → InLine k u e'
  without-InLine {k} {u} t {e} w ne c h = record {
    stands = rw c (ground (arith, mem-without u t (tasks e runq_high), w.stands));
    near = rw c (omega (arith, ahead-without u t (tasks e runq_high) ne, w.near));
    unwatched = h;
  }

  append-InLine :
      {k : ℕ} {u : Ptr} (t : Ptr) {e e' : Executor F V}
      → InLine k u e
      → (t == u) ≡ false
      → tasks e' runq_high ≡ without t (tasks e runq_high) ++ t ∷ []
      → ((s : Ptr) → is_of u (e'.cell s).handle_waker ≡ false)
      → InLine k u e'
  append-InLine {k} {u} t {e} w ne c h =
      let i : mem u (without t (tasks e runq_high)) ≡ true =
        ground (arith, mem-without u t (tasks e runq_high), w.stands) in
      record {
        stands = rw c (ground (arith, mem-append u (without t (tasks e runq_high)) (t ∷ []), i));
        near =
            rw (c, ahead-append u t (without t (tasks e runq_high)) i)
              (omega (arith, ahead-without u t (tasks e runq_high) ne, w.near));
        unwatched = h;
      }

  pub enqueue-InLine :
      {k : ℕ} {u : Ptr} (t : Ptr) (e : Executor F V)
      → (t == u) ≡ false
      → InLine k u e
      → InLine k u (enqueue t e)
  unfolding enqueue
  enqueue-InLine {k} {u} t e ne w = elim (Bool-cases (e.cell t).has_completed) [
    | inl b ↦ rw b (same-InLine w refl w.unwatched)
    | inr b ↦ rw b (by_priority (e.cell t).priority)
  ]
    where
      by_priority : (p : Priority) → InLine k u (record e { queues = pushed (runq p) t e.queues })
      by_priority high = append-InLine t w ne refl w.unwatched
      by_priority normal = without-InLine t w ne refl w.unwatched
      by_priority low = without-InLine t w ne refl w.unwatched

  pub set_cell-InLine :
      {k : ℕ} {u : Ptr} (t : Ptr) (c : TaskCell V) (e : Executor F V)
      → is_of u c.handle_waker ≡ false
      → InLine k u e
      → InLine k u (set_cell t c e)
  set_cell-InLine {k} {u} t c e h w =
      same-InLine w refl
        (λ s. elim (Bool-cases (t == s)) [ inl b ↦ rw b h | inr b ↦ rw b (w.unwatched s) ])

  pub allocated-InLine :
      {k : ℕ} {u : Ptr} (a : Ptr) (p : Priority) (e : Executor F V)
      → InLine k u e
      → InLine k u (cloned a (allocated a p e))
  allocated-InLine {k} {u} a p e w =
      same-InLine w refl
        (λ s. elim (Bool-cases (a == s)) [ inl b ↦ rw b refl | inr b ↦ rw b (w.unwatched s) ])

  -- A task in a queue is there, so that no new one has its address.
  pub fresh_other :
      {k : ℕ} {u : Ptr} (a : Ptr) (e : Executor F V)
      → is_alive e a ≡ false
      → InLine k u e
      → (a == u) ≡ false
  fresh_other {k} {u} a e gone w = elim (Bool-cases (a == u)) [
    | inr ne ↦ ne
    | inl same ↦
        let i : mem a (tasks e runq_high) ≡ true =
          subst (λ x. mem x (tasks e runq_high) ≡ true) (sym ((==_iff a u).0 same)) w.stands in
        absurd (ground (arith, i, gone))
  ]

  -- The task that is chosen is `u`, or one that was before it.
  pub next-InLine :
      {k : ℕ} {u t : Ptr} (p : Priority) {e e' : Executor F V}
      → IsNext t p e e'
      → (t == u) ≡ false
      → InLine (suc k) u e
      → InLine k u e'
  next-InLine {k} {u} {t} high {e} {e'} n ne w =
      let i : mem u (t ∷ tasks e' runq_high) ≡ true =
        subst (λ ts. mem u ts ≡ true) n.oldest w.stands in
      let near : ahead u (t ∷ tasks e' runq_high) ≤ suc k =
        subst (λ ts. ahead u ts ≤ suc k) n.oldest w.near in
      record {
        stands = ground (arith, i, ne);
        near = ground (arith, near, ne);
        unwatched = λ s. rw n.cells (w.unwatched s);
      }
  next-InLine {k} {u} normal n ne w =
      absurd (let i : mem u [] ≡ true = subst (λ ts. mem u ts ≡ true) n.idle_above w.stands in cc)
  next-InLine {k} {u} low n ne w =
      absurd (let i : mem u [] ≡ true = subst (λ ts. mem u ts ≡ true) n.idle_above.0 w.stands in cc)

  pub front :
      {u t : Ptr} (p : Priority) {e e' : Executor F V}
      → IsNext t p e e'
      → InLine zero u e
      → (t == u) ≡ true
  front {u} {t} p {e} {e'} n w = elim (Bool-cases (t == u)) [
    | inl same ↦ same
    | inr ne ↦ absurd (before p n ne)
  ]
    where
      before : (p : Priority) → IsNext t p e e' → (t == u) ≡ false → ⊥
      before high n ne =
          let near : ahead u (t ∷ tasks e' runq_high) ≤ 0 =
            subst (λ ts. ahead u ts ≤ 0) n.oldest w.near in
          ground (arith, near, ne)
      before normal n ne =
          let i : mem u [] ≡ true = subst (λ ts. mem u ts ≡ true) n.idle_above w.stands in cc
      before low n ne =
          let i : mem u [] ≡ true = subst (λ ts. mem u ts ≡ true) n.idle_above.0 w.stands in cc
