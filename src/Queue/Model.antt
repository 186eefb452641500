-- ===== src/Queue/Model.antt =====
-- What the pointers of src/queue.rs stand for: the lists of the queues, oldest entry first, and
-- the Arcs that are held outside the queues.
use epox.Base.{ℕ, ◌+◌, ◌<◌, ◌≡◌, true, false, List, ◌∷◌, arith, ◌==◌, if◌then◌else◌, mem, Distinct}
use epox.Queue.{Heap, is_live}
use epox.Queue.Links.{Ptr, null, Linked, neighbours-mem}

pub record Model : Type 0 where
  pub contents : Ptr → List Ptr
  pub refs : Ptr → ℕ

-- `h` represents `m`.
pub record Represents (m : Model) (h : Heap) : Type 0 where
  pub null_unpinned : h.pinned null ≡ false
  pub null_dead : h.strong null ≡ 0
  pub ring : (q : Ptr) → h.pinned q ≡ true → Linked h.prev h.next q (m.contents q) q
  pub distinct : (q : Ptr) → h.pinned q ≡ true → Distinct (m.contents q)
  pub unpinned : (q e : Ptr) → h.pinned q ≡ true → mem e (m.contents q) ≡ true → h.pinned e ≡ false
  pub nonnull : (q e : Ptr) → h.pinned q ≡ true → mem e (m.contents q) ≡ true → (e == null) ≡ false
  pub apart :
      (q r e : Ptr)
      → h.pinned q ≡ true
      → h.pinned r ≡ true
      → mem e (m.contents q) ≡ true
      → mem e (m.contents r) ≡ true
      → q ≡ r
  pub queued :
      (e : Ptr)
      → h.pinned e ≡ false
      → (h.prev e == null) ≡ false
      → (q : Ptr) × (h.pinned q ≡ true) × (mem e (m.contents q) ≡ true)
  pub counted :
      (e : Ptr) → h.pinned e ≡ false → h.strong e ≡ m.refs e + (if h.prev e == null then 0 else 1)

module _ {m : Model} {h : Heap} (v : Represents m h) where
  pub head_absent :
      (q r : Ptr) → h.pinned q ≡ true → h.pinned r ≡ true → mem q (m.contents r) ≡ false
  head_absent q r p s = ground (arith, v.unpinned r q s)

  pub head_nonnull : (q : Ptr) → h.pinned q ≡ true → (q == null) ≡ false
  head_nonnull q p = ground (arith, v.null_unpinned)

  -- An entry of a queue has a `prev`.
  pub prev_nonnull :
      (q e : Ptr) → h.pinned q ≡ true → mem e (m.contents q) ≡ true → (h.prev e == null) ≡ false
  prev_nonnull q e p i = ground (
    arith,
    neighbours-mem h.prev h.next e q (m.contents q) q (v.ring q p) i,
    v.nonnull q (h.prev e) p,
    head_nonnull q p,
  )

  -- An entry of a queue is alive.
  pub entry_live : (q e : Ptr) → h.pinned q ≡ true → mem e (m.contents q) ≡ true → 0 < h.strong e
  entry_live q e p i = ground (arith, prev_nonnull q e p i, v.counted e, v.unpinned q e p i)

  -- An entry that is not queued is in no list.
  pub absent_of_null :
      (q e : Ptr) → h.pinned q ≡ true → (h.prev e == null) ≡ true → mem e (m.contents q) ≡ false
  absent_of_null q e p n = ground (arith, prev_nonnull q e p)

  -- Both ends of each link of a queue can be accessed.
  pub links_live :
      (q x : Ptr) → h.pinned q ≡ true → mem x (q ∷ m.contents q) ≡ true → is_live h x ≡ true
  links_live q x p i = ground (arith, entry_live q x p)

  -- Two rings share no address.
  pub rings_apart :
      (q r x : Ptr)
      → h.pinned q ≡ true
      → h.pinned r ≡ true
      → mem x (q ∷ m.contents q) ≡ true
      → mem x (r ∷ m.contents r) ≡ true
      → q ≡ r
  rings_apart q r x p s i j =
      ground (arith, v.apart q r x p s, head_absent q r p s, head_absent r q s p)

-- `Represents` depends on the lists of the pinned heads and on the values of the counts only.
pub Represents-ext :
    {m n : Model} {h : Heap}
    → Represents m h
    → ((q : Ptr) → h.pinned q ≡ true → m.contents q ≡ n.contents q)
    → ((e : Ptr) → m.refs e ≡ n.refs e)
    → Represents n h
Represents-ext {n} v lists counts = record {
  null_unpinned = v.null_unpinned;
  null_dead = v.null_dead;
  ring = λ q p. rw (← lists q p) (v.ring q p);
  distinct = λ q p. rw (← lists q p) (v.distinct q p);
  unpinned = λ q e p i. v.unpinned q e p (rw (lists q p) i);
  nonnull = λ q e p i. v.nonnull q e p (rw (lists q p) i);
  apart = λ q r e p s i j. v.apart q r e p s (rw (lists q p) i) (rw (lists r s) j);
  queued = λ e u b. let (q, p, i) = v.queued e u b in (q, p, rw (← lists q p) i);
  counted = λ e u. ground (arith, v.counted e u, counts e);
}
