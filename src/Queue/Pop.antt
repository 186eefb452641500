-- ===== src/Queue/Pop.antt =====
-- `Queue::pop`, `is_empty`, `release` and the loop of `Queue::drop`.
use epox.Base.{
  is_nil, Distinct, subst, ◌+◌, ◌≡◌, refl, true, false, List, [], ◌∷◌, arith, ◌==◌, ==_iff, update,
  mem, without, Option, none, some, without_absent, Bool-cases, inl, inr,
}
use epox.Queue.{Heap, is_live, unqueue, read_prev_live, is_empty, pop}
use epox.Queue.Links.{Ptr, Linked}
use epox.Queue.Model.{Model, Represents, Represents-ext, entry_live, prev_nonnull}
use epox.Queue.Unqueue.{unqueue-taken}

-- The oldest entry of `q`, whose Arc goes to the caller.
abbrev pub pop_first : Ptr → List Ptr → Model → Option Ptr × Model
pop_first q [] m = (none, m)
pop_first q (x ∷ xs) m =
    (some x, record { contents = update m.contents q xs; refs = update m.refs x (m.refs x + 1) })

abbrev pub popped : Ptr → Model → Option Ptr × Model
popped q m = pop_first q (m.contents q) m

pop_run :
    (h h' : Heap) (q x : Ptr)
    → is_live h q ≡ true
    → h.prev q ≡ x
    → (x == q) ≡ false
    → unqueue x h ≡ some (tt, h')
    → pop q h ≡ some (some x, h')
unfolding pop is_empty
pop_run h h' q x live first ne run =
    rw (read_prev_live q h live, first, ne, read_prev_live q h live, first, run)

pub pop_run_empty :
    (h : Heap) (q : Ptr) → is_live h q ≡ true → h.prev q ≡ q → pop q h ≡ some (none, h)
unfolding pop is_empty
pop_run_empty h q live e =
    let t : (q == q) ≡ true = ground arith in rw (read_prev_live q h live, e, t)

module _ {m : Model} {h : Heap} (v : Represents m h) (q : Ptr) (p : h.pinned q ≡ true) where
  pub prev_end : m.contents q ≡ [] → h.prev q ≡ q
  prev_end e =
      let l : Linked h.prev h.next q [] q =
        subst (λ ys. Linked h.prev h.next q ys q) e (v.ring q p) in
      l.0

  module _ (x : Ptr) (xs : List Ptr) (e : m.contents q ≡ x ∷ xs) where
    pub first_mem : mem x (m.contents q) ≡ true
    first_mem = rw e (ground arith)

    prev_first : h.prev q ≡ x
    prev_first =
        let l : Linked h.prev h.next q (x ∷ xs) q =
          subst (λ ys. Linked h.prev h.next q ys q) e (v.ring q p) in
        l.0

    taken_first :
        (r : Ptr) → h.pinned r ≡ true → without x (m.contents r) ≡ update m.contents q xs r
    taken_first r s = elim (Bool-cases (q == r)) [
      | inl same ↦
          let d : Distinct (x ∷ xs) = subst Distinct e (v.distinct q p) in
          let t : (x == x) ≡ true = ground arith in
          rw (same, ← (==_iff q r).0 same, e, t) (without_absent x xs d.0)
      | inr other ↦ rw other (without_absent x _ (ground (arith, v.apart q r x p s first_mem)))
    ]

    pub pop-first :
        (h' : Heap) × (pop q h ≡ some (some x, h'))
        × Represents (pop_first q (x ∷ xs) m).1 h'
        × (h'.pinned ≡ h.pinned)
    pop-first =
        let u : h.pinned x ≡ false = v.unpinned q x p first_mem in
        let (h', run, v', _, pin, _) = unqueue-taken v x u (entry_live v q x p first_mem) in
        (
          h',
          pop_run h h' q x (ground arith) prev_first (ground arith) run,
          Represents-ext v' (λ r s. taken_first r (subst (λ f. f r ≡ true) pin s))
              (λ y. rw (prev_nonnull v q x p first_mem)),
          pin,
        )

-- `Queue::pop` of an initialised queue does not fault. It returns the oldest entry, takes it off the
-- list and gives the list's Arc to the caller; from an empty queue it returns `None` and changes
-- nothing.
pub pop-popped :
    (m : Model) (h : Heap) (q : Ptr)
    → Represents m h
    → h.pinned q ≡ true
    → (h' : Heap) × (pop q h ≡ some ((popped q m).0, h'))
      × Represents (popped q m).1 h'
      × (h'.pinned ≡ h.pinned)
pop-popped m h q v p = split (m.contents q) refl
  where
    split :
        (xs : List Ptr)
        → m.contents q ≡ xs
        → (h' : Heap) × (pop q h ≡ some ((pop_first q xs m).0, h'))
          × Represents (pop_first q xs m).1 h'
          × (h'.pinned ≡ h.pinned)
    split [] e = (h, pop_run_empty h q (ground arith) (prev_end v q p e), v, refl)
    split (x ∷ xs) e = pop-first v q p x xs e

-- `Queue::is_empty` does not fault, changes nothing, and says whether the list is empty.
pub is_empty-is_nil :
    (m : Model) (h : Heap) (q : Ptr)
    → Represents m h
    → h.pinned q ≡ true
    → is_empty q h ≡ some (is_nil (m.contents q), h)
unfolding is_empty
is_empty-is_nil m h q v p = split (m.contents q) refl
  where
    split : (xs : List Ptr) → m.contents q ≡ xs → is_empty q h ≡ some (is_nil xs, h)
    split [] e =
        let t : (q == q) ≡ true = ground arith in
        rw (read_prev_live q h (ground arith), prev_end v q p e, t)
    split (x ∷ xs) e =
        let t : (x == q) ≡ false = ground (arith, v.unpinned q x p, first_mem v q p x xs e) in
        rw (read_prev_live q h (ground arith), prev_first v q p x xs e, t)
