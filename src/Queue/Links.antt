-- ===== src/Queue/Links.antt =====
-- Doubly linked segments, over the `prev` and `next` fields as functions of the address.
use epox.Base.{
  ℕ, ◌≡◌, true, false, List, [], ◌∷◌, ◌++◌, arith, ◌==◌, ==_iff, update, mem, without, Distinct,
  without_absent, Bool-cases, inl, inr,
}

abbrev pub Ptr : Type 0
Ptr = ℕ

abbrev pub null : Ptr
null = 0

-- From `a` the `prev` fields lead through the entries of the list to `b`, and the `next` fields
-- lead back.
abbrev pub Linked : (prev next : Ptr → Ptr) → Ptr → List Ptr → Ptr → Type 0
Linked prev next a [] b = (prev a ≡ b) × (next b ≡ a)
Linked prev next a (x ∷ xs) b = (prev a ≡ x) × (next x ≡ a) × Linked prev next x xs b

pub Linked-frame :
    (prev next prev' next' : Ptr → Ptr) (a : Ptr) (xs : List Ptr) (b : Ptr)
    → Linked prev next a xs b
    → ((x : Ptr) → mem x (a ∷ xs) ≡ true → prev' x ≡ prev x)
    → ((x : Ptr) → mem x (b ∷ xs) ≡ true → next' x ≡ next x)
    → Linked prev' next' a xs b
Linked-frame prev next prev' next' a [] b l p n = ground (arith, p a, n b)
Linked-frame prev next prev' next' a (x ∷ xs) b l p n = (
  ground (arith, p a, l.0),
  ground (arith, n x, l.1),
  Linked-frame prev next prev' next' x xs b l.2 (λ y m. p y (ground arith))
      (λ y m. n y (ground arith)),
)

module _ (prev next : Ptr → Ptr) where
  -- The last of a segment is what `b` points back to.
  pub next-mem :
      (a : Ptr) (xs : List Ptr) (b : Ptr) → Linked prev next a xs b → mem (next b) (a ∷ xs) ≡ true
  next-mem a [] b l = ground (arith, l.1)
  next-mem a (x ∷ xs) b l = ground (arith, next-mem x xs b l.2)

  -- The first of a segment is what `a` points to.
  pub prev-mem :
      (a : Ptr) (xs : List Ptr) (b : Ptr) → Linked prev next a xs b → mem (prev a) (b ∷ xs) ≡ true
  prev-mem a [] b l = ground (arith, l.0)
  prev-mem a (x ∷ xs) b l = ground (arith, l.0)

  -- The neighbours of an entry stand in the segment or are its ends.
  pub neighbours-mem :
      (e a : Ptr) (xs : List Ptr) (b : Ptr)
      → Linked prev next a xs b
      → mem e xs ≡ true
      → (mem (next e) (a ∷ xs) ≡ true) × (mem (prev e) (b ∷ xs) ≡ true)
  neighbours-mem e a [] b l m = cc
  neighbours-mem e a (x ∷ xs) b l m =
      ground (arith, neighbours-mem e x xs b l.2, prev-mem x xs b l.2)

  -- No entry is its own neighbour.
  pub prev_ne :
      (e a : Ptr) (xs : List Ptr) (b : Ptr)
      → Linked prev next a xs b
      → mem e xs ≡ true
      → Distinct xs
      → mem b xs ≡ false
      → (prev e == e) ≡ false
  prev_ne e a [] b l m d nb = cc
  prev_ne e a (x ∷ xs) b l m d nb = ground (arith, prev_ne e x xs b l.2, prev-mem x xs b l.2)

  -- `unqueue`: the neighbours of `e` are joined, and `e` no longer points back.
  abbrev pub prev_unlinked : Ptr → Ptr → Ptr
  prev_unlinked e = update (update prev (next e) (prev e)) e null

  abbrev pub next_unlinked : Ptr → Ptr → Ptr
  next_unlinked e = update next (prev e) (next e)

  unlinked-Linked_first :
      (e a x : Ptr) (xs : List Ptr) (b : Ptr)
      → Linked prev next a (x ∷ xs) b
      → e ≡ x
      → Distinct (x ∷ xs)
      → mem a (x ∷ xs) ≡ false
      → mem b (x ∷ xs) ≡ false
      → Linked (prev_unlinked e) (next_unlinked e) a xs b
  unlinked-Linked_first e a x [] b l h d na nb = ground arith
  unlinked-Linked_first e a x (y ∷ ys) b l h d na nb = (
    ground arith,
    ground arith,
    Linked-frame prev next _ _ y ys b l.2.2 (λ z m. ground arith) (λ z m. ground arith),
  )

  pub unlinked-Linked :
      (e a : Ptr) (xs : List Ptr) (b : Ptr)
      → Linked prev next a xs b
      → mem e xs ≡ true
      → Distinct xs
      → mem a xs ≡ false
      → mem b xs ≡ false
      → Linked (prev_unlinked e) (next_unlinked e) a (without e xs) b
  unlinked-Linked e a [] b l m d na nb = cc
  unlinked-Linked e a (x ∷ xs) b l m d na nb = elim (Bool-cases (e == x)) [
    | inl hit ↦
        let same : e ≡ x = (==_iff e x).0 hit in
        rw (hit, without_absent e xs (rw same d.0))
          (unlinked-Linked_first e a x xs b l same d na nb)
    | inr miss ↦
        let near = neighbours-mem e x xs b l.2 (ground arith) in
        rw miss (
          ground (arith, near.0, near.1),
          ground (arith, near.0, near.1),
          unlinked-Linked e x xs b l.2 (ground arith) d.1 d.0 (ground arith),
        )
  ]

  -- `push`: `e` goes between `b` and what `b` pointed back to.
  abbrev pub prev_pushed : Ptr → Ptr → Ptr → Ptr
  prev_pushed e b = update (update prev e b) (next b) e

  abbrev pub next_pushed : Ptr → Ptr → Ptr → Ptr
  next_pushed e b = update (update next e (next b)) b e

  pub pushed-Linked :
      (e a : Ptr) (xs : List Ptr) (b : Ptr)
      → Linked prev next a xs b
      → mem e (a ∷ b ∷ xs) ≡ false
      → Distinct xs
      → mem a xs ≡ false
      → mem b xs ≡ false
      → Linked (prev_pushed e b) (next_pushed e b) a (xs ++ e ∷ []) b
  pushed-Linked e a [] b l m d na nb = ground arith
  pushed-Linked e a (x ∷ xs) b l m d na nb = (
    ground (arith, next-mem x xs b l.2),
    ground (arith),
    pushed-Linked e x xs b l.2 (ground arith) d.1 d.0 (ground arith),
  )
