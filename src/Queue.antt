-- ===== src/Queue.antt =====
-- src/queue.rs: a queue as an intrusive, circular, doubly linked list.
--
-- `Heap` holds the `prev` and `next` fields of every QueueEntry by address, the strong count of
-- every Arc, and the addresses of the pinned queue heads. An access to an address that holds
-- neither a head nor a live Arc faults (`none`). The head of a queue is its entry `head`, so a
-- queue is named by the address of its head. An Arc is named by the address of its entry, since
-- `from_entry` and `with_entry` are a constant offset apart.
pub mod Links
pub mod Model
pub mod Unqueue
pub mod Push
pub mod Pop
pub mod Release
pub mod Create
pub mod Refine
mod Tests
use epox.Base.{
  ℕ, zero, suc, ◌+◌, ◌-◌, ◌≡◌, Bool, true, false, ◌||◌, not, Option, none, some, ltb, ◌==◌,
  if◌then◌else◌, update,
}
use Links.{Ptr, null}

pub record Heap : Type 0 where
  pub prev : Ptr → Ptr
  pub next : Ptr → Ptr
  pub strong : Ptr → ℕ
  pub pinned : Ptr → Bool

abbrev pub is_live : Heap → Ptr → Bool
is_live h p = h.pinned p || ltb 0 (h.strong p)

-- `none` is a fault: an access through a null or dangling pointer.
abbrev pub Cmd : Type 0 → Type 0
Cmd A = Heap → Option (A × Heap)

abbrev pub pure : {A : Type 0} → A → Cmd A
pure a h = some (a, h)

abbrev pub and_then : {A B : Type 0} → Option (A × Heap) → (A → Cmd B) → Option (B × Heap)
and_then none f = none
and_then (some (a, h)) f = f a h

infixl 5 ◌>>=◌ ◌>>◌
abbrev pub ◌>>=◌ : {A B : Type 0} → Cmd A → (A → Cmd B) → Cmd B
m >>= f = λ h. and_then (m h) f

abbrev pub ◌>>◌ : {B : Type 0} → Cmd (Unit {0}) → Cmd B → Cmd B
m >> k = m >>= λ _. k

unfoldable pub read_prev : Ptr → Cmd Ptr
read_prev p h = if is_live h p then some (h.prev p, h) else none

unfoldable pub read_next : Ptr → Cmd Ptr
read_next p h = if is_live h p then some (h.next p, h) else none

unfoldable pub set_prev : Ptr → Ptr → Cmd (Unit {0})
set_prev p v h = if is_live h p then some (tt, record h { prev = update h.prev p v }) else none

unfoldable pub set_next : Ptr → Ptr → Cmd (Unit {0})
set_next p v h = if is_live h p then some (tt, record h { next = update h.next p v }) else none

-- Dropping an Arc. At a count of zero the address is dead.
unfoldable pub drop_ref : Ptr → Cmd (Unit {0})
drop_ref p h =
    if ltb 0 (h.strong p)
    then some (tt, record h { strong = update h.strong p (h.strong p - 1) })
    else none

module _ (p : Ptr) (h : Heap) (live : is_live h p ≡ true) where
  pub read_prev_live : read_prev p h ≡ some (h.prev p, h)
  unfolding read_prev
  read_prev_live = rw live

  pub read_next_live : read_next p h ≡ some (h.next p, h)
  unfolding read_next
  read_next_live = rw live

  pub set_prev_live : (v : Ptr) → set_prev p v h ≡ some (tt, record h { prev = update h.prev p v })
  unfolding set_prev
  set_prev_live v = rw live

  pub set_next_live : (v : Ptr) → set_next p v h ≡ some (tt, record h { next = update h.next p v })
  unfolding set_next
  set_next_live v = rw live

-- `QueueEntry::new` of an entry that is pinned at `p` in a new Arc.
unfoldable pub new_entry : Ptr → Heap → Heap
new_entry p h = record h {
  prev = update h.prev p null;
  next = update h.next p null;
  strong = update h.strong p 1;
}

-- `Queue::new`, pinned at `q`.
unfoldable pub new : Ptr → Heap → Heap
new q h = record h {
  prev = update h.prev q null;
  next = update h.next q null;
  pinned = update h.pinned q true;
}

-- `Queue::init`
unfoldable pub init : Ptr → Cmd (Unit {0})
init q = do set_prev q q; set_next q q

-- `QueueEntry::is_queued`
unfoldable pub is_queued : Ptr → Cmd Bool
is_queued e = do p ← read_prev e; pure (not (p == null))

-- The body of `unqueue` for an entry that is queued.
unfoldable pub unlink : Ptr → Cmd (Unit {0})
unlink e = do
  p ← read_prev e
  n ← read_next e
  set_next p n
  n' ← read_next e
  p' ← read_prev e
  set_prev n' p'
  set_prev e null

-- `QueueEntry::unqueue`
unfoldable pub unqueue : Ptr → Cmd (Unit {0})
unqueue e = do queued ← is_queued e; if not queued then pure tt else unlink e

-- The five pointer writes of `Queue::push`.
unfoldable pub link : Ptr → Ptr → Cmd (Unit {0})
link q e = do
  n ← read_next q
  set_next e n
  set_prev e q
  n' ← read_next q
  set_prev n' e
  set_next q e

-- `Queue::push`. The caller's Arc goes to the list if the entry was not queued, and is dropped
-- otherwise.
unfoldable pub push : Ptr → Ptr → Cmd (Unit {0})
push q e = do
  was_queued ← is_queued e
  unqueue e
  link q e
  if not was_queued then pure tt else drop_ref e

-- `Queue::is_empty`
unfoldable pub is_empty : Ptr → Cmd Bool
is_empty q = do p ← read_prev q; pure (p == q)

-- `Queue::pop`. The list's Arc goes to the caller.
unfoldable pub pop : Ptr → Cmd (Option Ptr)
pop q = do
  empty ← is_empty q
  if empty then pure none else (do e ← read_prev q; unqueue e; pure (some e))

-- `Queue::release`. The queue's Arc is dropped if there is one, and then the caller's.
unfoldable pub release : Ptr → Cmd (Unit {0})
release e = do queued ← is_queued e; if queued then drop_ref e else pure tt; unqueue e; drop_ref e

-- The loop of `Queue::drop`: each entry that is popped is dropped at once. `none` also stands
-- for a lack of fuel.
drop_loop : ℕ → Ptr → Cmd (Unit {0})
drop_loop zero q h = none
drop_loop (suc k) q h =
    (do e ← pop q; elim e [ none ↦ pure tt | some p ↦ drop_ref p >> drop_loop k q ]) h

unfoldable pub drop : ℕ → Ptr → Cmd (Unit {0})
unfolding drop_loop
drop = drop_loop
