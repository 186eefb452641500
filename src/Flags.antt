-- ===== src/Flags.antt =====
-- The bit sets of nix (`EpollFlags`), which src/executor.rs and src/fd.rs use and do not define: an
-- interface of operations with the laws of bit sets that the proofs use.
use epox.Base.{◌≡◌, refl, Bool, true, false, ◌&&◌, ◌||◌, not, arith}

pub record Flags (F : Type 0) : Type 0 where
  pub empty : F
  pub input : F  -- EPOLLIN
  pub output : F  -- EPOLLOUT
  pub edge : F  -- EPOLLET
  pub union : F → F → F
  pub intersect : F → F → F
  pub contains : F → F → Bool
  pub is_empty : F → Bool
  pub empty_is_empty : is_empty empty ≡ true
  pub union-is_empty : (a b : F) → is_empty (union a b) ≡ (is_empty a && is_empty b)
  pub contains-union : (a b : F) → contains (union a b) b ≡ true
  pub empty-contains : (a b : F) → is_empty a ≡ true → contains a b ≡ is_empty b

-- Bit sets of three flags, with which the interface can be met.
pub record Bits : Type 0 where
  pub input : Bool
  pub output : Bool
  pub edge : Bool

abbrev pub bits : Bool → Bool → Bool → Bits
bits i o e = record { input = i; output = o; edge = e }

abbrev bits_union : Bits → Bits → Bits
bits_union a b = bits (a.input || b.input) (a.output || b.output) (a.edge || b.edge)

abbrev bits_intersect : Bits → Bits → Bits
bits_intersect a b = bits (a.input && b.input) (a.output && b.output) (a.edge && b.edge)

abbrev bits_contains : Bits → Bits → Bool
bits_contains a b =
    (not b.input || a.input) && ((not b.output || a.output) && (not b.edge || a.edge))

abbrev bits_is_empty : Bits → Bool
bits_is_empty a = not a.input && (not a.output && not a.edge)

pub bits_union-is_empty :
    (a b : Bits) → bits_is_empty (bits_union a b) ≡ (bits_is_empty a && bits_is_empty b)
bits_union-is_empty a b = ground arith

pub bits_contains-union : (a b : Bits) → bits_contains (bits_union a b) b ≡ true
bits_contains-union a b = ground arith

pub bits_empty-contains :
    (a b : Bits) → bits_is_empty a ≡ true → bits_contains a b ≡ bits_is_empty b
bits_empty-contains a b h = ground arith

instance abbrev pub bits_flags : Flags Bits
bits_flags = record {
  empty = bits false false false;
  input = bits true false false;
  output = bits false true false;
  edge = bits false false true;
  union = bits_union;
  intersect = bits_intersect;
  contains = bits_contains;
  is_empty = bits_is_empty;
  empty_is_empty = refl;
  union-is_empty = bits_union-is_empty;
  contains-union = bits_contains-union;
  empty-contains = bits_empty-contains;
}
