-- ===== src/Wakers/Tests.antt =====
-- A waker is built, wakes through a closed pipe, and is dropped: its weak reference stays.
use epox.Base.{◌≡◌, refl, true, [], update}
use epox.Wakers.{Weaks}
use epox.Wakers.Balance.{Ledger, one_more, one_less}

abbrev owners : Ledger
owners = record { held = one_less (one_more (λ _. 0) 5) 5; lost = update (λ _. 0) 5 1 }

abbrev references : Weaks
references = record {
  weak = one_less (one_more (one_more (λ _. 0) 5) 5) 5;
  alive = λ _. true;
  pipe = [];
}

one_left : references.weak 5 ≡ 1
one_left = refl
