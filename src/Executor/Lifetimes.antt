-- ===== src/Executor/Lifetimes.antt =====
-- A task that is polled twice, and no longer once it has completed.
use epox.Base.{ℕ}
use epox.Flags.{Bits, bits_flags}
use epox.Executor.{Executor}
use epox.Executor.Keeps.{rounds}
use epox.Executor.Tests.{quiet, start, twice}

abbrev polled_once : Executor Bits ℕ
polled_once = rounds quiet 1 twice start
