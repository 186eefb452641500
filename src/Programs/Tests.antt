-- ===== src/Programs/Tests.antt =====
-- `run` with one task that yields once and then ends, and with one that panics.
use epox.Base.{ℕ, zero, suc, ◌≡◌, refl, false, some, []}
use epox.Flags.{Bits, bits, bits_flags}
use epox.Waker.{noop, task, pending, ready, ok}
use epox.EpollWaker.{EpollWaker}
use epox.Executor.{Executor, low, new, spawn, enqueue, highest_priority_runnable_task}
use epox.Executor.Events.{Kernel, events, fine}
use epox.Executor.Run.{wakes}
use epox.Programs.{gives, does, panics, Body, System, run_system, system_round, trace}
use epox.Programs.Renew.{Resources, unwinds, run}

-- A kernel that has no event.
abbrev quiet : Kernel Bits
quiet n timeout room = record { answer = events []; arrived = [] }

abbrev idle : EpollWaker Bits
idle = record { waker = noop; events = bits false false false; burst = 0 }

abbrev yields_once : Body Bits ℕ ℕ
yields_once t zero = does (wakes (task t)) (gives (pending, 1))
yields_once t (suc n) = gives (ready 7, suc n)

abbrev started : System Bits ℕ ℕ
started = record { executor = spawn 10 low (new 3 idle); stage = λ t. 0 }

abbrev open_pipe : Resources
open_pipe = record { pipe = ok 7; epoll = fine; add = fine }

abbrev spared : Executor Bits ℕ → Executor Bits ℕ → Executor Bits ℕ
spared old e = e

falls : run quiet (λ t n. panics) 1 spared open_pipe idle started ≡ some unwinds
unfolding run run_system system_round trace highest_priority_runnable_task spawn new enqueue
falls = refl
