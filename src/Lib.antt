-- ===== src/Lib.antt =====
-- A model of epox, a single-threaded executor of futures on epoll, and theorems about it.
--
-- The parts. Each thread has an executor (src/executor.rs) with three run queues, one per priority,
-- and a sleep queue. The queues are intrusive linked lists of tasks (src/queue.rs) that own a
-- reference to each task in them. A task that is polled (`run_task`) and has to wait stands in the
-- sleep queue until a wake moves it to the run queue of its priority. Wakes come from tasks of the
-- thread, from events of descriptors (`epoll_wait` finds the `EpollWaker` of the descriptor), and
-- from other threads through a pipe. A descriptor (src/fd.rs) polls a closure through its
-- `EpollWaker`, which registers the waker when the closure would block. A handle (src/task.rs) waits
-- for the output of a task, and one of src/thread.rs for the end of a thread.
--
-- The files.
--   Base          numbers, Booleans, options and lists that the other files share.
--   Queue         src/queue.rs: `push`, `pop`, `release`, `is_empty`, `drop`, `unqueue` and the others
--                 under the source's names, over a heap of `prev` and `next` pointers, strong counts
--                 and pinned heads. An access to an address that is not live is a fault, `none`.
--                 Queue/Model has the abstract view (a list per queue, a number of references held
--                 elsewhere per task); Queue/Unqueue, Push, Pop, Release and Create are about each
--                 operation on it, and Queue/Refine about sequences of calls.
--   Flags         the bit sets of nix, an interface with laws, and bits that meet it.
--   Waker         `Waker`, told apart by vtable and data, `Poll` and `Result`.
--   EpollWaker    `EpollWaker` of src/executor.rs: `new` and `poll_with`.
--   Fd            `Fd::poll_with` and `Fd::poll_with_mut` of src/fd.rs.
--   Executor      the state of `Executor` in src/executor.rs and the methods that move tasks, over the
--                 abstract view of the queues. Executor/Events has `epoll_wait`, `wake_from_pipe` and
--                 the wakes, Executor/Register `epoll_add`, `epoll_del` and `Fd::new`, Executor/Run
--                 `run_task` and the loops of `run` and `block_on`, Executor/Join `Handle::result`
--                 and `Handle::poll` of src/task.rs. Below Executor, Order is about the choice of a task,
--                 Tidy, Rule and Keeps about where tasks stand, Wakeups, Yielding, Aborted and Starving
--                 about wakes, Remain and Completion about the fate of a task, Clean, Fit, Rest and
--                 Retired about tasks that have completed, InLine and Served about its turn, Slots and
--                 Register/Same about descriptors, and End, Stop and Blocking about how the loops end.
--   Programs      futures as code whose polls look at the executor and keep a stage of their own
--                 between the polls, and `run` with them. A round of it is the round of Executor/Run
--                 in which the polled task takes the turn that its code gives. Programs/Renew is
--                 `Executor::new` with its errors and the whole `run`. Programs/Kept has the rules for
--                 code and for `run`, Mild, Going and Tame what polls that shut nothing down
--                 keep, and View the outputs of the tasks through a round.
--   Examples      the program of examples/tasks.rs. Examples/Tasks/Polls, Steps and Waiting are about
--                 the polls of its tasks, Start and Results about its runs. Examples/Yields has any
--                 number of tasks as the one of examples/yield.rs that yields after each step;
--                 Examples/Yields/Program and Main are the whole program of that file.
--   Tasks         `Inner`, `Builder`, `YieldFuture` of src/task.rs, and the functions of
--                 src/executor.rs that spawn. Tasks/Alone is about `block_on` of `yield_now`.
--   Wakers        `task_waker` of src/executor.rs as weak references.
--   Thread        the state that a thread and its handle share, of src/thread.rs. Thread/Schedule has
--                 the interleavings of the two.
--   Timers        `Timer` of src/timer.rs, `timeout`, `Timeout` and `sleep` of src/time.rs.
--   Signals       `AsyncSignal` of src/signal.rs: `new`, a poll of `receive`, and its drop, with the
--                 signal mask of the thread as an interface with laws.
--   Flush         `AsyncWriteFd::poll_flush` of src/futures.rs, over the model of threads.
--   Streams       `AsyncReadFd` and `AsyncWriteFd` of src/futures.rs: `new`, `poll_read`, `poll_write`.
--
-- What is a parameter. The kernel answers the n-th wait of an executor with events, EINTR or an
-- error, and with what other threads have written to the pipe. Futures are functions that say what
-- the n-th poll does to the executor (wake, spawn, abort, await, drop a handle, shut down, make, drop
-- and poll a descriptor) and how it ends. The closure of `poll_with`, the answers of `fcntl`,
-- `epoll_ctl` and `write`, what a read of a timer finds, whether a thread can be started, and what the
-- closure of a thread does are arguments, and so is which waits without a timeout of `block_on` never
-- return. Addresses are numbers, and the null pointer is 0.
--
-- Fuel. `EpollWaker.poll_with` takes fuel for its loop over EINTR: one for each call of the closure
-- that is interrupted is enough. `Queue.drop` takes fuel for its loop: one more than the length of
-- the queue is enough. `run_loop`, `run_system` and `block_on_loop` take fuel because futures may run
-- for ever. `burst` is a usize that is compared with 20 before it is counted up, and the other counts
-- are of things in memory, so no number is near its machine bound.
--
-- Panics. The functions of Executor/Run are those of polls that do not panic: a future awaits no handle
-- of the task that is being polled, and no write to a pipe is refused. In Programs the code of a poll
-- may panic, for these reasons or by itself, and the panic leaves `run`.
--
-- What is not modelled. `poll_close` of src/futures.rs only answers an error. src/lib.rs only names
-- the modules. The spans of the tracing feature, names and places of spawns have no effect on the
-- executor. The drop of a future runs code of the caller and is not followed, except that the
-- examples drop their timers and handles, and neither is what the waker of a combinator of futures
-- does when it is woken. Nested borrows of the executor are not followed.
-- The other programs of examples/, and those of tests/, mostly use other crates or the clock and are
-- not modelled.
mod Base
pub mod Queue
pub mod Flags
pub mod Waker
pub mod EpollWaker
pub mod Fd
pub mod Executor
pub mod Tasks
pub mod Programs
pub mod Examples
pub mod Wakers
pub mod Thread
pub mod Timers
pub mod Signals
pub mod Flush
pub mod Streams
