-- ===== src/Executor/Register.antt =====
-- `epoll_add` and `epoll_del`, and the ends of an `Fd` in src/fd.rs. The answers of `fcntl` and
-- `epoll_ctl` are arguments.
pub mod Same
use epox.Base.{suc, ◌-◌, update}
use epox.Queue.Links.{Ptr}
use epox.Flags.{Flags}
use epox.EpollWaker
use epox.Executor.{Executor}
use epox.Executor.Events.{Status, fine, fails}

module _ {F V : Type 0} where
  -- `Executor::epoll_add`
  unfoldable pub epoll_add : Status → Executor F V → Executor F V × Status
  epoll_add ctl e = (record e { slots = suc e.slots }, ctl)

  -- `Executor::epoll_del`. `Vec::pop` of an empty vector does nothing.
  unfoldable pub epoll_del : Status → Executor F V → Executor F V × Status
  epoll_del ctl e = (record e { slots = e.slots - 1 }, ctl)

  -- `Fd::drop` while the executor is there.
  unfoldable pub drop_fd : Status → Executor F V → Executor F V
  unfolding epoll_del
  drop_fd ctl e = (epoll_del ctl e).0

-- The kernel's part in `Fd::new`, in the order of the calls. `undo` answers the `epoll_ctl` of the
-- drop of an `Fd` that could not be registered.
pub record Setup : Type 0 where
  pub get_flags : Status
  pub set_flags : Status
  pub add : Status
  pub undo : Status

module _ {F V : Type 0} ⦃flags : Flags F⦄ where
  unfoldable pub add_or_drop : Status → Executor F V × Status → Executor F V × Status
  unfolding drop_fd
  add_or_drop undo (e, fine) = (e, fine)
  add_or_drop undo (e, fails n) = (drop_fd undo e, fails n)

  unfoldable pub register : Ptr → F → Status → Status → Executor F V → Executor F V × Status
  unfolding add_or_drop
  register key events add undo e = add_or_drop undo (
      epoll_add add (record e {
        epoll_waker =
            update e.epoll_waker key
              (EpollWaker.new (flags.intersect events (flags.union flags.input flags.output)));
      }))

  -- `Fd::new` of events of interest, with the `EpollWaker` boxed at `key`.
  unfoldable pub new_fd : Ptr → F → Setup → Executor F V → Executor F V × Status
  unfolding register epoll_add
  new_fd key events s e = elim s.get_flags [
    | fails n ↦ (e, fails n)
    | fine ↦ elim s.set_flags [ fails n ↦ (e, fails n) | fine ↦ register key events s.add s.undo e ]
  ]
