-- ===== src/Executor/Register/Same.antt =====
-- What `Fd::new` and the drop of an `Fd` leave as it is.
use epox.Base.{◌≡◌, refl}
use epox.Queue.Links.{Ptr}
use epox.Flags.{Flags}
use epox.Executor.{Executor}
use epox.Executor.Events.{Status, fine, fails}
use epox.Executor.Register.{epoll_add, epoll_del, drop_fd, Setup, register, add_or_drop, new_fd}

module _ {F V : Type 0} where
  -- The tasks of the executor and its flag for a shutdown stay.
  pub record AreSame (e e' : Executor F V) : Type 0 where
    pub queues : e'.queues ≡ e.queues
    pub cell : e'.cell ≡ e.cell
    pub pipe_wr : e'.pipe_wr ≡ e.pipe_wr
    pub shutdown : e'.shutdown ≡ e.shutdown
    pub polls : e'.polls ≡ e.polls

  pub same : (e : Executor F V) → AreSame e e
  same e = record { queues = refl; cell = refl; pipe_wr = refl; shutdown = refl; polls = refl }

  pub drop_fd-AreSame : (ctl : Status) (e : Executor F V) → AreSame e (drop_fd ctl e)
  unfolding drop_fd epoll_del
  drop_fd-AreSame ctl e = record {
    queues = refl;
    cell = refl;
    pipe_wr = refl;
    shutdown = refl;
    polls = refl;
  }

module _ {F V : Type 0} ⦃flags : Flags F⦄ where
  register-AreSame :
      (key : Ptr) (events : F) (add undo : Status) (e : Executor F V)
      → AreSame e (register key events add undo e).0
  unfolding register add_or_drop epoll_add epoll_del drop_fd
  register-AreSame key events fine undo e = record {
    queues = refl;
    cell = refl;
    pipe_wr = refl;
    shutdown = refl;
    polls = refl;
  }
  register-AreSame key events (fails n) undo e = record {
    queues = refl;
    cell = refl;
    pipe_wr = refl;
    shutdown = refl;
    polls = refl;
  }

  pub new_fd-AreSame :
      (key : Ptr) (events : F) (s : Setup) (e : Executor F V) → AreSame e (new_fd key events s e).0
  unfolding new_fd
  new_fd-AreSame key events s e = split s.get_flags refl s.set_flags refl
    where
      split :
          (get : Status)
          → s.get_flags ≡ get
          → (set : Status) → s.set_flags ≡ set
          → AreSame e (new_fd key events s e).0
      split (fails n) g set f = rw g (same e)
      split fine g (fails n) f = rw (g, f) (same e)
      split fine g fine f = rw (g, f) (register-AreSame key events s.add s.undo e)
