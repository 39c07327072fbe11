-- ===== src/Descriptors.antt =====
-- src/filesystem/FD.cc and src/syscalls/fd.cc: the table of the objects that stand for descriptors.
-- The descriptors themselves are those of Interix, a parameter. The table refers to the objects: one
-- that another caller still holds is changed in place. An object that nothing refers to stays in
-- the model, which makes no difference, since its destructor only frees its directory data.
pub mod Numbers
use lbw.Prelude.{ℕ, suc, ◌-◌, ◌≡◌, Option, none, some, ◌==◌, if◌then◌else◌}
use lbw.Prelude.Results.{
  enotdir, Result, ok, throw, fault, Exec, pure, raise, continue, ◌>>=◌, ◌>>◌,
}
use lbw.MemOp.{u32_mod}
use lbw.Nodes.{Node}

-- The members of FD that calls on other descriptors depend on: _fd and _node.
pub record FdObject : Type 0 where
  pub number : ℕ
  pub node : Option Node

-- The objects, by reference.
abbrev pub Heap : Type 0
Heap = ℕ → FdObject

-- std::map<int, Ref<FD>>
abbrev pub Fds : Type 0
Fds = ℕ → Option ℕ

-- The calls of Interix on descriptors, whose failure is a thrown errno.
pub record DescriptorCalls : Type 1 where
  pub State : Type 0
  -- fcntl(fd, F_GETFD, 0)
  pub getfd : ℕ → Exec State ℕ
  pub close : ℕ → Exec State ℕ
  pub dup : ℕ → Exec State ℕ
  pub dup2 : ℕ → ℕ → Exec State ℕ
  pub pipe : Exec State (ℕ × ℕ)

-- `fds[fd] = fdo`, and the erasure of an entry.
unfoldable pub with_entry : ℕ → Option ℕ → Fds → Fds
with_entry fd entry fds n = if n == fd then entry else fds n

-- A member of the object `o` is written, or the object is new.
unfoldable pub with_object : ℕ → FdObject → Heap → Heap
with_object o object heap n = if n == o then object else heap n

module _ (c : DescriptorCalls) where
  open c use {State, getfd, close, dup, dup2, pipe}

  -- The references from `next` on are not given to an object yet.
  pub record Process : Type 0 where
    pub fds : Fds
    pub heap : Heap
    pub next : ℕ
    pub host : State

  abbrev pub on_host : {A : Type 0} → Exec State A → Exec Process A
  on_host call p = let (r, s) = call p.host in (r, record p { host = s })

  abbrev pub object_of : ℕ → Exec Process FdObject
  object_of o p = (ok (p.heap o), p)

  -- FD::Set and FD::Unset
  unfoldable pub set : ℕ → ℕ → Exec Process Unit
  set fd o p = (ok tt, record p { fds = with_entry fd (some o) p.fds })

  unfoldable pub unset : ℕ → Exec Process Unit
  unset fd p = (ok tt, record p { fds = with_entry fd none p.fds })

  -- The memory of a new object, with its members.
  unfoldable pub allocate : FdObject → Exec Process ℕ
  allocate object p =
      (ok p.next, record p { heap = with_object p.next object p.heap; next = suc p.next })

  -- new RealFD(fd): the constructor of FD enters the object in the table.
  unfoldable pub new_real_fd : ℕ → Exec Process ℕ
  unfolding allocate set
  new_real_fd fd = do o ← allocate (record { number = fd; node = none }); set fd o; pure o

  unfoldable pub create_new_fdo : ℕ → Exec Process ℕ
  unfolding new_real_fd set
  create_new_fdo fd = do on_host (getfd fd); fdo ← new_real_fd fd; set fd fdo; pure fdo

  -- FD::Get
  unfoldable pub get : ℕ → Exec Process ℕ
  unfolding create_new_fdo
  get fd p = elim (p.fds fd) [ none ↦ create_new_fdo fd p | some o ↦ (ok o, p) ]

  abbrev pub node_or_enotdir : Option Node → Exec Process Node
  node_or_enotdir none = raise enotdir
  node_or_enotdir (some n) = pure n

  -- FD::GetVFSNodeFor; LINUX_AT_FDCWD is -100.
  unfoldable pub get_vfs_node_for : Node → ℕ → Exec Process Node
  unfolding get
  get_vfs_node_for cwd fd =
      if fd == u32_mod - 100
      then pure cwd
      else (do o ← get fd; object ← object_of o; node_or_enotdir object.node)

  -- `_fd = n;`
  unfoldable pub store_number : ℕ → ℕ → Exec Process Unit
  store_number o n p =
      (ok tt, record p { heap = with_object o (record (p.heap o) { number = n }) p.heap })

  -- FD::Close and FD::Dup of an object; a destfd of -1 is for dup.
  unfoldable pub close_object : ℕ → Exec Process Unit
  unfolding unset store_number
  close_object o = do
    object ← object_of o
    on_host (close object.number)
    unset object.number
    store_number o (u32_mod - 1)

  unfoldable pub dup_object : ℕ → ℕ → Exec Process ℕ
  dup_object o destfd = do
    object ← object_of o
    if destfd == u32_mod - 1
        then on_host (dup object.number)
        else on_host (dup2 object.number destfd)

  unfoldable pub sys_close : ℕ → Exec Process ℕ
  unfolding get close_object
  sys_close fd = do o ← get fd; close_object o; pure 0

  unfoldable pub sys_dup : ℕ → Exec Process ℕ
  unfolding get dup_object
  sys_dup fd = do o ← get fd; dup_object o (u32_mod - 1)

  unfoldable pub sys_dup2 : ℕ → ℕ → Exec Process ℕ
  unfolding get dup_object
  sys_dup2 oldfd newfd = do o ← get oldfd; dup_object o newfd

  unfoldable pub sys_pipe : Exec Process ℕ
  unfolding new_real_fd
  sys_pipe = do ends ← on_host pipe; new_real_fd ends.0; new_real_fd ends.1; pure 0
