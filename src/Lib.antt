-- ===== src/Lib.antt =====
-- LBW runs Linux programs for ix86 on Interix, the Unix subsystem of Windows. It loads a Linux
-- executable into its own process, catches the program's system calls in an exception handler and
-- carries each of them out with the calls of Interix, whose constants, structures, ids and memory
-- granularity differ. A path is looked up by LBW itself, one element at a time, so that the program
-- sees a chroot and a /dev of its own. exec starts a new LBW, which learns its options from the
-- environment.
--
-- The parts, their code and their models. Source paths are from the repository's root.
--
--   Prelude       The names that all modules share: tests on numbers, lists, bit operations, tables of
--                 flags, byte strings, and the results of code that throws (a value, a thrown errno, or
--                 a fault: a use of a deleted block, a read out of bounds, a failed assertion, the end
--                 of the process, or no more fuel).
--   MemOp         src/MemOp.h: Align, AlignUp and Offset in 32 bits.
--   Interix       What the memory calls of Interix do, as a record that the model takes as a parameter.
--   BlockStore    src/syscalls/mmap.cc: the table _blocks of 64 KB blocks, each null, a mapping as a
--                 whole, or a fragmented block with a bit for each of its pages (GetBlock, GetPageMap,
--                 Unmap, UsePage, UnusePage, NukeIfUnused). A pointer to a deleted block is a state.
--   Mmap          src/syscalls/mmap.cc over the store: do_mmap, do_munmap, mremap, mprotect, msync and
--                 MakeWriteable.
--   Brk           src/syscalls/memory.cc: the break in its buffer.
--   Errno         src/linux_errno.cc and the try block of src/syscalls/_dispatch.cc.
--   FileFlags     src/filesystem/file.cc: the flags of open.
--   Signals       src/syscalls/signals.cc: numbers, sets and flags of signals, kill and tgkill.
--   Dirents       src/filesystem/FD.cc: the records of getdents and getdents64.
--   Credentials   src/syscalls/process.cc: ids with and without --fakeroot, limits, wait options.
--   Termios       src/filesystem/termios.cc: settings of terminals.
--   Fcntl         src/filesystem/RealFD_Fnctl.cc and FD::Fcntl: locks and the flags of descriptors.
--   Nodes         src/filesystem/*VFSNode.cc and FakeFile.cc: the directories that LBW knows. The class
--                 RootVFSNode is the constructor root of Node, InterixVFSNode is interix, DevVFSNode dev
--                 and PtsVFSNode pts; a virtual method is one function by clauses over the classes.
--                 Nodes/Ptys is findpty, which turns a number below /dev/pts into a path.
--   NodeCalls     The same files: the operations of each class, up to the call of Interix they end in.
--   PathWalk      src/filesystem/VFSNode.cc: VFSNode::Resolve, over any tree of nodes. walk is the loop
--                 over the elements, follow the loop over links. PathWalk/Paths says, without loops,
--                 where a list of elements leads.
--   Vfs           src/filesystem/VFS.cc, with the root and the current directory as state, and over it
--                 do_open of src/syscalls/fd.cc and three calls of src/syscalls/file.cc.
--   Descriptors   src/filesystem/FD.cc, with the table fds and its objects as state, and close, dup,
--                 dup2 and pipe of src/syscalls/fd.cc. The descriptors of Interix are a parameter.
--   ExecImage     src/exec/exec.cc: the environment of a new LBW and the first line of a script; cprintf
--                 of src/utils.cc.
--   CommandLine   src/main.cc: the options, and those that a new LBW takes from its environment.
--   Elf           src/exec/ElfLoader.cc, which maps segments with do_mmap of Mmap.
--   GsCode        src/ehandler.cc: translate_gs_instruction, which rewrites an instruction with a %gs
--                 prefix into one without. GsCode/Decoder says, apart from the code, what such
--                 instructions are and which address they use.
--   ExceptionHandler  src/ehandler.cc: allocateFragment, copy_or_jump and handler_cb, with the bytes of
--                 memory as state. ExceptionHandler/Machine runs push, ret and jmp from that memory.
--   Threads       src/Thread.cc: the start of a thread, as steps of its three threads, with the stop of the
--                 slave by PCSTOP and the deletion of the object.
--   InitialStack  src/user.cc: what RunElf puts on the stack of a new program.
--   SelectPoll    src/syscalls/selectpoll.cc: poll, by way of the select of Interix, a parameter.
--   Sockets       src/syscalls/sockets.cc: socketcall, up to the methods of FD that it calls.
--   Offsets       src/filesystem/RealFD.cc and src/syscalls/fd.cc: offsets and lengths of files.
--   Examples      Concrete inputs at which the theorems apply.
--
-- How they interact: a system call on a path goes from Vfs through PathWalk to the methods of Nodes,
-- and ends in a call of NodeCalls; its flags pass through FileFlags and an errno that it throws through
-- Errno. Elf and the calls on memory share BlockStore through Mmap. ExecImage writes the settings
-- that CommandLine reads. A system call enters through ExceptionHandler, which writes the translated
-- instructions of GsCode into its fragments.
--
-- Bounds and fuel. Numbers of 32 bits are natural numbers with their wrap-around written out
-- (MemOp.add32, Mmap.sub32). The loops of mmap.cc over pages or blocks take loop_fuel rounds, more than
-- a length of 32 bits has pages (BlockStore/Loops has the rule for them). The loops of
-- VFSNode::Resolve have no bound in the program: walk and follow take the number of rounds as fuel
-- (Vfs.rounds), of which a path uses one for each element and some for each link that it follows. The
-- loop of ElfLoader::Open over the program headers takes fuel too, since its counter is overwritten
-- and it may not end. All other functions are structural.
--
-- What the model takes as given: the calls of Interix and its constants are fields of records (Interix,
-- FileSystem, DescriptorCalls and those of Credentials, Termios and Fcntl), without laws except where a
-- theorem names them as hypotheses; mmap, MakeWriteable, select, lseek and ftruncate are arguments of the
-- functions that call them. The directory that chdir() sets is the argument of the call that follows it.
-- The exception handler runs for one exception at a time, and reads 16 bytes at Eip. The semaphores of
-- a thread are counters, and a step of a thread goes up to its next use of a shared member. Of struct
-- stat the model has the inode number and the mode. What stands in /dev when a device node is
-- made is a field of the root. Reference counts and destructors have no counterpart, except for the
-- blocks of mmap.cc, whose deletion is modelled, and `delete this` of Thread.cc.
--
-- Not modelled: reading and writing descriptors, ioctl, what sockets do with Interix, times, stat and
-- statfs (which copy structures), clone and futexes, messages, the build system and the website.
pub mod Prelude
pub mod MemOp
pub mod Interix
pub mod Nodes
pub mod NodeCalls
pub mod PathWalk
pub mod Vfs
pub mod Descriptors
pub mod BlockStore
pub mod Mmap
pub mod Brk
pub mod Errno
pub mod FileFlags
pub mod Signals
pub mod Dirents
pub mod Credentials
pub mod Termios
pub mod Fcntl
pub mod ExecImage
pub mod CommandLine
pub mod Elf
pub mod GsCode
pub mod ExceptionHandler
pub mod Threads
pub mod InitialStack
pub mod SelectPoll
pub mod Sockets
pub mod Offsets
pub mod Examples
