-- ===== src/ExceptionHandler.antt =====
-- src/ehandler.cc: handler_cb, which runs an int 0x80 as a system call, and an instruction with a
-- %gs prefix as one without, from fragments of code that it writes.
pub mod Contents
pub mod Machine
pub mod Fragments
pub mod SystemCall
pub mod Trampoline
pub mod Gs
pub mod Executed
pub mod Skipped
pub mod Threads
use lbw.Prelude.{
  ℕ, zero, suc, ◌+◌, ◌-◌, ◌*◌, ◌/◌, ◌%◌, ◌^◌, Bool, true, false, not, ◌||◌, ◌&&◌, List, [], ◌∷◌,
  ◌++◌, Option, none, some, ◌==◌, ltb, leb, length, if◌then◌else◌,
}
use lbw.Prelude.Results.{
  Errno, enomem, Result, ok, throw, fault, Exec, pure, raise, crash, continue, aborted,
  null_dereference, ◌>>=◌,
}
use lbw.Prelude.Text.{Bytes}
use lbw.Prelude.Words.{bytes32}
use lbw.GsCode.{ret, translate_gs_instruction, Translated}

abbrev pub Memory : Type 0
Memory = ℕ → ℕ

-- MemOp::Store of some bytes, and memcpy.
unfoldable pub store_bytes : ℕ → Bytes → Memory → Memory
store_bytes a [] m x = m x
store_bytes a (c ∷ cs) m x = if x == a then c else store_bytes (suc a) cs m x

unfoldable pub load_bytes : ℕ → ℕ → Memory → Bytes
load_bytes zero a m = []
load_bytes (suc n) a m = m a ∷ load_bytes n (suc a) m

-- The static variables of allocateFragment and handler_cb, the bytes in memory, and in `pages` how
-- they are mapped, which MakeWriteable and mmap change.
pub record Process (S : Type 0) : Type 0 where
  pub memory : Memory
  pub pages : S
  pub block : Option ℕ
  pub index : ℕ
  pub trampoline : Option ℕ
  pub eip : ℕ
  pub eax : ℕ

pub data Outcome : Type 0 where
  continue_execution continue_search : Outcome
  exited : ℕ → Outcome

-- ExceptionCode
pub data Exception : Type 0 where
  priv_instruction access_violation other_exception : Exception

abbrev pub is_access_violation : Exception → Bool
is_access_violation access_violation = true
is_access_violation _ = false

-- writeJumpInstruction
abbrev pub jump : ℕ → ℕ → Bytes
jump target address = 0xe9 ∷ bytes32 ((target + 2 ^ 32 + 2 ^ 32 - address - 5) % 2 ^ 32)

-- push Iz
abbrev pub push : ℕ → Bytes
push n = 0x68 ∷ bytes32 n

abbrev pub Act : Type 0 → Type 0 → Type 0
Act S A = Exec (Process S) A

module _ {S : Type 0} where
  abbrev pub store : ℕ → Bytes → Process S → Process S
  store a cs s = record s { memory = store_bytes a cs s.memory }

  unfoldable pub write_jump_instruction : ℕ → ℕ → Process S → Process S
  write_jump_instruction target address s = store address (jump target address) s

  abbrev pub on_pages : Result (Unit {0}) × S → Process S → Result (Unit {0}) × Process S
  on_pages (r, pages) s = (r, record s { pages = pages })

  -- `catch (int e)`, which warns and goes on.
  abbrev pub caught : Result (Unit {0}) × Process S → Result (Unit {0}) × Process S
  caught (throw e, s) = (ok tt, s)
  caught (r, s) = (r, s)

  -- The case of `int`; `linux_mce` is the address of Linux_MCE.
  unfoldable pub system_call_case : ℕ → ℕ → Act S Outcome
  system_call_case linux_mce trampoline s =
      let code = push (s.eip + 2) ++ (push linux_mce ++ ret ∷ []) in
      (ok continue_execution, record (store trampoline code s) { eip = trampoline })

  -- The case of a load of %gs.
  abbrev pub load_gs_case : Act S Outcome
  load_gs_case s =
      if s.eax == 0x53
      then (ok continue_execution, record s { eip = s.eip + 2 })
      else (fault aborted, s)

-- `map_block` is the call of mmap, with its result unless that is MAP_FAILED.
module _ {S : Type 0} (map_block : S → Option ℕ × S) where
  -- What allocateFragment does when its block is used up.
  abbrev pub new_block : Option ℕ × S → Act S ℕ
  new_block (none, pages) s = (throw enomem, record s { pages = pages })
  new_block (some a, pages) s = (ok a, record s { pages = pages; block = some a; index = 0 })

  abbrev pub fitting_block : ℕ → Option ℕ → Act S ℕ
  fitting_block size none s = new_block (map_block s.pages) s
  fitting_block size (some a) s =
      if ltb 0x10000 (s.index + size) then new_block (map_block s.pages) s else (ok a, s)

  unfoldable pub allocate_fragment : ℕ → Act S ℕ
  allocate_fragment size s =
      continue (fitting_block size s.block s)
        λ a s. (ok (a + s.index), record s { index = s.index + size })

  -- `static u8* trampoline = allocateFragment(32);`
  abbrev pub own_trampoline : Option ℕ → Act S ℕ
  own_trampoline (some a) s = (ok a, s)
  own_trampoline none s =
      continue (allocate_fragment 32 s) (λ a s. (ok a, record s { trampoline = some a }))

-- `make_writeable` is MakeWriteable of src/syscalls/mmap.cc.
module _ {S : Type 0} (map_block : S → Option ℕ × S) (make_writeable : ℕ → ℕ → Exec S Unit) where
  -- The try block of copy_or_jump.
  unfoldable pub copy_fragment : ℕ → ℕ → ℕ → Act S Unit
  copy_fragment ibegin trampoline olen s =
      continue (on_pages (make_writeable ibegin 5 s.pages) s) λ u s.
        continue (allocate_fragment map_block olen s) λ fragment s.
          let copied = store fragment (load_bytes olen trampoline s.memory) s in
          (ok tt, record (write_jump_instruction fragment ibegin copied) { eip = fragment })

  unfoldable pub copy_or_jump : ℕ → ℕ → ℕ → ℕ → Act S Outcome
  copy_or_jump ibegin ilen trampoline olen s =
      if leb 5 ilen
      then continue (caught (copy_fragment ibegin trampoline olen s))
          (λ u s. (ok continue_execution, s))
      else (ok continue_execution, record s { eip = trampoline })

  -- What the case of a %gs instruction does behind translate_gs_instruction.
  abbrev pub translated_case : ℕ → Translated → Act S Outcome
  translated_case trampoline (out, n) s =
      let written = store (trampoline + 5) out s in
      let behind = store trampoline (push (s.eip + n)) (record written { eip = s.eip + n }) in
      copy_or_jump s.eip n trampoline (length out + 5) behind

  -- The case of a %gs instruction; no instruction has more than 16 bytes.
  unfoldable pub gs_case : ℕ → ℕ → Act S Outcome
  gs_case linear trampoline s =
      continue (translate_gs_instruction linear (load_bytes 16 s.eip s.memory), s)
        (translated_case trampoline)

  -- `switch (code[0])`
  unfoldable pub by_opcode : ℕ → ℕ → ℕ → Act S Outcome
  by_opcode linux_mce linear trampoline s =
      let op = s.memory s.eip in
      let next = s.memory (s.eip + 1) in
      if op == 0xcd
      then (if next == 0x80 then system_call_case linux_mce trampoline s else (fault aborted, s))
      else if op == 0xf0
      then (if next == 0x65 then gs_case linear trampoline s else (fault aborted, s))
      else if op == 0x65
      then gs_case linear trampoline s
      else if op == 0x8e
      then (if next == 0xe8 then load_gs_case s else (fault aborted, s))
      else (ok (exited 0), s)

  unfoldable pub handler_cb : ℕ → ℕ → Exception → Act S Outcome
  handler_cb linux_mce linear e s =
      continue (own_trampoline map_block s.trampoline s) λ trampoline s.
        if not (is_access_violation e)
        then (ok continue_search, s)
        else if s.eip == 0 || ltb 0x8000_0000 s.eip
        then (fault aborted, s)
        else by_opcode linux_mce linear trampoline s
