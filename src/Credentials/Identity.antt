-- ===== src/Credentials/Identity.antt =====
-- src/syscalls/process.cc: what a program can learn of its identity, and what it can change.
use mathlib.Core.Logic.{◌↔◌}
use lbw.Prelude.{ℕ, ◌≡◌, ◌≢◌, ◌<◌, ◌^◌, refl, Bool, true, List, [], ◌∷◌, arith}
use lbw.Prelude.Flags.{copy_bits-Apart, test, Apart}
use lbw.Prelude.Results.{ok, continue}
use lbw.Credentials.{
  Kernel, Call, high2lowuid, sys_getuid, sys_getuid16, sys_geteuid, sys_geteuid16, sys_getgid,
  sys_getgid16, sys_getegid, sys_getegid16, sys_getresuid, sys_getresgid, sys_setuid, sys_setgid,
  sys_setreuid, sys_setregid, sys_setresuid, sys_setresgid, convert_waitoptions_l2i, wait_rules,
}

-- A request to change an id.
pub data Change : Type 0 where
  to_uid to_gid : ℕ → Change
  to_reuid to_regid : ℕ → ℕ → Change
  to_resuid to_resgid : ℕ → ℕ → ℕ → Change

module _ (k : Kernel) (fake_root : Bool) where
  abbrev pub request : Change → Call k ℕ
  request (to_uid u) = sys_setuid k fake_root u
  request (to_gid g) = sys_setgid k fake_root g
  request (to_reuid r e) = sys_setreuid k fake_root r e
  request (to_regid r e) = sys_setregid k fake_root r e
  request (to_resuid r e s) = sys_setresuid k fake_root r e s
  request (to_resgid r e s) = sys_setresgid k fake_root r e s

  -- Some requests one after the other, until one fails.
  unfoldable pub requests : List Change → Call k ℕ
  requests [] p = (ok 0, p)
  requests (c ∷ cs) p = continue (request c p) (λ _. requests cs)

request-fake : (k : Kernel) (c : Change) (p : k.Process) → request k true c p ≡ (ok 0, p)
unfolding sys_setuid sys_setgid sys_setreuid sys_setregid sys_setresuid sys_setresgid
request-fake k (to_uid u) p = refl
request-fake k (to_gid u) p = refl
request-fake k (to_reuid r e) p = refl
request-fake k (to_regid r e) p = refl
request-fake k (to_resuid r e s) p = refl
request-fake k (to_resgid r e s) p = refl

-- With FakeRoot, requests to change ids succeed, however many are made, and leave the process as it
-- is; and every call that asks for ids answers 0, the root's, without changing it.
requests-fake :
    (k : Kernel) (cs : List Change) (p : k.Process)
    → (requests k true cs p ≡ (ok 0, p))
      × (sys_getuid k true p ≡ (ok 0, p))
      × (sys_getuid16 k true p ≡ (ok 0, p))
      × (sys_geteuid k true p ≡ (ok 0, p))
      × (sys_geteuid16 k true p ≡ (ok 0, p))
      × (sys_getgid k true p ≡ (ok 0, p))
      × (sys_getgid16 k true p ≡ (ok 0, p))
      × (sys_getegid k true p ≡ (ok 0, p))
      × (sys_getegid16 k true p ≡ (ok 0, p))
      × (sys_getresuid k true p ≡ (ok (0, 0, 0), p))
      × (sys_getresgid k true p ≡ (ok (0, 0, 0), p))
unfolding sys_getuid sys_getuid16 sys_geteuid sys_geteuid16 sys_getgid sys_getgid16 sys_getegid
    sys_getegid16 sys_getresuid sys_getresgid requests
requests-fake k cs p = (all cs, refl, refl, refl, refl, refl, refl, refl, refl, refl, refl)
  where
    all : (cs : List Change) → requests k true cs p ≡ (ok 0, p)
    all [] = refl
    all (c ∷ cs) = rw (requests, request-fake k c p) (all cs)

-- An id of 16 bits is reported as it is and one above 65536 as 65534; the 16 bits of a compatible
-- id hold what high2lowuid returns except for the one id 65536, which it does not replace.
high2lowuid_lem :
    (uid : ℕ)
    → (uid < 2 ^ 16 → high2lowuid uid ≡ uid)
      × (2 ^ 16 < uid → high2lowuid uid ≡ 65534)
      × ((high2lowuid uid < 2 ^ 16) ↔ (uid ≢ 2 ^ 16))
unfolding high2lowuid
high2lowuid_lem uid = (ground arith, ground arith, (ground arith, ground arith))

-- If WNOHANG and WUNTRACED of Interix are different single bits, the converted options have each
-- exactly if Linux's options have the flag of that name.
convert_waitoptions_l2i_lem :
    (wnohang wuntraced options : ℕ)
    → Apart (wait_rules wnohang wuntraced)
    → (test (convert_waitoptions_l2i wnohang wuntraced options) wnohang ≡ test options 1)
      × (test (convert_waitoptions_l2i wnohang wuntraced options) wuntraced ≡ test options 2)
unfolding convert_waitoptions_l2i
convert_waitoptions_l2i_lem wnohang wuntraced options h =
    let copied = copy_bits-Apart (wait_rules wnohang wuntraced) options h in (copied.0, copied.1.0)
