-- ===== src/ExceptionHandler/Machine.antt =====
-- The processor, for the instructions that src/ehandler.cc writes around a translated one, as its
-- manual has them: push of a word, ret and jmp.
use lbw.Prelude.{
  ℕ, zero, suc, ◌+◌, ◌-◌, ◌%◌, ◌^◌, ◌≡◌, ◌<◌, refl, List, [], ◌∷◌, ◌++◌, ◌==◌, Option, none, some,
  if◌then◌else◌, arith,
}
use lbw.Prelude.Words.{word32, word32-bytes32}
use lbw.ExceptionHandler.{Memory, push, jump}
use lbw.ExceptionHandler.Contents.{Holds, first-Holds, second-Holds}
use lbw.GsCode.{ret}

-- `stack` has the words on the stack, the last one pushed first.
pub record Cpu : Type 0 where
  pub eip : ℕ
  pub stack : List ℕ

abbrev pub word_at : Memory → ℕ → ℕ
word_at m a = word32 (m a) (m (suc a)) (m (suc (suc a))) (m (suc (suc (suc a))))

abbrev pub pop : List ℕ → Option Cpu
pop [] = none
pop (w ∷ stack) = some (record { eip = w; stack = stack })

-- One instruction; none for others than these three.
unfoldable pub execute : Memory → Cpu → Option Cpu
execute m c =
    let op = m c.eip in
    if op == 0x68
    then some (record { eip = c.eip + 5; stack = word_at m (suc c.eip) ∷ c.stack })
    else if op == 0xe9
    then some (record { eip = (c.eip + 5 + word_at m (suc c.eip)) % 2 ^ 32; stack = c.stack })
    else if op == 0xc3
    then pop c.stack
    else none

abbrev pub next : Memory → Option Cpu → Option Cpu
next m none = none
next m (some c) = execute m c

-- n instructions.
unfoldable pub run : ℕ → Memory → Cpu → Option Cpu
run zero m c = some c
run (suc n) m c = next m (run n m c)

abbrev pub cpu : ℕ → List ℕ → Cpu
cpu eip stack = record { eip = eip; stack = stack }

module _ (m : Memory) (a : ℕ) (stack : List ℕ) where
  pub execute-push :
      (n : ℕ)
      → n < 4294967296
      → Holds a (push n) m
      → execute m (cpu a stack) ≡ some (cpu (a + 5) (n ∷ stack))
  unfolding execute
  execute-push n small (op, (b0, (b1, (b2, (b3, done))))) =
      let word : word_at m (suc a) ≡ n = rw (b0, b1, b2, b3) (omega (arith, word32-bytes32 n)) in
      rw op (rw word refl)

  pub execute-jump :
      (target : ℕ)
      → target < 2 ^ 32
      → a < 2 ^ 32
      → Holds a (jump target a) m
      → execute m (cpu a stack) ≡ some (cpu target stack)
  unfolding execute
  execute-jump target small small_a (op, (b0, (b1, (b2, (b3, done))))) =
      let rel = (target + 2 ^ 32 + 2 ^ 32 - a - 5) % 2 ^ 32 in
      let word : word_at m (suc a) ≡ rel =
        rw (b0, b1, b2, b3) (omega (arith, word32-bytes32 rel)) in
      let lands : (a + 5 + rel) % 2 ^ 32 ≡ target = omega arith in rw op (rw word (rw lands refl))

  pub execute-ret :
      (to : ℕ) → Holds a (ret ∷ []) m → execute m (cpu a (to ∷ stack)) ≡ some (cpu to stack)
  unfolding execute
  execute-ret to (op, done) = rw op refl

-- Two words pushed, the last of which is where ret goes.
pub run-push-ret :
    (m : Memory) (t a b : ℕ) (stack : List ℕ)
    → a < 4294967296
    → b < 4294967296
    → Holds t (push a ++ (push b ++ ret ∷ [])) m
    → run 3 m (cpu t stack) ≡ some (cpu b (a ∷ stack))
unfolding run
run-push-ret m t a b stack small_a small_b whole =
    let behind = second-Holds t (t + 5) (push a) (push b ++ ret ∷ []) m refl whole in
    let one =
      execute-push m t stack a small_a (first-Holds t (push a) (push b ++ ret ∷ []) m whole) in
    let two =
      execute-push m (t + 5) (a ∷ stack) b small_b
        (first-Holds (t + 5) (push b) (ret ∷ []) m behind) in
    let three =
      execute-ret m (t + 5 + 5) (a ∷ stack) b
        (second-Holds (t + 5) (t + 5 + 5) (push b) (ret ∷ []) m refl behind) in
    rw one (rw two three)
