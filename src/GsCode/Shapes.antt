-- ===== src/GsCode/Shapes.antt =====
-- src/ehandler.cc: that the cases of translate_gs_instruction fit the instructions, as the processor
-- reads them: how many bytes stand behind each opcode.
use lbw.Prelude.{ℕ, ◌+◌, ◌≡◌, ◌<◌, refl, Bool, true, false, ◌&&◌, ◌==◌}
use lbw.Prelude.Words.{all_below, all_below_lem}
use lbw.GsCode.{Shape, two_byte, offset, unknown, with_disp, either, shape}
use lbw.GsCode.Decoder.{Kind, escape, moffs, modrm_imm, kind}

-- Whether the lengths of a case are those of the instruction; an unknown opcode ends the process.
abbrev pub agree : Shape → Kind → Bool
agree two_byte escape = true
agree offset moffs = true
agree (with_disp n) (modrm_imm k) = n == 6 + k
agree (either m n) (modrm_imm k) = m == 2 + k && n == 6 + k
agree unknown k = true
agree _ k = false

table : all_below 256 (λ op. agree (shape op) (kind op)) ≡ true
unfolding all_below shape kind
table = refl

pub shape-kind : (op : ℕ) → op < 256 → agree (shape op) (kind op) ≡ true
shape-kind op h = all_below_lem 256 (λ op. agree (shape op) (kind op)) op table h
