-- ===== src/Termios/RoundTrip.antt =====
-- src/filesystem/termios.cc: terminal settings that go to Interix and back.
use lbw.Prelude.{
  ℕ, zero, suc, ◌*◌, ◌/◌, ◌%◌, ◌^◌, ◌<◌, ◌≡◌, ◌≢◌, refl, ◌∙◌, Bool, true, false, ◌||◌, ◌&&◌, List,
  [], ◌∷◌, bit_and, bit_or, ◌==◌, arith, if◌then◌else◌, Bool-cases, inl, inr, ==→eq,
}
use lbw.Prelude.Flags.{
  Rule, copy_bits, swap, keep, test, All, All-map, Apart, copy_bits-Apart, copy_back, and-copy_bits,
  test-or, All-zip, all_clear, all_clear-All,
}
use lbw.Prelude.Bits.{and-ones, and_step, and-or, and-zero-left, or-zero-left}
use lbw.MemOp.{u32_mod}
use lbw.Termios.{
  TermFlags, LinuxTermios, linux_csize, linux_cbaud, speed_to_linux, speed_to_interix, copy_cc,
  iflag_rules, oflag_rules, cflag_rules, lflag_rules, speeds, cc_rules, convert_speed_i2l,
  convert_speed_l2i, size_i2l, size_l2i, termios_i2l, termios_l2i,
}

-- A field of the rules of a table has different values in all of them; and the test of that.
abbrev pub Differ : (Rule → ℕ) → List Rule → Type 0
Differ f [] = Unit
Differ f (r ∷ rs) = All (λ s. f s ≢ f r) rs × Differ f rs

abbrev pub differ : (Rule → ℕ) → List Rule → Bool
differ f [] = true
differ f (r ∷ rs) = all_clear (λ s. f s == f r) rs && differ f rs

pub differ-Differ : (f : Rule → ℕ) (rs : List Rule) → differ f rs ≡ true → Differ f rs
differ-Differ f [] h = tt
differ-Differ f (r ∷ rs) h = (
  All-map _ _ rs (λ s e. ground arith) (all_clear-All (λ s. f s == f r) rs (ground arith)),
  differ-Differ f rs (ground arith),
)

abbrev pub target : Rule → ℕ
target r = r.to

abbrev pub source : Rule → ℕ
source r = r.from

-- What <termios.h> promises: flags are bits of their own, the flags of c_cflag lie outside CSIZE and
-- the four sizes are different values within it, and the speeds and the indices of control
-- characters are different numbers.
pub record Encodes (c : TermFlags) : Type 0 where
  pub iflag : Apart (iflag_rules c)
  pub oflag : Apart (oflag_rules c)
  pub cflag : Apart (cflag_rules c)
  pub lflag : Apart (lflag_rules c)
  pub outside : All (λ r. test r.to c.csize ≡ false) (cflag_rules c)
  pub cs5_clear : All (λ r. test c.cs5 r.to ≡ false) (cflag_rules c)
  pub cs6_clear : All (λ r. test c.cs6 r.to ≡ false) (cflag_rules c)
  pub cs7_clear : All (λ r. test c.cs7 r.to ≡ false) (cflag_rules c)
  pub cs8_clear : All (λ r. test c.cs8 r.to ≡ false) (cflag_rules c)
  pub cs5_within : bit_and c.cs5 c.csize ≡ c.cs5
  pub cs6_within : bit_and c.cs6 c.csize ≡ c.cs6
  pub cs7_within : bit_and c.cs7 c.csize ≡ c.cs7
  pub cs8_within : bit_and c.cs8 c.csize ≡ c.cs8
  pub cs6-ne-cs5 : c.cs6 ≢ c.cs5
  pub cs7-ne-cs5 : c.cs7 ≢ c.cs5
  pub cs7-ne-cs6 : c.cs7 ≢ c.cs6
  pub cs8-ne-cs5 : c.cs8 ≢ c.cs5
  pub cs8-ne-cs6 : c.cs8 ≢ c.cs6
  pub cs8-ne-cs7 : c.cs8 ≢ c.cs7
  pub speeds_differ : Differ target (speeds c)
  pub cc_differ : Differ target (cc_rules c)

-- Whether a table has a source value.
abbrev pub has_source : List Rule → ℕ → Bool
has_source [] x = false
has_source (r ∷ rs) x = (x == r.from) || has_source rs x

speed_target :
    (b0 y : ℕ) (rs : List Rule) (x : ℕ)
    → has_source rs x ≡ true
    → All (λ s. s.to ≢ y) rs
    → speed_to_interix b0 rs x ≢ y
speed_target b0 y [] x h k = cc
speed_target b0 y (r ∷ rs) x h k = elim (Bool-cases (x == r.from)) [
  | inl e ↦ rw e k.0
  | inr e ↦ rw e (speed_target b0 y rs x (rw e at h) k.1)
]

speed_back :
    (b0 : ℕ) (rs : List Rule) (x : ℕ)
    → has_source rs x ≡ true
    → Differ target rs
    → speed_to_linux rs (speed_to_interix b0 rs x) ≡ x
speed_back b0 [] x h d = cc
speed_back b0 (r ∷ rs) x h d = elim (Bool-cases (x == r.from)) [
  | inl e ↦ rw e (ground (arith, ==→eq x r.from e))
  | inr e ↦ rw e (
      ground (arith, speed_target b0 r.to rs x (rw e at h) d.0, speed_back b0 rs x (rw e at h) d.1))
]

-- An index that no rule of a table writes keeps its value.
cc_kept :
    (rs : List Rule) (src dst : ℕ → ℕ) (j : ℕ)
    → All (λ s. s.to ≢ j) rs
    → copy_cc rs src dst j ≡ dst j
unfolding copy_cc
cc_kept [] src dst j h = refl
cc_kept (r ∷ rs) src dst j h =
    cc_kept rs src (λ i. if i == r.to then src r.from else dst i) j h.1 ∙ ground (arith, h.0)

cc_copied :
    (rs : List Rule) (src dst : ℕ → ℕ)
    → Differ target rs
    → All (λ r. copy_cc rs src dst r.to ≡ src r.from) rs
unfolding copy_cc
cc_copied [] src dst h = tt
cc_copied (r ∷ rs) src dst h =
    let next : ℕ → ℕ = λ i. if i == r.to then src r.from else dst i in
    (cc_kept rs src next r.to h.0 ∙ ground arith, cc_copied rs src next h.1)

swap-All : (rs : List Rule) (j : ℕ) → All (λ s. s.from ≢ j) rs → All (λ s. s.to ≢ j) (swap rs)
unfolding swap
swap-All [] j h = tt
swap-All (r ∷ rs) j h = (h.0, swap-All rs j h.1)

cc_back :
    (rs : List Rule) (src z dst : ℕ → ℕ)
    → Differ source rs
    → All (λ r. z r.to ≡ src r.from) rs
    → All (λ r. copy_cc (swap rs) z dst r.from ≡ src r.from) rs
unfolding copy_cc swap
cc_back [] src z dst h k = tt
cc_back (r ∷ rs) src z dst h k =
    let next : ℕ → ℕ = λ i. if i == r.from then z r.to else dst i in
    (
      cc_kept (swap rs) z next r.from (swap-All rs r.from h.0) ∙ ground (arith, k.0),
      cc_back rs src z next h.1 k.1,
    )

-- The size field is a multiple of 16 below 64.
sixteens : (x : ℕ) → (q : ℕ) × (bit_and x linux_csize ≡ q * 16) × (q < 4)
sixteens x =
    let y = x / 2 / 2 / 2 / 2 in
    (
      bit_and y 3,
      omega (
        arith,
        and_step x 0o60,
        and_step (x / 2) 0o30,
        and_step (x / 2 / 2) 0o14,
        and_step (x / 2 / 2 / 2) 6,
      ),
      omega (arith, and-ones 2 y),
    )

-- Both speeds of a setting are among those that the program knows.
abbrev pub HasSpeeds : TermFlags → LinuxTermios → Type 0
HasSpeeds c lt =
    (has_source (speeds c) (bit_and (lt.c_cflag / 2 ^ 16) linux_cbaud) ≡ true)
    × (has_source (speeds c) (bit_and lt.c_cflag linux_cbaud) ≡ true)

sources-Differ : (c : TermFlags) → Differ source (cc_rules c)
unfolding cc_rules
sources-Differ c = differ-Differ source (cc_rules c) refl

module _ (c : TermFlags) (e : Encodes c) where
  size_lem :
      (q : ℕ)
      → q < 4
      → (All (λ r. test (size_l2i c (q * 16)) r.to ≡ false) (cflag_rules c))
        × (bit_and (size_l2i c (q * 16)) c.csize ≡ size_l2i c (q * 16))
        × (size_i2l c (size_l2i c (q * 16)) ≡ q * 16)
  unfolding size_l2i size_i2l
  size_lem zero h = (e.cs5_clear, e.cs5_within, ground arith)
  size_lem (suc zero) h = (e.cs6_clear, e.cs6_within, ground (arith, e.cs6-ne-cs5))
  size_lem (suc (suc zero)) h =
      (e.cs7_clear, e.cs7_within, ground (arith, e.cs7-ne-cs5, e.cs7-ne-cs6))
  size_lem (suc (suc (suc zero))) h =
      (e.cs8_clear, e.cs8_within, ground (arith, e.cs8-ne-cs5, e.cs8-ne-cs6, e.cs8-ne-cs7))
  size_lem (suc (suc (suc (suc q)))) h = absurd (omega arith)

  speed_lem :
      (x : ℕ) → has_source (speeds c) x ≡ true → convert_speed_i2l c (convert_speed_l2i c x) ≡ x
  unfolding convert_speed_i2l convert_speed_l2i
  speed_lem x h = speed_back c.b0 (speeds c) x h e.speeds_differ

  flags_back :
      (rs : List Rule) (x : ℕ)
      → Apart rs
      → copy_bits (swap rs) (copy_bits rs x 0) 0 ≡ copy_bits (keep rs) x 0
  flags_back rs x h = copy_back rs x (copy_bits rs x 0) 0 (copy_bits-Apart rs x h)

  -- The control modes, which go with the size in one word.
  control_flags :
      (x size : ℕ)
      → All (λ r. test size r.to ≡ false) (cflag_rules c)
      → copy_bits (swap (cflag_rules c)) (bit_or (copy_bits (cflag_rules c) x 0) size) 0
        ≡ copy_bits (keep (cflag_rules c)) x 0
  control_flags x size clear =
      copy_back (cflag_rules c) x _ 0
        (All-zip _ _ _ (cflag_rules c) seen clear (copy_bits-Apart (cflag_rules c) x e.cflag))
    where
      seen :
          (r : Rule)
          → test size r.to ≡ false
          → test (copy_bits (cflag_rules c) x 0) r.to ≡ test x r.from
          → test (bit_or (copy_bits (cflag_rules c) x 0) size) r.to ≡ test x r.from
      seen r off on = rw (test-or (copy_bits (cflag_rules c) x 0) size r.to, on, off) (ground arith)

  control_size :
      (x size : ℕ)
      → bit_and size c.csize ≡ size
      → bit_and (bit_or (copy_bits (cflag_rules c) x 0) size) c.csize ≡ size
  control_size x size within =
      rw
        (
          and-or,
          and-copy_bits (cflag_rules c) x 0 c.csize e.outside,
          and-zero-left c.csize,
          or-zero-left (bit_and size c.csize),
        )
        within

  -- A setting whose speeds the program knows comes back from Interix with exactly the flags that
  -- the program knows, the same character size, both speeds and the control characters it copies.
  pub termios_i2l-termios_l2i :
      (lt : LinuxTermios)
      → HasSpeeds c lt
      → ((termios_i2l c (termios_l2i c lt)).c_iflag ≡ copy_bits (keep (iflag_rules c)) lt.c_iflag 0)
        × ((termios_i2l c (termios_l2i c lt)).c_oflag
            ≡ copy_bits (keep (oflag_rules c)) lt.c_oflag 0)
        × ((termios_i2l c (termios_l2i c lt)).c_lflag
            ≡ copy_bits (keep (lflag_rules c)) lt.c_lflag 0)
        × ((termios_i2l c (termios_l2i c lt)).c_cflag
            ≡ bit_or
                (bit_or
                  (bit_or
                    (copy_bits (keep (cflag_rules c)) lt.c_cflag 0)
                    (bit_and lt.c_cflag linux_csize))
                  (bit_and (lt.c_cflag / 2 ^ 16) linux_cbaud * 2 ^ 16 % u32_mod))
                (bit_and lt.c_cflag linux_cbaud))
        × All (λ r. (termios_i2l c (termios_l2i c lt)).c_cc r.from ≡ lt.c_cc r.from) (cc_rules c)
  unfolding termios_i2l termios_l2i
  termios_i2l-termios_l2i lt h =
      let (q, size, small) = sixteens lt.c_cflag in
      let (clear, within, back) = size_lem q small in
      (
        flags_back (iflag_rules c) lt.c_iflag e.iflag,
        flags_back (oflag_rules c) lt.c_oflag e.oflag,
        flags_back (lflag_rules c) lt.c_lflag e.lflag,
        rw (
          size,
          control_flags lt.c_cflag (size_l2i c (q * 16)) clear,
          control_size lt.c_cflag (size_l2i c (q * 16)) within,
          back,
          speed_lem (bit_and (lt.c_cflag / 2 ^ 16) linux_cbaud) h.0,
          speed_lem (bit_and lt.c_cflag linux_cbaud) h.1,
        ),
        cc_back (cc_rules c) lt.c_cc _ (λ j. 0) (sources-Differ c)
            (cc_copied (cc_rules c) lt.c_cc (λ j. 0) e.cc_differ),
      )
