-- ===== src/Paging/Words.antt =====
-- The words of directories and tables in src/paging.c: a frame in the upper 20 bits, flags below.
use nibras_os.Prelude.{
  ℕ, zero, suc, ◌/◌, ◌%◌, ◌^◌, ◌<◌, ◌≡◌, refl, arith, bit_or, or_lowest, bit_or_same, Bool, true,
  false, sym, ◌∙◌, max, if◌then◌else◌,
}
use Prim.Native.Nat.{bit_or-bitwise}
use nibras_os.Paging.{Flags, vm_set_bit, vm_pde_set_frame, set_flags, page_get_physical_address}

-- `n` digits less.
abbrev halve : ℕ → ℕ → ℕ
halve zero a = a
halve (suc n) a = halve n (a / 2)

bit_or-halve : (n a b : ℕ) → halve n (bit_or a b) ≡ bit_or (halve n a) (halve n b)
bit_or-halve zero a b = refl
bit_or-halve (suc n) a b =
    let half : bit_or a b / 2 ≡ bit_or (a / 2) (b / 2) = omega (arith, or_lowest a b) in
    rw half (bit_or-halve n (a / 2) (b / 2))

halve-twelve : (a : ℕ) → halve 12 a ≡ a / 4096
halve-twelve a = omega arith

-- The frame of `a | b`.
bit_or_frame : (a b : ℕ) → bit_or a b / 4096 ≡ bit_or (a / 4096) (b / 4096)
bit_or_frame a b =
    let e = bit_or-halve 12 a b in
    rw (sym (halve-twelve (bit_or a b)), sym (halve-twelve a), sym (halve-twelve b)) e

bit_or_parity : (a b : ℕ) → bit_or a b % 2 ≡ max (a % 2) (b % 2)
bit_or_parity a b = omega (arith, or_lowest a b)

-- A flag below bit 12 leaves the frame.
vm_set_bit_frame : (w b : ℕ) → 2 ^ b < 4096 → vm_set_bit w b / 4096 ≡ w / 4096
unfolding vm_set_bit
vm_set_bit_frame w b h =
    let none_above : 2 ^ b / 4096 ≡ 0 = omega arith in
    let e : bit_or w (2 ^ b) / 4096 ≡ bit_or (w / 4096) (2 ^ b / 4096) = bit_or_frame w (2 ^ b) in
    rw none_above at e ∙ bit_or_same (w / 4096) (w / 4096) (omega arith)

pub set_flags_frame : (fl : Flags) (w : ℕ) → set_flags fl w / 4096 ≡ w / 4096
unfolding set_flags
set_flags_frame fl w =
    let w1 : ℕ = if fl.ps then vm_set_bit w 0 else w in
    let w2 : ℕ = if fl.rw then vm_set_bit w1 1 else w1 in
    step (fl.us) w2 2 (omega arith)
    ∙ step (fl.rw) w1 1 (omega arith)
    ∙ step (fl.ps) w 0 (omega arith)
  where
    step :
        (on : Bool) (w b : ℕ) → 2 ^ b < 4096 → (if on then vm_set_bit w b else w) / 4096 ≡ w / 4096
    step true w b h = vm_set_bit_frame w b h
    step false w b h = refl

pub set_flags_present : (fl : Flags) (w : ℕ) → fl.ps ≡ true → set_flags fl w % 2 ≡ 1
unfolding set_flags vm_set_bit
set_flags_present fl w e =
    let w1 : ℕ = if fl.ps then bit_or w 1 else w in
    let w2 : ℕ = if fl.rw then bit_or w1 2 else w1 in
    let first : w1 % 2 ≡ 1 = rw e (omega (arith, bit_or_parity w 1)) in
    keep (fl.us) w2 4 (keep (fl.rw) w1 2 first)
  where
    keep : (on : Bool) (w m : ℕ) → w % 2 ≡ 1 → (if on then bit_or w m else w) % 2 ≡ 1
    keep true w m h = omega (arith, bit_or_parity w m)
    keep false w m h = h

-- Setting an aligned frame: the frame is that, and the bit 0 stays.
module _ (w frame : ℕ) (aligned : frame % 4096 ≡ 0) where
  pub vm_pde_set_frame-frame : page_get_physical_address (vm_pde_set_frame w frame) ≡ frame
  unfolding page_get_physical_address vm_pde_set_frame
  vm_pde_set_frame-frame =
      let none_above : w % 4096 / 4096 ≡ 0 = omega arith in
      let e : bit_or (w % 4096) frame / 4096 ≡ bit_or (w % 4096 / 4096) (frame / 4096) =
        bit_or_frame (w % 4096) frame in
      let all : bit_or 0 (frame / 4096) ≡ frame / 4096 = bit_or-bitwise 0 (frame / 4096) in
      let e1 : bit_or (w % 4096) frame / 4096 ≡ frame / 4096 = rw none_above at e ∙ all in
      omega (arith, e1)

  pub vm_pde_set_frame-present : vm_pde_set_frame w frame % 2 ≡ w % 2
  unfolding vm_pde_set_frame
  vm_pde_set_frame-present = omega (arith, bit_or_parity (w % 4096) frame)
