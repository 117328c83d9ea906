-- ===== src/Pic/Mask.antt =====
-- Enabling and disabling lines, one line at a time.
use linux_like_os_project.Prelude.{
  ℕ, ◌-◌, ◌*◌, ◌/◌, ◌%◌, ◌^◌, ◌≤◌, ◌<◌, ◌≡◌, refl, Bool, true, false, ◌&&◌, arith, ltb, ◌==◌,
  if◌then◌else◌,
}
use linux_like_os_project.Prelude.Table.{every, every_lem}
use linux_like_os_project.Pic.{
  Pic, clear_bit, set_bit, enable_irq, disable_irq, start_slave_pic, max_irqs,
}

-- A bit of a mask.
unfoldable pub bit : ℕ → ℕ → ℕ
bit m j = m / 2 ^ j % 2

-- Whether a line is enabled: its bit in the mask is 0.
unfoldable pub is_enabled : Pic → ℕ → Bool
unfolding bit
is_enabled p irq =
    if ltb irq start_slave_pic
    then bit p.master_mask irq == 0
    else bit p.slave_mask (irq - start_slave_pic) == 0

-- Both masks are bytes.
pub record IsPic (p : Pic) : Type 0 where
  pub master_byte : p.master_mask < 256
  pub slave_byte : p.slave_mask < 256

-- The facts on one mask, for each value of the mask and each pair of lines.
abbrev mask_fact : ℕ → ℕ → ℕ → Bool
mask_fact m i j =
    ltb (clear_bit m i) 256
    && ltb (set_bit m i) 256
    && ((m / 2 ^ j % 2) * (if i == j then 0 else 1) == clear_bit m i / 2 ^ j % 2)
    && ((if i == j then 1 else m / 2 ^ j % 2) == set_bit m i / 2 ^ j % 2)

mask_table : every 256 (λ m. every 8 (λ i. every 8 (λ j. mask_fact m i j))) ≡ true
unfolding every
mask_table = refl

mask_fact_lem : (m i j : ℕ) → m < 256 → i < 8 → j < 8 → mask_fact m i j ≡ true
mask_fact_lem m i j hm hi hj =
    every_lem 8 _ j (every_lem 8 _ i (every_lem 256 _ m mask_table hm) hi) hj

clear_bit-bit :
    (m i j : ℕ) → m < 256 → i < 8 → j < 8 → bit (clear_bit m i) j ≡ (if i == j then 0 else bit m j)
unfolding bit
clear_bit-bit m i j hm hi hj = ground (arith, mask_fact_lem m i j hm hi hj)

set_bit-bit :
    (m i j : ℕ) → m < 256 → i < 8 → j < 8 → bit (set_bit m i) j ≡ (if i == j then 1 else bit m j)
unfolding bit
set_bit-bit m i j hm hi hj = ground (arith, mask_fact_lem m i j hm hi hj)

mask_byte : (m i : ℕ) → m < 256 → i < 8 → (clear_bit m i < 256) × (set_bit m i < 256)
mask_byte m i hm hi = ground (arith, mask_fact_lem m i 0 hm hi)

-- With masks of bytes, enable_irq on a line up to 15 enables that line and leaves each other line up
-- to 15 as it was, and on a number above 15 it leaves all those lines; it keeps the masks bytes and
-- sends no command.
pub enable_irq_lem :
    (irq_num j : ℕ) (p : Pic)
    → IsPic p
    → j ≤ max_irqs
    → (is_enabled (enable_irq irq_num p) j ≡ (if irq_num == j then true else is_enabled p j))
      × IsPic (enable_irq irq_num p)
      × ((enable_irq irq_num p).sent ≡ p.sent)
unfolding enable_irq is_enabled
enable_irq_lem irq_num j p v h = ground (
  arith,
  clear_bit-bit p.master_mask irq_num j,
  clear_bit-bit p.slave_mask (irq_num - 8) (j - 8),
  mask_byte p.master_mask irq_num,
  mask_byte p.slave_mask (irq_num - 8),
)

-- With masks of bytes, disable_irq on a line up to 15 disables that line and leaves each other line up
-- to 15 as it was, and on a number above 15 it leaves all those lines; it keeps the masks bytes and
-- sends no command.
pub disable_irq_lem :
    (irq_num j : ℕ) (p : Pic)
    → IsPic p
    → j ≤ max_irqs
    → (is_enabled (disable_irq irq_num p) j ≡ (if irq_num == j then false else is_enabled p j))
      × IsPic (disable_irq irq_num p)
      × ((disable_irq irq_num p).sent ≡ p.sent)
unfolding disable_irq is_enabled
disable_irq_lem irq_num j p v h = ground (
  arith,
  set_bit-bit p.master_mask irq_num j,
  set_bit-bit p.slave_mask (irq_num - 8) (j - 8),
  mask_byte p.master_mask irq_num,
  mask_byte p.slave_mask (irq_num - 8),
)
