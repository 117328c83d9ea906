-- ===== src/Pic.antt =====
-- The interrupt controllers of student-distrib/i8259.c. What the code sees of a controller is the
-- mask behind its data port, which `inb` reads and `outb` writes; the commands are a list of
-- what `outb` sends, oldest first.
pub mod Mask
pub mod Eoi
use Prim.Native.Nat.{bit_and, bit_or}
use linux_like_os_project.Prelude.{ℕ, ◌+◌, ◌-◌, ◌^◌, List, [], ◌∷◌, ◌++◌, ltb, if◌then◌else◌}

abbrev pub master_8259_port : ℕ
master_8259_port = 0x20

abbrev pub slave_8259_port : ℕ
slave_8259_port = 0xa0

abbrev pub start_slave_pic : ℕ
start_slave_pic = 8

abbrev pub max_irqs : ℕ
max_irqs = 15

abbrev pub slave_pic_irq : ℕ
slave_pic_irq = 2

abbrev pub eoi : ℕ
eoi = 0x60

-- The masks of the two controllers, and the bytes sent to their command ports: port and value.
pub record Pic : Type 0 where
  pub master_mask : ℕ
  pub slave_mask : ℕ
  pub sent : List (ℕ × ℕ)

-- `value & ~(1 << n)` in a uint8_t.
abbrev pub clear_bit : ℕ → ℕ → ℕ
clear_bit value n = bit_and value (255 - 2 ^ n)

abbrev pub set_bit : ℕ → ℕ → ℕ
set_bit value n = bit_or value (2 ^ n)

unfoldable pub enable_irq : ℕ → Pic → Pic
enable_irq irq_num p =
    if ltb max_irqs irq_num
    then p
    else (if ltb irq_num start_slave_pic
        then record p { master_mask = clear_bit p.master_mask irq_num }
        else record p { slave_mask = clear_bit p.slave_mask (irq_num - start_slave_pic) })

unfoldable pub disable_irq : ℕ → Pic → Pic
disable_irq irq_num p =
    if ltb max_irqs irq_num
    then p
    else (if ltb irq_num start_slave_pic
        then record p { master_mask = set_bit p.master_mask irq_num }
        else record p { slave_mask = set_bit p.slave_mask (irq_num - start_slave_pic) })

unfoldable pub outb : ℕ → ℕ → Pic → Pic
outb value port p = record p { sent = p.sent ++ ((port, value) ∷ []) }

unfoldable pub send_eoi : ℕ → Pic → Pic
unfolding outb
send_eoi irq_num p =
    if ltb max_irqs irq_num
    then p
    else (if ltb irq_num start_slave_pic
        then outb (bit_or eoi irq_num) master_8259_port p
        else outb (bit_or eoi slave_pic_irq) master_8259_port
            (outb (bit_or eoi irq_num - start_slave_pic) slave_8259_port p))

-- The initialisation words, then the masks of all ones, then the line of the second controller.
unfoldable pub i8259_init : Pic → Pic
unfolding outb enable_irq
i8259_init p =
    let words = outb 0x01 (slave_8259_port + 1) (
      outb 0x01 (master_8259_port + 1) (
        outb 0x02 (slave_8259_port + 1) (
          outb 0x04 (master_8259_port + 1) (
            outb 0x28 (slave_8259_port + 1) (
              outb 0x20 (master_8259_port + 1)
                (outb 0x11 slave_8259_port (outb 0x11 master_8259_port p))))))) in
    enable_irq slave_pic_irq (record words { master_mask = 0xff; slave_mask = 0xff })
