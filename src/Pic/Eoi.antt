-- ===== src/Pic/Eoi.antt =====
-- The end-of-interrupt commands.
use Prim.Native.Nat.{bit_or}
use mathlib.Core.List.{append-nil, append_assoc}
use linux_like_os_project.Prelude.{
  ℕ, ◌+◌, ◌-◌, ◌<◌, ◌≡◌, refl, [], ◌∷◌, ◌++◌, true, arith, ltb, ◌==◌, if◌then◌else◌,
}
use linux_like_os_project.Prelude.Table.{every, every_lem}
use linux_like_os_project.Pic.{
  Pic, send_eoi, eoi, max_irqs, start_slave_pic, master_8259_port, slave_8259_port, slave_pic_irq,
}

eoi_table : every 16 (λ n. bit_or eoi n == eoi + n) ≡ true
unfolding every
eoi_table = refl

eoi_lem : (n : ℕ) → n < 16 → bit_or eoi n ≡ eoi + n
eoi_lem n h = ground (arith, every_lem 16 (λ k. bit_or eoi k == eoi + k) n eoi_table)

-- send_eoi tells each controller which of its own lines has been served: for a line below 8 it sends
-- 0x60 + line to the first controller; for a line from 8 to 15 it sends 0x60 + (line - 8) to the
-- second and then 0x62, the line that the second hangs on, to the first; above 15 it sends nothing.
-- It changes no mask.
pub send_eoi_lem :
    (irq_num : ℕ) (p : Pic)
    → send_eoi irq_num p ≡ record p {
      sent =
          p.sent
          ++ (if ltb max_irqs irq_num
              then []
              else (if ltb irq_num start_slave_pic
                  then (master_8259_port, eoi + irq_num) ∷ []
                  else (slave_8259_port, eoi + (irq_num - start_slave_pic))
                    ∷ (master_8259_port, eoi + slave_pic_irq)
                    ∷ []));
    }
unfolding send_eoi
send_eoi_lem irq_num p = ground (
  arith,
  eoi_lem irq_num,
  append-nil p.sent,
  append_assoc p.sent ((slave_8259_port, eoi + (irq_num - start_slave_pic)) ∷ [])
      ((master_8259_port, eoi + slave_pic_irq) ∷ []),
)
