-- ===== src/Boot/Segments.antt =====
-- The descriptors of the local descriptor table and of the task state segment that entry of
-- student-distrib/kernel.c puts into the global table, by SET_LDT_PARAMS and SET_TSS_PARAMS of
-- student-distrib/x86_desc.h.
use linux_like_os_project.Prelude.{ℕ, ◌+◌, ◌*◌, ◌/◌, ◌%◌, ◌^◌, ◌<◌, ◌≡◌, refl, arith}

-- `seg_desc_t`.
pub record SegDesc : Type 0 where
  pub seg_lim_15_00 : ℕ
  pub base_15_00 : ℕ
  pub base_23_16 : ℕ
  pub segment_type : ℕ
  pub sys : ℕ
  pub dpl : ℕ
  pub present : ℕ
  pub seg_lim_19_16 : ℕ
  pub avail : ℕ
  pub reserved : ℕ
  pub opsize : ℕ
  pub granularity : ℕ
  pub base_31_24 : ℕ

-- SET_LDT_PARAMS and SET_TSS_PARAMS, which are the same; `addr` is a `uint32_t`, and each field keeps as many
-- bits as it has.
unfoldable pub set_params : ℕ → ℕ → SegDesc → SegDesc
set_params addr lim d = record d {
  base_31_24 = addr / 2 ^ 24 % 2 ^ 8;
  base_23_16 = addr / 2 ^ 16 % 2 ^ 8;
  base_15_00 = addr % 2 ^ 16;
  seg_lim_19_16 = lim / 2 ^ 16 % 2 ^ 4;
  seg_lim_15_00 = lim % 2 ^ 16;
}

-- The local variable `the_ldt_desc`, from what stood in it.
unfoldable pub ldt_desc : ℕ → ℕ → SegDesc → SegDesc
unfolding set_params
ldt_desc addr size d = set_params addr size (record d {
  granularity = 0;
  opsize = 1;
  reserved = 0;
  avail = 0;
  present = 1;
  dpl = 0;
  sys = 0;
  segment_type = 2;
})

abbrev pub tss_size : ℕ
tss_size = 104

-- `the_tss_desc`. The first limit is TSS_SIZE, which fits the low field.
unfoldable pub tss_desc : ℕ → ℕ → SegDesc → SegDesc
unfolding set_params
tss_desc addr size d = set_params addr size (record d {
  granularity = 0;
  opsize = 0;
  reserved = 0;
  avail = 0;
  seg_lim_19_16 = 0;
  present = 1;
  dpl = 0;
  sys = 0;
  segment_type = 9;
  seg_lim_15_00 = tss_size;
})

-- The address and the limit that the processor puts together from a descriptor's fields.
unfoldable pub segment_base : SegDesc → ℕ
segment_base d = d.base_31_24 * 2 ^ 24 + d.base_23_16 * 2 ^ 16 + d.base_15_00

unfoldable pub segment_limit : SegDesc → ℕ
segment_limit d = d.seg_lim_19_16 * 2 ^ 16 + d.seg_lim_15_00

-- The two descriptors that entry sets, for 32-bit addresses and limits below 2 ^ 20, whatever stood in the
-- variables: the processor finds the table's address and limit in the one and the task state segment's in
-- the other, both present and for the kernel alone, with the limit in bytes.
pub segments_lem :
    (ldt tss ldt_lim tss_lim : ℕ) (d d' : SegDesc)
    → ldt < 2 ^ 32
    → tss < 2 ^ 32
    → ldt_lim < 2 ^ 20
    → tss_lim < 2 ^ 20
    → let l = ldt_desc ldt ldt_lim d in
      let t = tss_desc tss tss_lim d' in
      (segment_base l ≡ ldt)
      × (segment_limit l ≡ ldt_lim)
      × (segment_base t ≡ tss)
      × (segment_limit t ≡ tss_lim)
      × (l.present ≡ 1)
      × (t.present ≡ 1)
      × (l.dpl ≡ 0)
      × (t.dpl ≡ 0)
      × (l.granularity ≡ 0)
      × (t.granularity ≡ 0)
unfolding ldt_desc tss_desc set_params segment_base segment_limit
segments_lem ldt tss ldt_lim tss_lim d d' a b e f = (
  omega (arith, a),
  omega (arith, e),
  omega (arith, b),
  omega (arith, f),
  refl,
  refl,
  refl,
  refl,
  refl,
  refl,
)
