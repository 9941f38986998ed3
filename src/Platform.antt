-- ===== src/Platform.antt =====
-- The constants of rv64gcv-baremetal-testsuite-main/common/platform.h that the models use.
use zephyr_riscv_test_suite.Prelude.{ℕ, ◌*◌, ◌^◌}

abbrev pub pgshift : ℕ
pgshift = 12

abbrev pub ptes_per_pt : ℕ
ptes_per_pt = 512

abbrev pub pte_ppn_shift : ℕ
pte_ppn_shift = 10

abbrev pub pte_v : ℕ
pte_v = 0x001

abbrev pub pte_r : ℕ
pte_r = 0x002

abbrev pub pte_w : ℕ
pte_w = 0x004

abbrev pub pte_x : ℕ
pte_x = 0x008

abbrev pub pte_u : ℕ
pte_u = 0x010

abbrev pub pte_a : ℕ
pte_a = 0x040

abbrev pub pte_d : ℕ
pte_d = 0x080

abbrev pub sram_base : ℕ
sram_base = 0x80000000

abbrev pub satp_mode_sv39 : ℕ
satp_mode_sv39 = 8

abbrev pub satp_mode_shift : ℕ
satp_mode_shift = 60

abbrev pub cause_illegal_inst : ℕ
cause_illegal_inst = 2

abbrev pub cause_ecall_smode : ℕ
cause_ecall_smode = 9

abbrev pub cause_inst_page_fault : ℕ
cause_inst_page_fault = 12

abbrev pub cause_load_page_fault : ℕ
cause_load_page_fault = 13

abbrev pub cause_store_page_fault : ℕ
cause_store_page_fault = 15

abbrev pub irq_s_soft : ℕ
irq_s_soft = 1

abbrev pub irq_m_soft : ℕ
irq_m_soft = 3

abbrev pub irq_s_timer : ℕ
irq_s_timer = 5

abbrev pub irq_m_timer : ℕ
irq_m_timer = 7

abbrev pub irq_s_ext : ℕ
irq_s_ext = 9

abbrev pub sbi_set_timer_id : ℕ
sbi_set_timer_id = 0

abbrev pub sbi_send_ipi_id : ℕ
sbi_send_ipi_id = 1

abbrev pub sbi_clear_ipi_id : ℕ
sbi_clear_ipi_id = 2

abbrev pub num_harts : ℕ
num_harts = 2

-- PGSIZE, MEGAPAGE_SIZE and GIGAPAGE_SIZE.
abbrev pub pgsize : ℕ
pgsize = 2 ^ 12

abbrev pub megapage_size : ℕ
megapage_size = pgsize * 512

abbrev pub gigapage_size : ℕ
gigapage_size = megapage_size * 512

-- mip and sip bits.
abbrev pub mip_ssip : ℕ
mip_ssip = 2 ^ 1

abbrev pub mip_stip : ℕ
mip_stip = 2 ^ 5

abbrev pub mip_mtip : ℕ
mip_mtip = 2 ^ 7
