-- ===== src/PageTable/Setup.antt =====
-- `pt_setup_identity_kernel`: the tables that it builds, and the addresses that they translate.
use zephyr_riscv_test_suite.Prelude.{
  ℕ, ◌+◌, ◌*◌, ◌/◌, ◌%◌, ◌^◌, ◌<◌, ◌≡◌, ◌≢◌, refl, ◌∙◌, arith, true, ◌==◌, if◌then◌else◌, Option,
  some, none,
}
use zephyr_riscv_test_suite.PageTable.{
  Tables, entry, is_valid, is_leaf, page, store, pte_leaf, pt_alloc_page, pt_setup_identity_kernel,
  vpn2,
}
use zephyr_riscv_test_suite.PageTable.Entries.{is_valid-mod, is_leaf-mod}
use zephyr_riscv_test_suite.PageTable.Tree.{Mapping, lookup, resolve, IsTree, vpn, vpn-lt}
use zephyr_riscv_test_suite.PageTable.Tree.Lookup.{resolve-lookup}
use zephyr_riscv_test_suite.PageTable.Tree.Ensure.{cleared-new}
use zephyr_riscv_test_suite.PageTable.Map.{NoSuperpage}

-- The physical address that a leaf of level `k` gives to `va`.
abbrev pub translate : Mapping → ℕ → Option ℕ
translate none va = none
translate (some (pte, k)) va =
    some (pte / 1024 * 4096 / 2 ^ (12 + 9 * k) * 2 ^ (12 + 9 * k) + va % 2 ^ (12 + 9 * k))

-- The two gigapages: all of the first one, readable and writable, for the devices, and the one of
-- the SRAM with all three permissions. Both have V, A and D.
abbrev io_leaf : ℕ
io_leaf = 0xC7

abbrev sram_leaf : ℕ
sram_leaf = 0x80000 * 1024 + 0xCF

module _ (pool : ℕ) (aligned : pool % 4096 ≡ 0) (s : Tables)
    (fits : page pool s.next_page < 2 ^ 56) where
  abbrev pub built : Tables
  built = (pt_setup_identity_kernel pool s).rest

  abbrev table : ℕ
  table = page pool s.next_page

  built-mem :
      built.mem
      ≡ store
          (store (pt_alloc_page pool s).rest.mem (entry table 2) sram_leaf)
          (entry table 0)
          io_leaf
  unfolding pt_setup_identity_kernel pt_alloc_page pte_leaf vpn2
  built-mem = refl

  pub built-next_page : built.next_page ≡ s.next_page + 1
  unfolding pt_setup_identity_kernel pt_alloc_page
  built-next_page = refl

  built-entry :
      (j : ℕ)
      → j < 512
      → built.mem (entry table j) ≡ (if j == 0 then io_leaf else if j == 2 then sram_leaf else 0)
  built-entry j h = rw built-mem (ground (arith, cleared-new pool s aligned fits j h))

  no_branch :
      (j : ℕ)
      → j < 512
      → is_valid (built.mem (entry table j)) ≡ true
      → is_leaf (built.mem (entry table j)) ≡ true
  no_branch j h v = ground (
    arith,
    built-entry j h,
    is_leaf-mod io_leaf,
    is_leaf-mod sram_leaf,
    is_valid-mod 0,
    is_leaf-mod 0,
  )

  -- For an aligned pool with room for one more page, the table that `pt_setup_identity_kernel`
  -- returns is the root of a tree.
  pub setup-IsTree : IsTree pool built s.next_page
  setup-IsTree = record {
    parent = λ q. 0;
    level = λ q. if q == s.next_page then 2 else 0;
    root_allocated = omega (arith, built-next_page);
    root_level = ground arith;
    child = λ q j h k up valid branch. absurd (
        let same : q ≡ s.next_page = ground arith in
        let leaf : is_leaf (built.mem (entry (page pool q) j)) ≡ true =
          rw same (no_branch j k (rw same at valid)) in
        ground arith);
  }

  -- After `pt_setup_identity_kernel` the first gigabyte and the gigabyte of the SRAM have leaves,
  -- and nothing else is mapped.
  setup-resolve :
      (x : ℕ)
      → resolve built.mem table x ≡ (
          if vpn 2 x == 0
          then some (io_leaf, 2)
          else if vpn 2 x == 2
          then some (sram_leaf, 2)
          else none)
  setup-resolve x = resolve-lookup built.mem table x ∙ at_root
    where
      at_root : lookup 2 built.mem table x ≡ (
          if vpn 2 x == 0
          then some (io_leaf, 2)
          else if vpn 2 x == 2
          then some (sram_leaf, 2)
          else none)
      at_root =
          unfold lookup in
          ground (
            arith,
            built-entry (vpn 2 x) (vpn-lt 2 x),
            is_leaf-mod io_leaf,
            is_leaf-mod sram_leaf,
            is_valid-mod io_leaf,
            is_valid-mod sram_leaf,
            is_valid-mod 0,
          )

  -- For an aligned pool with room for one more page, after `pt_setup_identity_kernel` an address in
  -- the first gigabyte or in that of the SRAM translates to itself, and no other address below
  -- 2 ^ 39 is mapped.
  pub setup_identity :
      (x : ℕ)
      → x < 2 ^ 39
      → translate (resolve built.mem table x) x
        ≡ (if x / 2 ^ 30 == 0 then some x else if x / 2 ^ 30 == 2 then some x else none)
  setup_identity x h = rw (setup-resolve x) (ground arith)

  -- An address that neither gigapage covers meets no leaf above level 0.
  pub setup-NoSuperpage : (x : ℕ) → vpn 2 x ≢ 0 → vpn 2 x ≢ 2 → NoSuperpage built.mem table x
  setup-NoSuperpage x a b pte k h =
      absurd (ground (arith, setup-resolve x, resolve-lookup built.mem table x))
