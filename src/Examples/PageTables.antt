-- ===== src/Examples/PageTables.antt =====
-- A pool at 0x80010000: the identity tables, and then one page at 0x40000000.
use zephyr_riscv_test_suite.Prelude.{ℕ, ◌+◌, ◌^◌, ◌<◌, ◌≤◌, ◌≡◌, refl, arith, some}
use zephyr_riscv_test_suite.PageTable.{Tables, page, pt_map_page, pte_leaf, is_valid}
use zephyr_riscv_test_suite.PageTable.Tree.{resolve, lookup, agree, IsTree}
use zephyr_riscv_test_suite.PageTable.Tree.Lookup.{resolve-lookup}
use zephyr_riscv_test_suite.PageTable.Map.{NoSuperpage, resolve-pt_map_page, pt_map_page-IsTree}
use zephyr_riscv_test_suite.PageTable.Map.Bounds.{IsOutside, pt_map_page-bounds}
use zephyr_riscv_test_suite.PageTable.Setup.{
  built, built-next_page, setup-IsTree, setup-NoSuperpage, setup_identity, translate,
}

abbrev pub pool : ℕ
pool = 0x80010000

abbrev pub empty : Tables
empty = record { mem = λ a. 0; next_page = 0 }

abbrev pub identity : Tables
identity = built pool refl empty (omega arith)

abbrev pub va : ℕ
va = 0x40000000

pub identity_tree : IsTree pool identity 0
identity_tree = setup-IsTree pool refl empty (omega arith)

pub room : page pool (identity.next_page + 1) < 2 ^ 56
room = omega (arith, built-next_page pool refl empty (omega arith))

pub clear_way : NoSuperpage identity.mem (page pool 0) va
clear_way = setup-NoSuperpage pool refl empty (omega arith) va (omega arith) (omega arith)

-- The page is mapped to 0x80000000, readable and writable.
resolve-pt_map_page_example :
    resolve (pt_map_page pool (page pool 0) va 0x80000000 6 1 identity).mem (page pool 0) va
    ≡ some (0x200000C7, 0)
unfolding agree pte_leaf is_valid
resolve-pt_map_page_example =
    resolve-pt_map_page pool refl identity identity_tree va room clear_way 0x80000000 6 1 va

pt_map_page-IsTree_example :
    IsTree pool (pt_map_page pool (page pool 0) va 0x80000000 6 0 identity) 0
pt_map_page-IsTree_example =
    pt_map_page-IsTree pool refl identity identity_tree va room clear_way 0x80000000 6 0

resolve-lookup_example :
    resolve identity.mem (page pool 0) 0x80001234 ≡ lookup 2 identity.mem (page pool 0) 0x80001234
resolve-lookup_example = resolve-lookup identity.mem (page pool 0) 0x80001234

setup_identity_example :
    translate (resolve identity.mem (page pool 0) 0x80001234) 0x80001234 ≡ some 0x80001234
setup_identity_example = setup_identity pool refl empty (omega arith) 0x80001234 (omega arith)

setup-IsTree_example : IsTree pool identity 0
setup-IsTree_example = setup-IsTree pool refl empty (omega arith)

abbrev mapped : Tables
mapped = pt_map_page pool (page pool 0) va 0x80000000 6 1 identity

pt_map_page-bounds_example :
    (identity.next_page ≤ mapped.next_page)
    × (mapped.next_page ≤ identity.next_page + 2)
    × ((a : ℕ) → IsOutside pool mapped.next_page a → mapped.mem a ≡ identity.mem a)
pt_map_page-bounds_example =
    pt_map_page-bounds pool refl identity identity_tree va room clear_way 0x80000000 6 1
