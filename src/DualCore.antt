-- ===== src/DualCore.antt =====
-- The two-hart tests of rv64gcv-baremetal-testsuite-main/tests/p4_dualcore.c, as interleavings of
-- their shared accesses. Memory is sequentially consistent: the fences, which the source has around
-- every hand-over, have no effect of their own in the model.
pub mod Spinlock
pub mod PingPong
pub mod Park
pub mod Fence
pub mod Counter
