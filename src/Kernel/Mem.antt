-- ===== src/Kernel/Mem.antt =====
-- kernel/mem.c: memcpy and memset over the flat memory, one byte to an address.
pub mod Laws
use ester.Prelude.{ℕ, zero, suc, ◌+◌, Cells, update}

-- The loop of memcpy at index `i`, with `len - i` rounds left.
unfoldable pub memcpy_loop : ℕ → ℕ → ℕ → ℕ → Cells → Cells
memcpy_loop zero i dst src m = m
memcpy_loop (suc left) i dst src m =
    memcpy_loop left (i + 1) dst src (update m (dst + i) (m (src + i)))

unfoldable pub memcpy : ℕ → ℕ → ℕ → Cells → Cells
unfolding memcpy_loop
memcpy dst src len m = memcpy_loop len 0 dst src m

unfoldable pub memset_loop : ℕ → ℕ → ℕ → ℕ → Cells → Cells
memset_loop zero i ptr val m = m
memset_loop (suc left) i ptr val m = memset_loop left (i + 1) ptr val (update m (ptr + i) val)

unfoldable pub memset : ℕ → ℕ → ℕ → Cells → Cells
unfolding memset_loop
memset ptr val len m = memset_loop len 0 ptr val m
