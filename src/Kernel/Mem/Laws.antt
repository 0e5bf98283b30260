-- ===== src/Kernel/Mem/Laws.antt =====
-- What memcpy and memset do to each byte of the memory.
use ester.Prelude.{
  ℕ, zero, suc, ◌+◌, ◌-◌, ◌≤◌, ◌≡◌, ◌⊎◌, ◌&&◌, Cells, arith, ltb, leb, if◌then◌else◌, update,
}
use ester.Kernel.Mem.{memcpy_loop, memcpy, memset_loop, memset}

-- The bytes of `src` in order, put at `dst`; all else as it was.
unfoldable pub copied : ℕ → ℕ → ℕ → Cells → Cells
copied dst src len m a = if leb dst a && ltb a (dst + len) then m (a - dst + src) else m a

memcpy_loop-get :
    (n i dst src : ℕ) (m : Cells) (a : ℕ)
    → (dst ≤ src) ⊎ (src + i + n ≤ dst)
    → memcpy_loop n i dst src m a
      ≡ (if leb (dst + i) a && ltb a (dst + i + n) then m (a - dst + src) else m a)
unfolding memcpy_loop
memcpy_loop-get zero i dst src m a h = ground arith
memcpy_loop-get (suc n) i dst src m a h =
    ground (arith, memcpy_loop-get n (i + 1) dst src (update m (dst + i) (m (src + i))) a)

pub memcpy-get :
    (dst src len : ℕ) (m : Cells) (a : ℕ)
    → (dst ≤ src) ⊎ (src + len ≤ dst)
    → memcpy dst src len m a ≡ copied dst src len m a
unfolding memcpy copied
memcpy-get dst src len m a h = ground (arith, memcpy_loop-get len 0 dst src m a)

memset_loop-get :
    (n i ptr val : ℕ) (m : Cells) (a : ℕ)
    → memset_loop n i ptr val m a ≡ (if leb (ptr + i) a && ltb a (ptr + i + n) then val else m a)
unfolding memset_loop
memset_loop-get zero i ptr val m a = ground arith
memset_loop-get (suc n) i ptr val m a =
    ground (arith, memset_loop-get n (i + 1) ptr val (update m (ptr + i) val) a)

pub memset-get :
    (ptr val len : ℕ) (m : Cells) (a : ℕ)
    → memset ptr val len m a ≡ (if leb ptr a && ltb a (ptr + len) then val else m a)
unfolding memset
memset-get ptr val len m a = ground (arith, memset_loop-get len 0 ptr val m a)
