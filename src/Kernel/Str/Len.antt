-- ===== src/Kernel/Str/Len.antt =====
-- strlen finds the terminator.
use ester.Prelude.{ℕ, zero, suc, ◌+◌, ◌≤◌, ◌<◌, ◌≡◌, ◌^◌, Cells, some, arith}
use ester.Kernel.Str.{IsString, strlen_loop, strlen}

strlen_loop-eq :
    (fuel : ℕ) (m : Cells) (str n len : ℕ)
    → IsString m str n
    → n < 2 ^ 32
    → len ≤ n
    → n < len + fuel
    → strlen_loop fuel m str len ≡ some n
unfolding strlen_loop
strlen_loop-eq zero m str n len s small below enough = absurd (omega arith)
strlen_loop-eq (suc fuel) m str n len s small below enough =
    ground (arith, s.inside len, s.ends, strlen_loop-eq fuel m str n (len + 1) s)

pub strlen-eq : (m : Cells) (str n : ℕ) → IsString m str n → n < 2 ^ 32 → strlen m str ≡ some n
unfolding strlen
strlen-eq m str n s small = strlen_loop-eq (2 ^ 32) m str n 0 s small (omega arith) (omega arith)
