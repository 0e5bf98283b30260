-- ===== src/Kernel/Str/Concat.antt =====
-- strncat puts one string behind another; strcpy overwrites a string by one of the same length.
use ester.Prelude.{
  ℕ, zero, suc, ◌+◌, ◌-◌, ◌≤◌, ◌<◌, ◌≡◌, ◌≢◌, ap, ◌⊎◌, inl, inr, ◌^◌, ◌%◌, Cells, ◌&&◌, some, arith,
  leb, ltb, ◌==◌, if◌then◌else◌, update, Bool-cases,
}
use ester.Kernel.Mem.Laws.{copied}
use ester.Kernel.Str.{IsString, strncat_loop, strncat, strcpy_loop, strcpy}
use ester.Kernel.Str.Len.{strlen-eq}

strncat_loop-get :
    (left i dst k src : ℕ) (m : Cells) (a : ℕ)
    → k + i + left < 2 ^ 32
    → (dst + k + i + left < src) ⊎ (src + i + left ≤ dst)
    → strncat_loop left i dst (k + i) src m a ≡ (
        if a == dst + k + i + left
        then 0
        else if leb (dst + k + i) a && ltb a (dst + k + i + left)
        then m (a - (dst + k) + src)
        else m a)
unfolding strncat_loop
strncat_loop-get zero i dst k src m a small apart = ground arith
strncat_loop-get (suc left) i dst k src m a small apart =
    let e : (k + i + 1) % 2 ^ 32 ≡ k + (i + 1) = omega arith in
    rw e (
      ground
        (arith, strncat_loop-get left (i + 1) dst k src (update m (dst + (k + i)) (m (src + i))) a))

-- `m'` is `m` with the `n` characters at `src` put behind the `k` characters at `dst`.
pub record IsJoined (m : Cells) (dst k src n : ℕ) (m' : Cells) : Type 0 where
  pub result : IsString m' dst (k + n)
  pub front : (i : ℕ) → i < k → m' (dst + i) ≡ m (dst + i)
  pub back : (i : ℕ) → i < n → m' (dst + k + i) ≡ m (src + i)
  pub elsewhere : (a : ℕ) → (a < dst) ⊎ (dst + k + n < a) → m' a ≡ m a

-- strncat appends the first `n` characters of a string that lies apart from the room of the
-- result, terminates the result, and changes nothing else.
pub strncat-IsJoined :
    (m : Cells) (dst k src n : ℕ)
    → IsString m dst k
    → ((i : ℕ) → i < n → m (src + i) ≢ 0)
    → k + n < 2 ^ 32
    → (dst + k + n < src) ⊎ (src + n ≤ dst)
    → (m' : Cells) × (strncat dst src n m ≡ some m') × IsJoined m dst k src n m'
unfolding strncat
strncat-IsJoined m dst k src n s chars small apart =
    (strncat_loop n 0 dst k src m, rw (strlen-eq m dst k s (omega arith)), joined)
  where
    get :
        (a : ℕ)
        → strncat_loop n 0 dst k src m a ≡ (
            if a == dst + k + n
            then 0
            else if leb (dst + k) a && ltb a (dst + k + n)
            then m (a - (dst + k) + src)
            else m a)
    get a =
        let e : k + 0 ≡ k = omega arith in
        ground (
          arith,
          strncat_loop-get n 0 dst k src m a,
          ap (λ (t : ℕ). strncat_loop n 0 dst t src m a) e,
        )

    joined : IsJoined m dst k src n (strncat_loop n 0 dst k src m)
    joined = record {
      result = record {
        ends = ground (arith, get (dst + (k + n)));
        inside = λ i h. ground (arith, get (dst + i), s.inside i, chars (i - k));
      };
      front = λ i h. ground (arith, get (dst + i));
      back = λ i h. ground (arith, get (dst + k + i));
      elsewhere = λ a h. ground (arith, get a);
    }

strcpy_loop-get :
    (n i src dst : ℕ) (m : Cells) (a : ℕ)
    → (dst ≤ src) ⊎ (src + i + n ≤ dst)
    → strcpy_loop n i src dst m a
      ≡ (if leb (dst + i) a && ltb a (dst + i + n) then m (a - dst + src) else m a)
unfolding strcpy_loop
strcpy_loop-get zero i src dst m a h = ground arith
strcpy_loop-get (suc n) i src dst m a h =
    ground (arith, strcpy_loop-get n (i + 1) src dst (update m (dst + i) (m (src + i))) a)

-- On a source of `n` and a target of `k` characters, apart or with the target first, strcpy
-- returns 1 and changes nothing if the lengths differ; if they are the same it returns 0, the
-- target then has the bytes of the source, and no other byte changes.
pub strcpy_lem :
    (m : Cells) (src dst n k : ℕ)
    → IsString m src n
    → IsString m dst k
    → n < 2 ^ 32
    → k < 2 ^ 32
    → (dst ≤ src) ⊎ (src + n ≤ dst)
    → (r : ℕ) × (m' : Cells) × (strcpy src dst m ≡ some (r, m'))
      × (r ≡ (if n == k then 0 else 1))
      × ((a : ℕ) → m' a ≡ (if n == k then copied dst src n m a else m a))
unfolding strcpy copied
strcpy_lem m src dst n k s t small small' apart = elim (Bool-cases (n == k)) [
  | inl same ↦ (
    0,
    strcpy_loop k 0 src dst m,
    rw (strlen-eq m src n s small, strlen-eq m dst k t small', same),
    rw same,
    λ a. ground (arith, strcpy_loop-get k 0 src dst m a),
  )
  | inr other ↦ (
    1,
    m,
    rw (strlen-eq m src n s small, strlen-eq m dst k t small', other),
    rw other,
    λ a. rw other,
  )
]
