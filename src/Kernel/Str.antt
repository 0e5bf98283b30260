-- ===== src/Kernel/Str.antt =====
-- kernel/string.c over the flat memory. A loop that looks for the terminator runs on fuel, one
-- round for each value of its uint32_t index: `none` is a string with no terminator there.
pub mod Len
pub mod Compare
pub mod Concat
pub mod Reverse
use ester.Prelude.{
  ℕ, zero, suc, ◌≡◌, ◌≢◌, ◌<◌, ◌+◌, ◌/◌, ◌%◌, ◌^◌, ◌-◌, Bool, ◌&&◌, not, Option, none, some, Cells,
  ltb, ◌==◌, if◌then◌else◌, update, signed_order, ◌>>=◌,
}

-- The memory holds a string of `n` characters at `str`.
pub record IsString (m : Cells) (str n : ℕ) : Type 0 where
  pub ends : m (str + n) ≡ 0
  pub inside : (i : ℕ) → i < n → m (str + i) ≢ 0

abbrev pub index_fuel : ℕ
index_fuel = 2 ^ 32

unfoldable pub strlen_loop : ℕ → Cells → ℕ → ℕ → Option ℕ
strlen_loop zero m str len = none
strlen_loop (suc fuel) m str len =
    let rest = strlen_loop fuel m str ((len + 1) % 2 ^ 32) in
    if m (str + len) == 0 then some len else rest

unfoldable pub strlen : Cells → ℕ → Option ℕ
strlen m str = strlen_loop index_fuel m str 0

-- The test of the while loop of strcmp.
abbrev pub goes_on : ℕ → ℕ → Bool
goes_on x y = not (x == 0) && (not (y == 0) && (x == y))

unfoldable pub strcmp_loop : ℕ → Cells → ℕ → ℕ → ℕ → Option ℕ
strcmp_loop zero m str1 str2 i = none
strcmp_loop (suc fuel) m str1 str2 i =
    let rest = strcmp_loop fuel m str1 str2 ((i + 1) % 2 ^ 32) in
    if goes_on (m (str1 + i)) (m (str2 + i)) then rest else some i

-- `char` is signed; a return of -1 comes out of the uint8_t as 255.
unfoldable pub char_order : ℕ → ℕ → ℕ
char_order x y =
    if ltb (signed_order x) (signed_order y)
    then 255
    else if ltb (signed_order y) (signed_order x)
    then 1
    else 0

unfoldable pub strcmp : Cells → ℕ → ℕ → Option ℕ
strcmp m str1 str2 = do
  i ← strcmp_loop index_fuel m str1 str2 0
  some (char_order (m (str1 + i)) (m (str2 + i)))

-- `dst_i` runs beside `i`.
unfoldable pub strncat_loop : ℕ → ℕ → ℕ → ℕ → ℕ → Cells → Cells
strncat_loop zero i dst dst_i src m = update m (dst + dst_i) 0
strncat_loop (suc left) i dst dst_i src m =
    strncat_loop left (i + 1) dst ((dst_i + 1) % 2 ^ 32) src (update m (dst + dst_i) (m (src + i)))

unfoldable pub strncat : ℕ → ℕ → ℕ → Cells → Option Cells
strncat dst src n m = do dst_i ← strlen m dst; some (strncat_loop n 0 dst dst_i src m)

unfoldable pub strcpy_loop : ℕ → ℕ → ℕ → ℕ → Cells → Cells
strcpy_loop zero i str_src str_dst m = m
strcpy_loop (suc left) i str_src str_dst m =
    strcpy_loop left (i + 1) str_src str_dst (update m (str_dst + i) (m (str_src + i)))

-- The status, and the memory after the call.
unfoldable pub strcpy : ℕ → ℕ → Cells → Option (ℕ × Cells)
strcpy str_src str_dst m = do
  src_len ← strlen m str_src
  dst_len ← strlen m str_dst
  some (if src_len == dst_len then (0, strcpy_loop dst_len 0 str_src str_dst m) else (1, m))

-- One exchange of `str[i]` and `str[j]`.
abbrev pub swapped : Cells → ℕ → ℕ → ℕ → Cells
swapped m str i j = update (update m (str + i) (m (str + j))) (str + j) (m (str + i))

-- `j--` wraps at 0.
unfoldable pub strrev_loop : ℕ → ℕ → ℕ → ℕ → Cells → Cells
strrev_loop zero i j str m = m
strrev_loop (suc left) i j str m =
    strrev_loop left (i + 1) ((j + 2 ^ 32 - 1) % 2 ^ 32) str (swapped m str i j)

unfoldable pub strrev : ℕ → Cells → Option Cells
strrev str m = do
  str_len ← strlen m str
  some (strrev_loop (str_len / 2) 0 ((str_len + 2 ^ 32 - 1) % 2 ^ 32) str m)
