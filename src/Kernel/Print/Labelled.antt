-- ===== src/Kernel/Print/Labelled.antt =====
-- The messages of kernel/printk.c's callers that are a label, a number and a newline, or a label
-- alone.
use ester.Prelude.{
  ℕ, zero, suc, ◌+◌, ◌-◌, ◌%◌, ◌^◌, ◌≤◌, ◌<◌, ◌≡◌, ◌≢◌, ap, ◌∙◌, true, false, Bool, not, ◌&&◌,
  arith, some, Cells, List, [], ◌∷◌, ◌++◌, length, ◌==◌,
}
use native.Mathlib.Nat.{add-zero, zero-add}
use ester.Kernel.Debug.{literal}
use ester.Drivers.Vga.{Vga, black}
use ester.Drivers.Vga.Text.{print_each}
use ester.Kernel.Print.{
  lblue, string_fuel, print_char, print_arg, print_int, with_arg, printk_loop, printk,
}
use ester.Kernel.Print.Shown.{IsNumeral, print_int-some}

-- The format of a label, a number and a newline.
abbrev pub labelled : List ℕ → Cells
labelled label = literal (label ++ b'%' ∷ b'd' ∷ b'\n' ∷ [])

-- No character ends the string or starts a token.
abbrev pub all_plain : List ℕ → Bool
all_plain [] = true
all_plain (c ∷ cs) = not (c == 0) && (not (c == b'%') && all_plain cs)

literal-plain :
    (label tail : List ℕ) (k : ℕ)
    → all_plain label ≡ true
    → k < length label
    → (literal (label ++ tail) k ≢ 0) × (literal (label ++ tail) k ≢ b'%')
literal-plain [] tail k plain lt = absurd (omega arith)
literal-plain (c ∷ cs) tail zero plain lt = (λ e. absurd (ground arith), λ e. absurd (ground arith))
literal-plain (c ∷ cs) tail (suc k) plain lt = literal-plain cs tail k (ground arith) (omega arith)

literal-tail :
    (label tail : List ℕ) (k : ℕ) → literal (label ++ tail) (length label + k) ≡ literal tail k
literal-tail [] tail k = ap (literal tail) (zero-add k)
literal-tail (c ∷ cs) tail k =
    let e : length (c ∷ cs) + k ≡ suc (length cs + k) = omega arith in
    ap (literal (c ∷ (cs ++ tail))) e ∙ literal-tail cs tail k

-- printk over `left` plain characters, with `rest` rounds left behind them.
printk_loop-plain :
    (left fuel rest i : ℕ) (m : Cells) (local : ℕ) (args : List ℕ) (v : Vga)
    → ((k : ℕ) → i ≤ k → k < i + left → (m (0 + k) ≢ 0) × (m (0 + k) ≢ b'%'))
    → i + left + 2 < 2 ^ 32
    → left + rest ≡ fuel
    → printk_loop fuel m local 0 i args v
      ≡ printk_loop rest m local 0 (i + left) args (print_each left (0 + i) m black lblue v)
unfolding printk_loop
printk_loop-plain zero fuel rest i m local args v plain small e =
    let same : fuel ≡ rest = omega arith in rw (same, add-zero i)
printk_loop-plain (suc left) zero rest i m local args v plain small e = absurd (omega arith)
printk_loop-plain (suc left) (suc fuel) rest i m local args v plain small e =
    let (goes_on, no_token) = plain i (omega arith) (omega arith) in
    let on : (m (0 + i) == 0) ≡ false = ground arith in
    let off : (m (0 + i) == b'%') ≡ false = ground arith in
    let wrapped : (i + 1) % 2 ^ 32 ≡ i + 1 = omega arith in
    let shift : i + suc left ≡ i + 1 + left = omega arith in
    let next : 0 + (i + 1) ≡ 0 + i + 1 = omega arith in
    rw (on, off, wrapped, shift)
      (printk_loop-plain left fuel rest (i + 1) m local args (print_char (m (0 + i)) v)
          (λ k lo hi. plain k (omega arith) (omega arith)) (omega arith) (omega arith)
        ∙ rw next)

-- The rounds for the token, the newline and the end.
printk_loop-number :
    (r l : ℕ) (m : Cells) (local value : ℕ) (v w : Vga)
    → l + 4 < 2 ^ 32
    → m (0 + l) ≡ b'%'
    → m (0 + (l + 1)) ≡ b'd'
    → m (0 + (l + 2)) ≡ b'\n'
    → m (0 + (l + 3)) ≡ 0
    → print_int value local m v ≡ some w
    → printk_loop (suc (suc (suc r))) m local 0 l (value ∷ []) v ≡ some (print_char b'\n' w)
unfolding printk_loop with_arg print_arg
printk_loop-number r l m local value v w small percent d newline end printed =
    let one : (l + 1) % 2 ^ 32 ≡ l + 1 = omega arith in
    let two : (l + 2) % 2 ^ 32 ≡ l + 2 = omega arith in
    let three : (l + 2 + 1) % 2 ^ 32 ≡ l + 3 = omega arith in
    rw (percent, one, d, two, printed, newline, three, end)

module _ (label : List ℕ) where
  labelled-plain :
      (k : ℕ)
      → all_plain label ≡ true
      → k < length label
      → (labelled label (0 + k) ≢ 0) × (labelled label (0 + k) ≢ b'%')
  labelled-plain k plain lt =
      rw (zero-add k) (literal-plain label (b'%' ∷ b'd' ∷ b'\n' ∷ []) k plain lt)

  labelled-tail :
      (k : ℕ) → labelled label (0 + (length label + k)) ≡ literal (b'%' ∷ b'd' ∷ b'\n' ∷ []) k
  labelled-tail k =
      rw (zero-add (length label + k)) (literal-tail label (b'%' ∷ b'd' ∷ b'\n' ∷ []) k)

-- For a label of plain characters, printk of the labelled number ends and leaves what the label, a
-- numeral for the number, and the newline leave.
pub printk-labelled :
    (label : List ℕ) (local value : ℕ) (v : Vga)
    → all_plain label ≡ true
    → length label + 4 < 2 ^ 32
    → value < 2 ^ 31
    → (digits : Cells) × (n : ℕ) × IsNumeral digits local n value
      × (printk (labelled label) local 0 (value ∷ []) v
          ≡ some (
              print_char b'\n' (
                print_each n local digits black lblue
                  (print_each (length label) 0 (labelled label) black lblue v))))
unfolding printk
printk-labelled label local value v plain short small =
    let l = length label in
    let m = labelled label in
    let shown = print_each l 0 m black lblue v in
    let rest = 2 ^ 32 - l - 3 in
    let (digits, n, numeral, printed) = print_int-some m local 0 value shown small in
    let behind : l + suc (suc (suc rest)) ≡ string_fuel = omega arith in
    let start : 0 + l ≡ 0 + (l + 0) = omega arith in
    (
      digits,
      n,
      numeral,
      printk_loop-plain l string_fuel (suc (suc (suc rest))) 0 m local (value ∷ []) v
            (λ k lo hi. labelled-plain label k plain (omega (arith, hi))) (omega arith) behind
          ∙ rw (zero-add l) (
              printk_loop-number rest l m local value shown _ short
                (ap m start ∙ labelled-tail label 0) (labelled-tail label 1) (labelled-tail label 2)
                (labelled-tail label 3) printed),
    )
