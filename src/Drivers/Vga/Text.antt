-- ===== src/Drivers/Vga/Text.antt =====
-- Printing a text is printing its characters one after another.
use ester.Prelude.{ℕ, zero, suc, ◌+◌, ◌^◌, ◌<◌, ◌≡◌, refl, sym, ap, ◌∙◌, some, Cells, arith}
use ester.Kernel.Str.{IsString}
use ester.Drivers.Vga.{Vga, vga_cell, put_char, vga_print_char, move_cursor, print_loop, vga_print}
use ester.Drivers.Vga.Screen.{
  IsOnScreen, text_after, put_char-txt, put_char-addr, put_char-IsOnScreen, moved-addr, moved-txt,
  print_char_lem,
}

-- vga_print_char for each of `n` characters from index `i` on.
abbrev pub print_each : ℕ → ℕ → Cells → ℕ → ℕ → Vga → Vga
print_each zero i txt bg fg v = v
print_each (suc n) i txt bg fg v = print_each n (i + 1) txt bg fg (vga_print_char (txt i) bg fg v)

-- The same screen and position; the ports may differ.
pub record SameScreen (v w : Vga) : Type 0 where
  pub same_addr : v.txt_addr ≡ w.txt_addr
  pub same_txt : (a : ℕ) → v.txt a ≡ w.txt a

pub text_after_ext :
    (c cell : ℕ) (v w : Vga) (a : ℕ)
    → SameScreen v w
    → text_after c cell v a ≡ text_after c cell w a
text_after_ext c cell v w a s = ground (arith, s.same_addr, s.same_txt a, s.same_txt (a + 80))

put_char-SameScreen :
    (c bg fg : ℕ) (v w : Vga)
    → IsOnScreen v
    → SameScreen v w
    → SameScreen (put_char c bg fg v) (vga_print_char c bg fg w)
put_char-SameScreen c bg fg v w h s =
    let on : IsOnScreen w = omega (arith, s.same_addr) in
    let (_, addr, txt, _, _) = print_char_lem c bg fg w on in
    record {
      same_addr = put_char-addr c bg fg v h ∙ ground (arith, s.same_addr) ∙ sym addr;
      same_txt = λ a.
          put_char-txt c bg fg v a h ∙ text_after_ext c (vga_cell c bg fg) v w a s ∙ sym (txt a);
    }

-- One round of the loop at a character before the terminator.
loop_char :
    (fuel n i bg fg : ℕ) (txt : Cells) (v : Vga)
    → IsString txt 0 (i + suc n)
    → i + suc n < 2 ^ 16
    → print_loop (suc fuel) txt i bg fg v
      ≡ print_loop fuel txt (i + 1) bg fg (put_char (txt i) bg fg v)
unfolding print_loop
loop_char fuel n i bg fg txt v s small = ground (arith, s.inside i)

shifted-IsString : (txt : Cells) (n i : ℕ) → IsString txt 0 (i + suc n) → IsString txt 0 (i + 1 + n)
shifted-IsString txt n i s = let shift : i + suc n ≡ i + 1 + n = omega arith in rw shift at s

print_loop-SameScreen :
    (fuel n i bg fg : ℕ) (txt : Cells) (v w : Vga)
    → IsString txt 0 (i + n)
    → i + n < 2 ^ 16
    → n < fuel
    → IsOnScreen v
    → SameScreen v w
    → (v' : Vga) × (print_loop fuel txt i bg fg v ≡ some v')
      × IsOnScreen v'
      × SameScreen v' (print_each n i txt bg fg w)
unfolding print_loop
print_loop-SameScreen zero n i bg fg txt v w s small enough on same = absurd (omega arith)
print_loop-SameScreen (suc fuel) zero i bg fg txt v w s small enough on same =
    let at : 0 + (i + 0) ≡ i = omega arith in
    let end : txt i ≡ 0 = ap txt (sym at) ∙ s.ends in (v, rw end, on, same)
print_loop-SameScreen (suc fuel) (suc n) i bg fg txt v w s small enough on same =
    let (v', e, on', same') =
      print_loop-SameScreen fuel n (i + 1) bg fg txt (put_char (txt i) bg fg v)
        (vga_print_char (txt i) bg fg w) (shifted-IsString txt n i s) (omega arith) (omega arith)
        (put_char-IsOnScreen (txt i) bg fg v on) (put_char-SameScreen (txt i) bg fg v w on same) in
    (v', loop_char fuel n i bg fg txt v s small ∙ e, on', same')

-- On a text of fewer than 65536 characters, with the position on the screen, vga_print ends, and
-- leaves the same cells and the same position, on the screen, as vga_print_char for each of the
-- characters in turn.
pub print-SameScreen :
    (n bg fg : ℕ) (txt : Cells) (v : Vga)
    → IsString txt 0 n
    → n < 2 ^ 16
    → IsOnScreen v
    → (v' : Vga) × (vga_print txt bg fg v ≡ some v')
      × IsOnScreen v'
      × SameScreen v' (print_each n 0 txt bg fg v)
unfolding vga_print
print-SameScreen n bg fg txt v s small on =
    let whole : n ≡ 0 + n = omega arith in
    let (v', e, on', same) =
      print_loop-SameScreen (2 ^ 16) n 0 bg fg txt v v (rw whole at s) (omega arith) (omega arith)
        on (record { same_addr = refl; same_txt = λ a. refl }) in
    (
      move_cursor v',
      rw e,
      rw (moved-addr v') on',
      record {
        same_addr = moved-addr v' ∙ same.same_addr;
        same_txt = λ a. ap (λ (t : Cells). t a) (moved-txt v') ∙ same.same_txt a;
      },
    )
