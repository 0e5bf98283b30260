-- ===== src/Kernel/Debug/Framed.antt =====
-- What the functions of kernel/debug.c leave on the screen.
use ester.Prelude.{
  ℕ, zero, suc, ◌+◌, ◌^◌, ◌<◌, ◌≤◌, ◌≡◌, arith, Option, some, inl, inr, Bool-cases, List, [], ◌∷◌,
  Bool, true, not, ◌&&◌, ◌==◌, ◌≢◌, Cells, ltb, if◌then◌else◌, sym, ap, ◌∙◌, refl,
}
use native.Mathlib.Nat.{zero-add}
use ester.Kernel.Str.{IsString}
use ester.Kernel.Str.Len.{strlen-eq}
use ester.Drivers.Vga.{Vga, vga_print, vga_print_char, vga_cell, black, white}
use ester.Drivers.Vga.Screen.{IsOnScreen, print_char_lem}
use ester.Drivers.Vga.Text.{print_each, SameScreen, print-SameScreen, text_after_ext}
use ester.Kernel.Debug.{
  literal, error_text, warning_text, info_text, too_long_text, newline, error_prefix,
  warning_prefix, info_prefix, too_long, framed, debug_error, debug_warning, debug_info, red,
  yellow, error_fuel,
}

-- A prefix of `p` characters, a message of `n` and a newline, one character after another.
abbrev pub frame : ℕ → Cells → ℕ → ℕ → Cells → Vga → Vga
frame p prefix foreground n msg v =
    print_each 1 0 newline black foreground
      (print_each n 0 msg black foreground (print_each p 0 prefix black foreground v))

print_char-SameScreen :
    (c bg fg : ℕ) (v w : Vga)
    → IsOnScreen v
    → SameScreen v w
    → SameScreen (vga_print_char c bg fg v) (vga_print_char c bg fg w)
print_char-SameScreen c bg fg v w h s =
    let on : IsOnScreen w = omega (arith, s.same_addr) in
    let (_, addr, txt, _, _) = print_char_lem c bg fg v h in
    let (_, addr', txt', _, _) = print_char_lem c bg fg w on in
    record {
      same_addr = addr ∙ ground (arith, s.same_addr) ∙ sym addr';
      same_txt = λ a. txt a ∙ text_after_ext c (vga_cell c bg fg) v w a s ∙ sym (txt' a);
    }

print_each-SameScreen :
    (n i bg fg : ℕ) (txt : Cells) (v w : Vga)
    → IsOnScreen v
    → SameScreen v w
    → SameScreen (print_each n i txt bg fg v) (print_each n i txt bg fg w)
print_each-SameScreen zero i bg fg txt v w h same = same
print_each-SameScreen (suc n) i bg fg txt v w h same =
    print_each-SameScreen n (i + 1) bg fg txt (vga_print_char (txt i) bg fg v)
      (vga_print_char (txt i) bg fg w) (print_char_lem (txt i) bg fg v h).0
      (print_char-SameScreen (txt i) bg fg v w h same)

SameScreen-trans : {u v w : Vga} → SameScreen u v → SameScreen v w → SameScreen u w
SameScreen-trans a b = record {
  same_addr = a.same_addr ∙ b.same_addr;
  same_txt = λ k. a.same_txt k ∙ b.same_txt k;
}

-- One more text behind what is on the screen.
then_print :
    (n fg : ℕ) (txt : Cells) (v w : Vga)
    → IsString txt 0 n
    → n < 2 ^ 16
    → IsOnScreen v
    → SameScreen v w
    → (v' : Vga) × (vga_print txt black fg v ≡ some v')
      × IsOnScreen v'
      × SameScreen v' (print_each n 0 txt black fg w)
then_print n fg txt v w s small on same =
    let (v', e, on', same') = print-SameScreen n black fg txt v s small on in
    (v', e, on', SameScreen-trans same' (print_each-SameScreen n 0 black fg txt v w on same))

abbrev pub size : List ℕ → ℕ
size [] = 0
size (c ∷ cs) = suc (size cs)

abbrev pub all_nonzero : List ℕ → Bool
all_nonzero [] = true
all_nonzero (c ∷ cs) = not (c == 0) && all_nonzero cs

literal_end : (cs : List ℕ) → literal cs (size cs) ≡ 0
literal_end [] = refl
literal_end (c ∷ cs) = literal_end cs

literal_inside : (cs : List ℕ) (i : ℕ) → all_nonzero cs ≡ true → i < size cs → literal cs i ≢ 0
literal_inside [] i h lt = absurd (omega arith)
literal_inside (c ∷ cs) zero h lt = ground arith
literal_inside (c ∷ cs) (suc i) h lt = literal_inside cs i (ground arith) (omega arith)

literal-IsString : (cs : List ℕ) → all_nonzero cs ≡ true → IsString (literal cs) 0 (size cs)
literal-IsString cs h = record {
  ends = ap (literal cs) (zero-add (size cs)) ∙ literal_end cs;
  inside = λ i lt e. literal_inside cs i h lt (ap (literal cs) (sym (zero-add i)) ∙ e);
}

framed_lem :
    (p fg n : ℕ) (prefix msg : Cells) (v : Vga)
    → IsString prefix 0 p
    → p < 2 ^ 16
    → IsString msg 0 n
    → n < 2 ^ 16
    → IsOnScreen v
    → (w : Vga) × (framed prefix fg msg v ≡ some w)
      × IsOnScreen w
      × SameScreen w (frame p prefix fg n msg v)
unfolding framed
framed_lem p fg n prefix msg v ps psmall s small on =
    let (v1, e1, on1, same1) =
      then_print p fg prefix v v ps psmall on (record { same_addr = refl; same_txt = λ a. refl }) in
    let (v2, e2, on2, same2) = then_print n fg msg v1 _ s small on1 same1 in
    let (v3, e3, on3, same3) =
      then_print 1 fg newline v2 _ (literal-IsString (10 ∷ []) refl) (omega arith) on2 same2 in
    (v3, rw (e1, e2) e3, on3, same3)

-- What is shown for a message of `n` characters.
abbrev pub shown_as : ℕ → Cells → ℕ → ℕ → Cells → Vga → Vga
shown_as p prefix fg n msg v =
    if ltb 256 n then frame 10 error_prefix red 19 too_long v else frame p prefix fg n msg v

-- What one of the functions shows, for the result that its two branches give.
shown_lem :
    (p fg n : ℕ) (prefix msg : Cells) (v : Vga) (long short r : Option Vga)
    → r ≡ (if ltb 256 n then long else short)
    → ((w : Vga) × (long ≡ some w)
        × IsOnScreen w
        × SameScreen w (frame 10 error_prefix red 19 too_long v))
    → (n ≤ 256
        → (w : Vga) × (short ≡ some w) × IsOnScreen w × SameScreen w (frame p prefix fg n msg v))
    → (w : Vga) × (r ≡ some w) × IsOnScreen w × SameScreen w (shown_as p prefix fg n msg v)
shown_lem p fg n prefix msg v long short r e on_long on_short = elim (Bool-cases (ltb 256 n)) [
  | inl test ↦ let (w, is, on, same) = on_long in (w, e ∙ rw test is, on, rw test same)
  | inr test ↦
      let (w, is, on, same) = on_short (ground arith) in (w, e ∙ rw test is, on, rw test same)
]

error_too_long :
    (fuel : ℕ) (v : Vga)
    → IsOnScreen v
    → (w : Vga) × (debug_error (suc fuel) too_long v ≡ some w)
      × IsOnScreen w
      × SameScreen w (frame 10 error_prefix red 19 too_long v)
unfolding debug_error
error_too_long fuel v on =
    rw (strlen-eq too_long 0 19 (literal-IsString too_long_text refl) (omega arith), debug_error)
      (framed_lem 10 red 19 error_prefix too_long v (literal-IsString error_text refl) (omega arith)
        (literal-IsString too_long_text refl) (omega arith) on)

-- For a message of fewer than 2 ^ 32 characters and a position on the screen, DEBUG_ERROR,
-- DEBUG_WARNING and DEBUG_INFO end, with the position on the screen. What they leave there is
-- what vga_print_char leaves for each character of their prefix, of the message and of a newline
-- in their colour; for a message of more than 256 characters it is the error that says so.
pub debug_lem :
    (n : ℕ) (msg : Cells) (v : Vga)
    → IsString msg 0 n
    → n < 2 ^ 32
    → IsOnScreen v
    → ((w : Vga) × (debug_error error_fuel msg v ≡ some w)
        × IsOnScreen w
        × SameScreen w (shown_as 10 error_prefix red n msg v))
      × ((w : Vga) × (debug_warning msg v ≡ some w)
          × IsOnScreen w
          × SameScreen w (shown_as 12 warning_prefix yellow n msg v))
      × ((w : Vga) × (debug_info msg v ≡ some w)
          × IsOnScreen w
          × SameScreen w (shown_as 9 info_prefix white n msg v))
unfolding debug_error debug_warning debug_info
debug_lem n msg v s small on =
    let long = error_too_long 1 v on in
    let len = strlen-eq msg 0 n s small in
    (
      shown_lem 10 red n error_prefix msg v _ _ _ (rw len) (error_too_long 0 v on) (λ few.
          framed_lem 10 red n error_prefix msg v (literal-IsString error_text refl) (omega arith) s
            (omega arith) on),
      shown_lem 12 yellow n warning_prefix msg v _ _ _ (rw len) long (λ few.
          framed_lem 12 yellow n warning_prefix msg v (literal-IsString warning_text refl)
            (omega arith) s (omega arith) on),
      shown_lem 9 white n info_prefix msg v _ _ _ (rw len) long (λ few.
          framed_lem 9 white n info_prefix msg v (literal-IsString info_text refl) (omega arith) s
            (omega arith) on),
    )
