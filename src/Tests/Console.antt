-- ===== src/Tests/Console.antt =====
-- kernel/printk.c and kernel/debug.c on small texts.
use ester.Prelude.{ℕ, ◌+◌, ◌≡◌, inl, refl, [], ◌∷◌, List, some, Cells, arith, ◌==◌, if◌then◌else◌}
use ester.Kernel.Str.{IsString}
use ester.Kernel.Print.{printk}
use ester.Kernel.Print.Shown.{
  Fits, end_fits, plain_fits, number_fits, text_fits, char_fits, Shows, printk-Shows,
}
use ester.Kernel.Debug.{
  debug_error, debug_warning, debug_info, error_fuel, error_prefix, warning_prefix, info_prefix,
  red, yellow,
}
use ester.Kernel.Debug.Framed.{shown_as, debug_lem}
use ester.Drivers.Vga.{Vga, white}
use ester.Drivers.Vga.Screen.{IsOnScreen}
use ester.Drivers.Vga.Text.{SameScreen}

abbrev blank : Vga
blank = record { txt_addr = 0; txt = λ a. 0; ports = [] }

-- "a%d%s%c" at 0 and "hi" at 100.
abbrev texts : Cells
texts k =
    if k == 0
    then b'a'
    else if k == 1
    then b'%'
    else if k == 2
    then b'd'
    else if k == 3
    then b'%'
    else if k == 4
    then b's'
    else if k == 5
    then b'%'
    else if k == 6
    then b'c'
    else if k == 100
    then b'h'
    else if k == 101
    then b'i'
    else 0

texts_hi : IsString texts 100 2
texts_hi = record { ends = refl; inside = λ i h. ground arith }

abbrev arguments : List ℕ
arguments = 42 ∷ 100 ∷ 33 ∷ []

texts_fit : Fits texts 500 0 0 arguments
texts_fit =
    plain_fits (omega arith) (λ e. absurd (omega arith)) (inl (λ e. absurd (omega arith)))
      (number_fits 42 (omega arith) refl refl (omega arith) (
        text_fits 100 2 (omega arith) refl refl texts_hi (omega arith)
          (char_fits 33 (omega arith) refl refl (end_fits refl))))

printk-Shows_example :
    (w : Vga) × (printk texts 500 0 arguments blank ≡ some w) × Shows texts 500 0 texts_fit blank w
printk-Shows_example = printk-Shows texts 500 0 arguments texts_fit blank

-- "hi" at 0.
abbrev hi : Cells
hi k = texts (100 + k)

hi-IsString : IsString hi 0 2
hi-IsString = record { ends = refl; inside = λ i h. ground arith }

debug_lem_example :
    ((w : Vga) × (debug_error error_fuel hi blank ≡ some w)
      × IsOnScreen w
      × SameScreen w (shown_as 10 error_prefix red 2 hi blank))
    × ((w : Vga) × (debug_warning hi blank ≡ some w)
        × IsOnScreen w
        × SameScreen w (shown_as 12 warning_prefix yellow 2 hi blank))
    × ((w : Vga) × (debug_info hi blank ≡ some w)
        × IsOnScreen w
        × SameScreen w (shown_as 9 info_prefix white 2 hi blank))
debug_lem_example = debug_lem 2 hi blank hi-IsString (omega arith) (omega arith)
