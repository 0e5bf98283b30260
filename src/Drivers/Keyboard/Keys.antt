-- ===== src/Drivers/Keyboard/Keys.antt =====
-- The translation of scan codes, and commands to the controller.
use ester.Prelude.{
  ℕ, zero, suc, ◌<◌, ◌≡◌, ◌≢◌, refl, true, false, Bool, ◌||◌, not, Option, none, some, arith, ◌==◌,
  if◌then◌else◌, bit_and, ap,
}
use ester.Prelude.Bits.{holds_below, holds_below-get}
use ester.Drivers.Keyboard.{Controller, to_ascii, ack_loop, wait_ack, retry_loop, send_cmd}

-- The character of a scan code that types one.
abbrev typed : ℕ → ℕ
typed s = elim (to_ascii s) [ none ↦ 0 | some c ↦ c ]

abbrev is_defined : ℕ → Bool
is_defined s = elim (to_ascii s) [ none ↦ false | some c ↦ true ]

-- For all pairs of bytes: the same character only from the same code, and none only at 0x1B.
abbrev distinct_row : ℕ → ℕ → Bool
distinct_row s t = (typed s == 0) || (not (typed s == typed t) || (s == t))

abbrev distinct_rows : ℕ → Bool
distinct_rows s = if typed s == 0 then true else holds_below (distinct_row s) 256

distinct_table : holds_below distinct_rows 256 ≡ true
unfolding holds_below to_ascii
distinct_table = refl

defined_table : holds_below (λ s. if s == 0x1B then not (is_defined s) else is_defined s) 256 ≡ true
unfolding holds_below to_ascii
defined_table = refl

defined_row : (s : ℕ) → s < 256 → (if s == 0x1B then not (is_defined s) else is_defined s) ≡ true
defined_row s h =
    holds_below-get (λ s. if s == 0x1B then not (is_defined s) else is_defined s) 256 defined_table
      s h

distinct_row-holds : (s t : ℕ) → s < 256 → t < 256 → typed s ≢ 0 → distinct_row s t ≡ true
distinct_row-holds s t hs ht typing =
    let row : (if typed s == 0 then true else holds_below (distinct_row s) 256) ≡ true =
      holds_below-get distinct_rows 256 distinct_table s hs in
    let some_char : (typed s == 0) ≡ false = ground arith in
    holds_below-get (distinct_row s) 256 (rw some_char at row) t ht

typed-eq : (s c : ℕ) → to_ascii s ≡ some c → typed s ≡ c
typed-eq s c e = ap (λ (o : Option ℕ). elim o [ none ↦ 0 | some x ↦ x ]) e

undefined : is_defined 0x1B ≡ false
unfolding to_ascii
undefined = refl

out_of_bounds : to_ascii 0x1B ≡ none
unfolding to_ascii
out_of_bounds = refl

-- Two bytes that are translated to the same character, other than 0, are the same scan code; and
-- it is not 0x1B, whose translation reads past the end of a string literal.
pub to_ascii_lem :
    (s t c : ℕ)
    → s < 256
    → t < 256
    → c ≢ 0
    → to_ascii s ≡ some c
    → to_ascii t ≡ some c
    → (s ≡ t) × (s ≢ 0x1B) × (to_ascii 0x1B ≡ none)
to_ascii_lem s t c hs ht typing es et =
    let s_types : typed s ≡ c = typed-eq s c es in
    let t_types : typed t ≡ c = typed-eq t c et in
    (
      ground (arith, distinct_row-holds s t hs ht (λ e. typing (omega arith))),
      λ e. ground (arith, defined_row s hs, es),
      out_of_bounds,
    )

module _ {D : Type 0} (ports : Controller D) where
  -- The controller after `n` polls of its status.
  abbrev pub polled : ℕ → D → D
  polled zero d = d
  polled (suc n) d = polled n (ports.inb 0x64 d).1

  -- The controller still has input to take.
  abbrev pub is_busy : D → Bool
  is_busy d = not (bit_and (ports.inb 0x64 d).0 0x02 == 0)

  ack_loop-ready :
      (left n : ℕ) (d : D)
      → n < left
      → ((k : ℕ) → k < n → is_busy (polled k d) ≡ true)
      → is_busy (polled n d) ≡ false
      → ack_loop ports left d ≡ (0, polled (suc n) d)
  unfolding ack_loop
  ack_loop-ready zero n d h busy ready = absurd (omega arith)
  ack_loop-ready (suc left) zero d h busy ready = ground arith
  ack_loop-ready (suc left) (suc n) d h busy ready = ground (
    arith,
    busy 0,
    ack_loop-ready left n (ports.inb 0x64 d).1 (omega arith) (λ k lt. busy (suc k) (omega arith))
        ready,
  )

  -- If after a command's byte the controller is ready at poll `n` of the 99999 and not before,
  -- send_cmd returns 0 having sent that one byte.
  pub send_cmd-ready :
      (cmd n : ℕ) (d : D)
      → n < 99999
      → ((k : ℕ) → k < n → is_busy (polled k (ports.outb 0x64 cmd d)) ≡ true)
      → is_busy (polled n (ports.outb 0x64 cmd d)) ≡ false
      → send_cmd ports cmd d ≡ (0, polled (suc n) (ports.outb 0x64 cmd d))
  unfolding send_cmd retry_loop wait_ack
  send_cmd-ready cmd n d h busy ready =
      rw (ack_loop-ready 99999 n (ports.outb 0x64 cmd d) h busy ready)
