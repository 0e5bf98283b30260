-- ===== src/Drivers/Keyboard.antt =====
-- drivers/ps2_keyboard/ps2_keyboard.c. The controller is a parameter: what reading a port gives
-- and does, and what writing one does.
pub mod Keys
pub mod Handler
use ester.Prelude.{
  ℕ, zero, suc, ◌+◌, ◌-◌, ◌*◌, ◌≤◌, ◌&&◌, not, List, [], ◌∷◌, get_elem?, Option, none, some, leb,
  ◌==◌, if◌then◌else◌, bit_and, ◌>>=◌,
}

abbrev cmd_disable_first : ℕ
cmd_disable_first = 0xAD

abbrev cmd_enable_first : ℕ
cmd_enable_first = 0xAE

abbrev cmd_disable_second : ℕ
cmd_disable_second = 0xA7

abbrev cmd_enable_second : ℕ
cmd_enable_second = 0xA8

abbrev pub max_retries : ℕ
max_retries = 3

-- The string literals with their terminators; past them C leaves the result undefined.
abbrev qwertzuiop : List ℕ
qwertzuiop = b'q' ∷ b'w' ∷ b'e' ∷ b'r' ∷ b't' ∷ b'z' ∷ b'u' ∷ b'i' ∷ b'o' ∷ b'p' ∷ 0 ∷ []

abbrev asdfghjkl : List ℕ
asdfghjkl = b'a' ∷ b's' ∷ b'd' ∷ b'f' ∷ b'g' ∷ b'h' ∷ b'j' ∷ b'k' ∷ b'l' ∷ 0 ∷ []

abbrev yxcvbnm : List ℕ
yxcvbnm = b'y' ∷ b'x' ∷ b'c' ∷ b'v' ∷ b'b' ∷ b'n' ∷ b'm' ∷ 0 ∷ []

abbrev num : List ℕ
num = b'1' ∷ b'2' ∷ b'3' ∷ b'4' ∷ b'5' ∷ b'6' ∷ b'7' ∷ b'8' ∷ b'9' ∷ 0 ∷ []

unfoldable pub to_ascii : ℕ → Option ℕ
to_ascii scan_code =
    if scan_code == 0x1C
    then some b'\n'
    else if scan_code == 0x39
    then some b' '
    else if scan_code == 0x0E
    then some b'\r'
    else if scan_code == 0xB4
    then some b'.'
    else if scan_code == 0xB5
    then some b'/'
    else if scan_code == 0x29
    then some b'0'
    else if leb 0x02 scan_code && leb scan_code 0x0A
    then get_elem? num (scan_code - 0x02)
    else if leb 0x10 scan_code && leb scan_code 0x1C
    then get_elem? qwertzuiop (scan_code - 0x10)
    else if leb 0x1E scan_code && leb scan_code 0x26
    then get_elem? asdfghjkl (scan_code - 0x1E)
    else if leb 0x2C scan_code && leb scan_code 0x32
    then get_elem? yxcvbnm (scan_code - 0x2C)
    else some 0

-- The ports of the controller.
pub record Controller (D : Type 0) : Type 0 where
  pub inb : ℕ → D → ℕ × D
  pub outb : ℕ → ℕ → D → D

module _ {D : Type 0} (ports : Controller D) where
  -- The polls that are left of `--timeout`.
  unfoldable pub ack_loop : ℕ → D → ℕ × D
  ack_loop zero d = (1, d)
  ack_loop (suc left) d =
      let (status, d') = ports.inb 0x64 d in
      let rest = ack_loop left d' in if bit_and status 0x02 == 0 then (0, d') else rest

  abbrev pub polls : ℕ
  polls = 99999

  unfoldable pub wait_ack : D → ℕ × D
  wait_ack d = ack_loop polls d

  -- There is no timeout: `none` is a buffer that is not empty after the rounds of the fuel.
  unfoldable pub clear_input_data_buffer : ℕ → D → Option D
  clear_input_data_buffer zero d = none
  clear_input_data_buffer (suc fuel) d =
      let (status, d') = ports.inb 0x64 d in
      let rest = clear_input_data_buffer fuel (ports.inb 0x60 d').1 in
      if bit_and status 0x01 == 0 then some d' else rest

  unfoldable pub retry_loop : ℕ → ℕ → D → ℕ × D
  retry_loop zero cmd d = (1, d)
  retry_loop (suc left) cmd d =
      let (status, d') = wait_ack d in
      let rest = retry_loop left cmd (ports.outb 0x64 cmd d') in
      if status == 0 then (0, d') else rest

  unfoldable pub send_cmd : ℕ → D → ℕ × D
  send_cmd cmd d = retry_loop max_retries cmd (ports.outb 0x64 cmd d)

  unfoldable pub disable_first : D → ℕ × D
  disable_first d = send_cmd cmd_disable_first d

  unfoldable pub enable_first : D → ℕ × D
  enable_first d = send_cmd cmd_enable_first d

  unfoldable pub disable_second : D → ℕ × D
  disable_second d = send_cmd cmd_disable_second d

  unfoldable pub enable_second : D → ℕ × D
  enable_second d = send_cmd cmd_enable_second d

  -- The status, whether the handler was registered for vector 33, and the controller.
  unfoldable pub ps2_keyboard_init : ℕ → D → Option (ℕ × ℕ × D)
  ps2_keyboard_init fuel d =
      let (s1, d1) = disable_first d in
      let (s2, d2) = disable_second d1 in
      if not (s1 == 0)
      then some (1, 0, d1)
      else if not (s2 == 0)
      then some (1, 0, d2)
      else (clear_input_data_buffer fuel d2 >>= λ d3. some (enabled d3))
    where
      enabled : D → ℕ × ℕ × D
      enabled d3 =
          let (s4, d4) = enable_first d3 in
          let (s5, d5) = enable_second d4 in
          if not (s4 == 0) then (1, 0, d4) else if not (s5 == 0) then (1, 0, d5) else (0, 33, d5)
