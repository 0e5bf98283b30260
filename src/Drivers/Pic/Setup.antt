-- ===== src/Drivers/Pic/Setup.antt =====
-- What the controllers have received after initialisation.
use ester.Prelude.{ℕ, ◌≡◌, refl, List, [], ◌∷◌, ◌==◌, if◌then◌else◌}
use ester.Drivers.Pic.{PortLog, outb, pic1_cmd, pic1_data, pic2_cmd, pic2_data, pic_init}

-- What went to one port, the newest first.
abbrev pub sent : ℕ → PortLog → List ℕ
sent port [] = []
sent port ((p, value) ∷ log) = if p == port then value ∷ sent port log else sent port log

-- pic_init gives each controller its initialisation command, and on its data port, in this order,
-- the vector offset (0x20 and 0x28), the cascade (4 and 2), the 8086 mode, and the mask that the
-- port showed before.
pub pic_init-sent :
    (inb : PortLog → ℕ → ℕ) (log : PortLog)
    → let after = pic_init inb log in
      (sent pic1_cmd after ≡ 0x11 ∷ sent pic1_cmd log)
      × (sent pic2_cmd after ≡ 0x11 ∷ sent pic2_cmd log)
      × (sent pic1_data after ≡ inb log pic1_data ∷ 1 ∷ 4 ∷ 0x20 ∷ sent pic1_data log)
      × (sent pic2_data after ≡ inb log pic2_data ∷ 1 ∷ 2 ∷ 0x28 ∷ sent pic2_data log)
unfolding pic_init outb
pic_init-sent inb log = (refl, refl, refl, refl)
