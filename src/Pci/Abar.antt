-- ===== src/Pci/Abar.antt =====
-- pci/pci.c: looking for the AHCI controller in the vector of devices. Port writes are a log with
-- the newest first.
use ester.Prelude.{
  ℕ, zero, suc, ◌+◌, ◌/◌, ◌%◌, ◌^◌, Bool, ◌&&◌, Cells, List, ◌∷◌, ◌==◌, if◌then◌else◌, bit_and,
  bit_or, Option, none, some,
}
use ester.Pci.{
  Dev, DevVector, config_address, pci_read_config_long, pci_get_class_code, pci_get_sub_class_code,
}

abbrev pub pci_config_address_port : ℕ
pci_config_address_port = 0xCF8

abbrev pub pci_config_data_port : ℕ
pci_config_data_port = 0xCFC

unfoldable pub pci_vector_dev_cnt : DevVector → ℕ
pci_vector_dev_cnt v = v.pci_devices_cnt

unfoldable pub pci_write : ℕ → ℕ → ℕ → ℕ → ℕ → List (ℕ × ℕ) → List (ℕ × ℕ)
pci_write bus device function offset data_ log =
    (pci_config_data_port, data_)
    ∷ ((pci_config_address_port, config_address bus device function offset) ∷ log)

module _ (config : Cells) where
  unfoldable pub pci_get_prog_if_code : ℕ → ℕ → ℕ → ℕ
  pci_get_prog_if_code bus device function =
      bit_and (pci_read_config_long config bus device function 0x08) 0x0000FF00 / 2 ^ 8 % 2 ^ 8

  -- The command register is cut to 16 bits, so the status register is written as 0.
  unfoldable pub pci_ahci_init : ℕ → ℕ → ℕ → List (ℕ × ℕ) → List (ℕ × ℕ)
  pci_ahci_init bus slot func log =
      let command = pci_read_config_long config bus slot func 0x04 % 2 ^ 16 in
      let set = bit_or (bit_or (bit_or (bit_or command (2 ^ 10)) (2 ^ 8)) (2 ^ 2)) (2 ^ 1) in
      pci_write bus slot func 0x04 set log

  -- A SATA controller, by class and subclass.
  unfoldable pub is_ahci : Dev → Bool
  is_ahci d =
      (pci_get_class_code config d.bus d.device d.function == 0x1)
      && (pci_get_sub_class_code config d.bus d.device d.function == 0x6)

  -- The loop from device `i` on. `none` is the end of the function, which returns nothing there.
  -- The index is 8 bits wide; with the at most 128 devices of the vector it does not wrap.
  unfoldable pub abar_loop : ℕ → ℕ → DevVector → List (ℕ × ℕ) → Option (ℕ × List (ℕ × ℕ))
  abar_loop zero i v log = none
  abar_loop (suc left) i v log =
      let d = v.pci_devices i in
      let rest = abar_loop left ((i + 1) % 2 ^ 8) v log in
      if is_ahci d
      then some (
        pci_read_config_long config d.bus d.device d.function 0x24,
        pci_ahci_init d.bus d.device d.function log,
      )
      else rest

  unfoldable pub pci_ahci_get_abar : DevVector → List (ℕ × ℕ) → Option (ℕ × List (ℕ × ℕ))
  pci_ahci_get_abar v log = abar_loop v.pci_devices_cnt 0 v log
