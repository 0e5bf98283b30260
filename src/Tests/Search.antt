-- ===== src/Tests/Search.antt =====
-- pci/pci.c on a configuration space with the host bridge and a SATA controller.
use ester.Prelude.{
  ℕ, ◌≡◌, ◌⊎◌, inl, inr, ◌/◌, ◌%◌, ◌^◌, bit_and, refl, true, false, [], some, Cells, arith, ◌==◌,
  if◌then◌else◌,
}
use ester.Pci.{
  Dev, dev, DevVector, pci_max_devices, present, is_bridge, is_multi_function, pci_recursive_scan,
  pci_read_config_long, pci_get_vendor_id, pci_get_header_type, pci_get_class_code,
  pci_get_sub_class_code, config_address,
}
use ester.Pci.Vector.{Recorded}
use ester.Pci.Reached.{BridgesDown, same_bus, shown}
use ester.Pci.Abar.{is_ahci, pci_ahci_get_abar}
use ester.Pci.Controller.{granted, scan-abar}

-- The host bridge at 00:00.0, and the controller at 00:01.0 with its registers at 0xFEBF1000.
abbrev pub with_ahci : Cells
with_ahci a =
    if a == 0x80000000
    then 0x12378086
    else if a == 0x8000000C
    then 0
    else if a == 0x80000800
    then 0x29228086
    else if a == 0x80000808
    then 0x01060100
    else if a == 0x80000824
    then 0xFEBF1000
    else 0xFFFFFFFF

abbrev IsRegister : ℕ → Type 0
IsRegister x =
    (x ≡ 0x12378086)
    ⊎ (x ≡ 0)
    ⊎ (x ≡ 0x29228086)
    ⊎ (x ≡ 0x01060100)
    ⊎ (x ≡ 0xFEBF1000)
    ⊎ (x ≡ 0xFFFFFFFF)

with_ahci-IsRegister : (a : ℕ) → IsRegister (with_ahci a)
with_ahci-IsRegister a = ground arith

never_bridge : (x : ℕ) → IsRegister x → (bit_and x 0xFF000000 / 2 ^ 24 % 2 ^ 8 == 0x06) ≡ false
never_bridge x (inl e) = rw e
never_bridge x (inr (inl e)) = rw e
never_bridge x (inr (inr (inl e))) = rw e
never_bridge x (inr (inr (inr (inl e)))) = rw e
never_bridge x (inr (inr (inr (inr (inl e))))) = rw e
never_bridge x (inr (inr (inr (inr (inr e))))) = rw e

no_bridge : (d : Dev) → is_bridge with_ahci d ≡ false
unfolding is_bridge pci_get_class_code pci_read_config_long
no_bridge d = rw (
    never_bridge (with_ahci (config_address d.bus d.device d.function 0x08))
      (with_ahci-IsRegister (config_address d.bus d.device d.function 0x08)))

with_ahci-BridgesDown : BridgesDown with_ahci
with_ahci-BridgesDown d b v g here h = absurd (ground (arith, no_bridge d))

single : is_multi_function with_ahci 0 0 ≡ false
unfolding is_multi_function pci_get_header_type pci_read_config_long config_address
single = refl

host-present : present with_ahci (dev 0 0 0) ≡ true
unfolding present pci_get_vendor_id pci_read_config_long config_address
host-present = refl

controller-shown : shown with_ahci 0 1 0 ≡ true
unfolding present pci_get_vendor_id pci_read_config_long config_address
controller-shown = refl

controller-is_ahci : is_ahci with_ahci (dev 0 1 0) ≡ true
unfolding is_ahci pci_get_class_code pci_get_sub_class_code pci_read_config_long config_address
controller-is_ahci = refl

abbrev pub two_devices : DevVector
two_devices = record { pci_devices = λ n. dev 0 n 0; pci_devices_cnt = 2 }

scan-abar_example :
    (w : DevVector) × (pci_recursive_scan with_ahci two_devices ≡ some w)
    × ((w.pci_devices_cnt ≡ pci_max_devices)
        ⊎ ((d : Dev) × (is_ahci with_ahci d ≡ true)
            × Recorded d w
            × (pci_ahci_get_abar with_ahci w [] ≡ some (granted with_ahci d []))))
scan-abar_example =
    scan-abar with_ahci two_devices 0 1 0 [] with_ahci-BridgesDown single host-present same_bus
      (omega arith) controller-shown controller-is_ahci
