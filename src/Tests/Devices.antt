-- ===== src/Tests/Devices.antt =====
-- pci/pci.c on a configuration space with the host bridge, and a PCI-to-PCI bridge to bus 1.
use ester.Prelude.{
  ℕ, ◌<◌, ◌≡◌, ◌/◌, ◌%◌, ◌^◌, ◌⊎◌, inl, inr, bit_and, Bool, ◌&&◌, ◌||◌, not, refl, true, false,
  some, Cells, arith, ◌==◌, if◌then◌else◌,
}
use ester.Prelude.Bits.{holds_below, holds_below-get}
use ester.Pci.{
  dev, DevVector, present, is_bridge, is_multi_function, pci_recursive_scan, pci_read_config_long,
  pci_get_vendor_id, pci_get_header_type, pci_get_class_code, pci_get_sub_class_code,
  pci_get_secondary_bus, config_address,
}
use ester.Pci.Vector.{IsBounded}
use ester.Pci.Reached.{BridgesDown, Seen, Reach, same_bus, behind, shown}
use ester.Pci.Scan.{recursive_scan-IsBounded, recursive_scan-Seen}

-- The host bridge at 00:00.0, a bridge at 00:01.0 whose secondary bus is 1, and a device at 01:00.0.
abbrev bridged : Cells
bridged a =
    if a == 0x80000000
    then 0x12378086
    else if a == 0x8000000C
    then 0
    else if a == 0x80000800
    then 0x24488086
    else if a == 0x80000808
    then 0x06040000
    else if a == 0x8000080C
    then 0x00010000
    else if a == 0x80000818
    then 0x00010100
    else if a == 0x80010000
    then 0x100E8086
    else if a == 0x8001000C
    then 0
    else 0xFFFFFFFF

abbrev IsRegister : ℕ → Type 0
IsRegister x =
    (x ≡ 0x12378086)
    ⊎ (x ≡ 0)
    ⊎ (x ≡ 0x24488086)
    ⊎ (x ≡ 0x00010000)
    ⊎ (x ≡ 0x00010100)
    ⊎ (x ≡ 0x100E8086)
    ⊎ (x ≡ 0xFFFFFFFF)

bridged-IsRegister : (a : ℕ) → (a ≡ 0x80000808) ⊎ IsRegister (bridged a)
bridged-IsRegister a = ground arith

never_bridge : (x : ℕ) → IsRegister x → (bit_and x 0xFF000000 / 2 ^ 24 % 2 ^ 8 == 0x06) ≡ false
never_bridge x (inl e) = rw e
never_bridge x (inr (inl e)) = rw e
never_bridge x (inr (inr (inl e))) = rw e
never_bridge x (inr (inr (inr (inl e)))) = rw e
never_bridge x (inr (inr (inr (inr (inl e))))) = rw e
never_bridge x (inr (inr (inr (inr (inr (inl e)))))) = rw e
never_bridge x (inr (inr (inr (inr (inr (inr e)))))) = rw e

-- Only one device has the address of that class register; they are gone through one by one.
only_one : ℕ → ℕ → ℕ → Bool
only_one bus device function =
    not (config_address bus device function 0x08 == 0x80000808)
    || ((bus == 0) && ((device == 1) && (function == 0)))

abbrev functions_checked : ℕ → ℕ → Bool
functions_checked bus device = holds_below (only_one bus device) 8

abbrev devices_checked : ℕ → Bool
devices_checked bus = holds_below (functions_checked bus) 32

checked : holds_below devices_checked 256 ≡ true
unfolding only_one config_address holds_below
checked = refl

place :
    (bus device function : ℕ)
    → only_one bus device function ≡ true
    → config_address bus device function 0x08 ≡ 0x80000808
    → (bus ≡ 0) × (device ≡ 1) × (function ≡ 0)
unfolding only_one
place bus device function h e = (ground arith, ground arith, ground arith)

secondary : 0 < pci_get_secondary_bus bridged 0 1 0
unfolding pci_get_secondary_bus pci_read_config_long config_address
secondary = omega arith

bridged-BridgesDown : BridgesDown bridged
unfolding is_bridge pci_get_class_code pci_read_config_long
bridged-BridgesDown d hb hd hf there bridge =
    elim (bridged-IsRegister (config_address d.bus d.device d.function 0x08)) [
      | inr other ↦ absurd (ground (arith, never_bridge _ other, bridge))
      | inl class ↦
          let row = holds_below-get devices_checked 256 checked d.bus hb in
          let cell = holds_below-get (functions_checked d.bus) 32 row d.device hd in
          let one = holds_below-get (only_one d.bus d.device) 8 cell d.function hf in
          let (eb, ed, ef) = place d.bus d.device d.function one class in rw (eb, ed, ef) secondary
    ]

abbrev one_device : DevVector
one_device = record { pci_devices = λ n. dev 0 1 0; pci_devices_cnt = 1 }

recursive_scan-IsBounded_example :
    (w : DevVector) × (pci_recursive_scan bridged one_device ≡ some w) × IsBounded w
recursive_scan-IsBounded_example = recursive_scan-IsBounded bridged one_device bridged-BridgesDown

bridged-single : is_multi_function bridged 0 0 ≡ false
unfolding is_multi_function pci_get_header_type pci_read_config_long config_address
bridged-single = refl

bridged-present : present bridged (dev 0 0 0) ≡ true
unfolding present pci_get_vendor_id pci_read_config_long config_address
bridged-present = refl

bridge-shown : shown bridged 0 1 0 ≡ true
unfolding present pci_get_vendor_id pci_read_config_long config_address
bridge-shown = refl

bridge-is_bridge : is_bridge bridged (dev 0 1 0) ≡ true
unfolding is_bridge pci_get_class_code pci_get_sub_class_code pci_read_config_long config_address
bridge-is_bridge = refl

bus_1-Reach : Reach bridged 0 1
unfolding pci_get_secondary_bus pci_read_config_long config_address
bus_1-Reach = behind 1 0 (omega arith) bridge-shown bridge-is_bridge same_bus

card-shown : shown bridged 1 0 0 ≡ true
unfolding present pci_get_vendor_id pci_read_config_long config_address
card-shown = refl

recursive_scan-Seen_example :
    (w : DevVector) × (pci_recursive_scan bridged one_device ≡ some w) × Seen (dev 1 0 0) w
recursive_scan-Seen_example =
    recursive_scan-Seen bridged one_device 1 0 0 bridged-BridgesDown bridged-single bridged-present
      bus_1-Reach (omega arith) card-shown
