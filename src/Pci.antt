-- ===== src/Pci.antt =====
-- pci/pci.c: the vector of devices, the configuration address, and the recursive scan. The
-- configuration space is a parameter: the 32-bit register at each address written to port 0xCF8.
pub mod Vector
pub mod Reached
pub mod Scan
pub mod Abar
pub mod Controller
use ester.Prelude.{
  ℕ, zero, suc, ◌+◌, ◌-◌, ◌*◌, ◌/◌, ◌%◌, ◌^◌, ◌≤◌, Bool, not, ◌&&◌, Cells, List, [], ◌∷◌, ltb, leb,
  ◌==◌, if◌then◌else◌, bit_and, bit_or, Option, none, some, ◌>>=◌,
}

-- pci_dev_t.
pub record Dev : Type 0 where
  pub bus : ℕ
  pub device : ℕ
  pub function : ℕ

abbrev pub dev : ℕ → ℕ → ℕ → Dev
dev bus device function = record { bus = bus; device = device; function = function }

abbrev pub pci_max_devices : ℕ
pci_max_devices = 128

abbrev pub pci_no_vendor : ℕ
pci_no_vendor = 0xFFFF

-- pci_vector_devices.
pub record DevVector : Type 0 where
  pub pci_devices : ℕ → Dev
  pub pci_devices_cnt : ℕ

unfoldable pub pci_vector_dev_init : DevVector → DevVector
pci_vector_dev_init v = record v { pci_devices_cnt = 0 }

-- `index > cnt-1` is computed in `int`, so nothing wraps; `index < 0` never holds.
unfoldable pub pci_vector_dev_get : DevVector → ℕ → Dev
pci_vector_dev_get v index =
    if v.pci_devices_cnt == 0
    then dev 0 0 0
    else if ltb (v.pci_devices_cnt - 1) index
    then v.pci_devices (v.pci_devices_cnt - 1)
    else v.pci_devices index

-- The status and the vector: 1 is PCI_VECTOR_DEV_ADD_ERR.
unfoldable pub pci_vector_dev_add : Dev → DevVector → ℕ × DevVector
pci_vector_dev_add d v = if leb pci_max_devices v.pci_devices_cnt then (1, v) else (
  0,
  record {
    pci_devices = λ n. if n == v.pci_devices_cnt then d else v.pci_devices n;
    pci_devices_cnt = (v.pci_devices_cnt + 1) % 2 ^ 16;
  },
)

-- The address of pci_read_config_long and pci_write, from uint8_t arguments.
unfoldable pub config_address : ℕ → ℕ → ℕ → ℕ → ℕ
config_address bus device function offset =
    bit_or
      (bit_or (bit_or (bit_or (bus * 2 ^ 16) (device * 2 ^ 11)) (function * 2 ^ 8))
        (bit_and offset 0xFC))
      0x80000000

-- Reads of the configuration space do not change it.
module _ (config : Cells) where
  unfoldable pub pci_read_config_long : ℕ → ℕ → ℕ → ℕ → ℕ
  pci_read_config_long bus device function offset =
      config (config_address bus device function offset)

  unfoldable pub pci_get_vendor_id : ℕ → ℕ → ℕ → ℕ
  pci_get_vendor_id bus device function =
      bit_and (pci_read_config_long bus device function 0x00) 0x0000FFFF % 2 ^ 16

  unfoldable pub pci_get_header_type : ℕ → ℕ → ℕ → ℕ
  pci_get_header_type bus device function =
      bit_and (pci_read_config_long bus device function 0x0C) 0x00FF0000 / 2 ^ 16 % 2 ^ 8

  unfoldable pub pci_get_class_code : ℕ → ℕ → ℕ → ℕ
  pci_get_class_code bus device function =
      bit_and (pci_read_config_long bus device function 0x08) 0xFF000000 / 2 ^ 24 % 2 ^ 8

  unfoldable pub pci_get_sub_class_code : ℕ → ℕ → ℕ → ℕ
  pci_get_sub_class_code bus device function =
      bit_and (pci_read_config_long bus device function 0x08) 0x00FF0000 / 2 ^ 16 % 2 ^ 8

  unfoldable pub pci_get_secondary_bus : ℕ → ℕ → ℕ → ℕ
  pci_get_secondary_bus bus device function =
      bit_and (pci_read_config_long bus device function 0x18) 0x0000FF00 / 2 ^ 8 % 2 ^ 8

  -- PCI-to-PCI bridge, by class and subclass.
  unfoldable pub is_bridge : Dev → Bool
  is_bridge d =
      (pci_get_class_code d.bus d.device d.function == 0x06)
      && (pci_get_sub_class_code d.bus d.device d.function == 0x04)

  -- `next` scans the bus behind a bridge. A failed add prints a message and goes on.
  unfoldable pub pci_function_scan :
      (ℕ → DevVector → Option DevVector) → Dev → DevVector → Option DevVector
  pci_function_scan next d v =
      (if is_bridge d then next (pci_get_secondary_bus d.bus d.device d.function) v else some v)
      >>= λ w. some (pci_vector_dev_add d w).1

  unfoldable pub present : Dev → Bool
  present d = not (pci_get_vendor_id d.bus d.device d.function == pci_no_vendor)

  unfoldable pub is_multi_function : ℕ → ℕ → Bool
  is_multi_function bus device = not (bit_and (pci_get_header_type bus device 0) 0x80 == 0)

  -- The loop over the functions from `function` on, with `left` rounds left.
  unfoldable pub scan_functions :
      (ℕ → DevVector → Option DevVector) → ℕ → Dev → DevVector → Option DevVector
  scan_functions next zero d v = some v
  scan_functions next (suc left) d v =
      (if present d then pci_function_scan next d v else some v)
      >>= scan_functions next left (record d { function = d.function + 1 })

  unfoldable pub pci_device_scan :
      (ℕ → DevVector → Option DevVector) → ℕ → ℕ → DevVector → Option DevVector
  pci_device_scan next bus device v =
      if present (dev bus device 0)
      then (pci_function_scan next (dev bus device 0) v >>= λ w.
          if is_multi_function bus device
          then scan_functions next 7 (dev bus device 1) w
          else some w)
      else some v

  -- The loop of pci_bus_scan over the devices from `device` on.
  unfoldable pub scan_devices :
      (ℕ → DevVector → Option DevVector) → ℕ → ℕ → ℕ → DevVector → Option DevVector
  scan_devices next zero bus device v = some v
  scan_devices next (suc left) bus device v =
      pci_device_scan next bus device v >>= scan_devices next left bus (device + 1)

  -- The fuel is the nesting of bridges: `none` is a recursion deeper than that.
  unfoldable pub pci_bus_scan : ℕ → ℕ → DevVector → Option DevVector
  pci_bus_scan zero bus v = none
  pci_bus_scan (suc fuel) bus v = scan_devices (pci_bus_scan fuel) 32 bus 0 v

  abbrev pub bus_depth : ℕ
  bus_depth = 256

  -- The loop over the functions of the host bridge, each taken for a bus.
  unfoldable pub scan_hosts : ℕ → ℕ → DevVector → Option DevVector
  scan_hosts zero i v = some v
  scan_hosts (suc left) i v =
      if present (dev 0 0 i) then pci_bus_scan bus_depth i v >>= scan_hosts left (i + 1) else some v

  unfoldable pub pci_recursive_scan : DevVector → Option DevVector
  pci_recursive_scan v =
      let v0 = pci_vector_dev_init v in
      if is_multi_function 0 0
      then scan_hosts 8 0 v0
      else if present (dev 0 0 0)
      then pci_bus_scan bus_depth 0 v0
      else some v0
