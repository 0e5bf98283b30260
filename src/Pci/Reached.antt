-- ===== src/Pci/Reached.antt =====
-- What pci_recursive_scan of pci/pci.c should find: the functions that the configuration space shows
-- on the buses that bridges lead to.
use ester.Prelude.{
  ℕ, ◌≤◌, ◌<◌, ◌≡◌, ◌⊎◌, inl, inr, true, Bool, Option, some, Cells, arith, ◌&&◌, ◌||◌, ltb, ◌==◌,
}
use native.Mathlib.Decide.{dec_lt}
use ester.Pci.{
  Dev, dev, DevVector, pci_max_devices, pci_vector_dev_add, pci_get_secondary_bus, is_bridge,
  present, is_multi_function,
}
use ester.Pci.Vector.{IsBounded, Recorded, Grows, Recorded-Grows}

-- The device was recorded, or the vector is full.
abbrev pub Seen : Dev → DevVector → Type 0
Seen d w = (w.pci_devices_cnt ≡ pci_max_devices) ⊎ Recorded d w

pub Seen-Grows : {d : Dev} {v w : DevVector} → Grows v w → Seen d v → Seen d w
Seen-Grows g (inl full) = inl (omega (arith, g.longer, g.bounded))
Seen-Grows g (inr r) = inr (Recorded-Grows g r)

pub add-Seen : (d : Dev) (v : DevVector) → IsBounded v → Seen d (pci_vector_dev_add d v).1
unfolding pci_vector_dev_add
add-Seen d v h = elim (dec_lt v.pci_devices_cnt pci_max_devices) [
  | yes room ↦ inr (v.pci_devices_cnt, ground arith, ground arith)
  | no full ↦ inl (ground arith)
]

-- A scan that ends, and only adds devices.
abbrev pub Scans : (DevVector → Option DevVector) → DevVector → (DevVector → Type 0) → Type 0
Scans scan v Q = (w : DevVector) × (scan v ≡ some w) × Grows v w × Q w

module _ (config : Cells) where
  -- The firmware gave every present bridge, at the 8-bit bus, 5-bit device and 3-bit function
  -- numbers there are, a secondary bus above its own.
  abbrev pub BridgesDown : Type 0
  BridgesDown =
      (d : Dev)
      → d.bus < 256
      → d.device < 32
      → d.function < 8
      → present config d ≡ true
      → is_bridge config d ≡ true
      → d.bus < pci_get_secondary_bus config d.bus d.device d.function

  -- The configuration space shows function `f` of the device: function 0 is present, and `f` is 0,
  -- or the device has several functions and `f` is a present one of them.
  abbrev pub shown : ℕ → ℕ → ℕ → Bool
  shown bus device f =
      present config (dev bus device 0)
      && ((f == 0)
          || (is_multi_function config bus device
              && (ltb f 8 && present config (dev bus device f))))

  -- From bus `b`, the secondary buses of shown bridges lead to bus `c`.
  pub data Reach : ℕ → ℕ → Type 0 where
    same_bus : {b : ℕ} → Reach b b
    behind :
        {b c : ℕ} (device f : ℕ)
        → device < 32
        → shown b device f ≡ true
        → is_bridge config (dev b device f) ≡ true
        → Reach (pci_get_secondary_bus config b device f) c
        → Reach b c

  -- All that is shown on the buses that `b` leads to.
  abbrev pub Reached : ℕ → DevVector → Type 0
  Reached b w =
      (c device f : ℕ) → Reach b c → device < 32 → shown c device f ≡ true → Seen (dev c device f) w

  -- The function, and what is behind it.
  abbrev pub Found : Dev → DevVector → Type 0
  Found d w =
      Seen d w
      × (is_bridge config d ≡ true
          → Reached (pci_get_secondary_bus config d.bus d.device d.function) w)

  pub Reached-Grows : (b : ℕ) {v w : DevVector} → Grows v w → Reached b v → Reached b w
  Reached-Grows b g reached c device f way hd sh = Seen-Grows g (reached c device f way hd sh)

  pub Found-Grows : (d : Dev) {v w : DevVector} → Grows v w → Found d v → Found d w
  Found-Grows d g found = (
    Seen-Grows g found.0,
    λ bridge.
        Reached-Grows (pci_get_secondary_bus config d.bus d.device d.function) g (found.1 bridge),
  )

  -- All functions of a device that the configuration space shows.
  abbrev pub DeviceFound : ℕ → ℕ → DevVector → Type 0
  DeviceFound bus device w =
      present config (dev bus device 0) ≡ true
      → Found (dev bus device 0) w
        × (is_multi_function config bus device ≡ true
            → (f : ℕ) → 1 ≤ f
            → f < 8
            → present config (dev bus device f) ≡ true
            → Found (dev bus device f) w)
