-- ===== src/Pci/Controller.antt =====
-- Which device pci_ahci_get_abar of pci/pci.c takes for the AHCI controller.
use ester.Prelude.{
  ℕ, zero, suc, ◌+◌, ◌≤◌, ◌<◌, ◌≡◌, ◌⊎◌, inl, inr, refl, true, false, ◌∙◌, ap, arith, Bool-cases,
  Cells, List, Option, none, some, ◌%◌, ◌^◌,
}
use ester.Pci.{
  Dev, DevVector, dev, pci_recursive_scan, is_multi_function, present, pci_read_config_long,
  pci_max_devices,
}
use ester.Pci.Vector.{IsBounded, Recorded}
use ester.Pci.Reached.{BridgesDown, Reach, shown}
use ester.Pci.Scan.{recursive_scan-Seen, recursive_scan-IsBounded}
use ester.Pci.Abar.{is_ahci, abar_loop, pci_ahci_get_abar, pci_ahci_init}

module _ (config : Cells) where
  -- What is returned and written for this device.
  abbrev pub granted : Dev → List (ℕ × ℕ) → ℕ × List (ℕ × ℕ)
  granted d log = (
    pci_read_config_long config d.bus d.device d.function 0x24,
    pci_ahci_init config d.bus d.device d.function log,
  )

  -- The first controller among the devices from `i` on, or none of them.
  abbrev pub Found : ℕ → DevVector → List (ℕ × ℕ) → Option (ℕ × List (ℕ × ℕ)) → Type 0
  Found i v log r =
      ((r ≡ none)
        × ((k : ℕ) → i ≤ k → k < v.pci_devices_cnt → is_ahci config (v.pci_devices k) ≡ false))
      ⊎ ((k : ℕ) × (i ≤ k)
          × (k < v.pci_devices_cnt)
          × (is_ahci config (v.pci_devices k) ≡ true)
          × ((j : ℕ) → i ≤ j → j < k → is_ahci config (v.pci_devices j) ≡ false)
          × (r ≡ some (granted (v.pci_devices k) log)))

  small_index : (i : ℕ) → i < 128 → (i + 1) % 2 ^ 8 ≡ i + 1
  small_index i h = omega arith

  abar_loop-Found :
      (left i : ℕ) (v : DevVector) (log : List (ℕ × ℕ))
      → i + left ≡ v.pci_devices_cnt
      → v.pci_devices_cnt ≤ 128
      → Found i v log (abar_loop config left i v log)
  unfolding abar_loop
  abar_loop-Found zero i v log e small = inl (refl, λ k lo hi. absurd (omega arith))
  abar_loop-Found (suc left) i v log e small =
      elim (Bool-cases (is_ahci config (v.pci_devices i))) [
        | inl is_one ↦
            inr (i, omega arith, omega arith, is_one, λ j lo hi. absurd (omega arith), rw is_one)
        | inr other ↦ elim (abar_loop-Found left (i + 1) v log (omega arith) small) [
          | inl (gone, others) ↦
              inl
                (rw (other, small_index i (omega arith)) gone, λ k lo hi. ground (arith, others k))
          | inr (k, lo, hi, it, before, r) ↦ inr (
            k,
            omega arith,
            hi,
            it,
            λ j lo hi. ground (arith, before j),
            rw (other, small_index i (omega arith)) r,
          )
        ]
      ]

  -- With at most 128 devices in the vector: pci_ahci_get_abar takes the first device of class 1 and
  -- subclass 6, gives its register 0x24, and writes the command register of that device; where
  -- there is none, it reaches its end, where no value is returned.
  pub get_abar-Found :
      (v : DevVector) (log : List (ℕ × ℕ))
      → IsBounded v
      → Found 0 v log (pci_ahci_get_abar config v log)
  unfolding pci_ahci_get_abar
  get_abar-Found v log small = abar_loop-Found v.pci_devices_cnt 0 v log (omega arith) small

  Recorded-taken :
      (w : DevVector) (d : Dev) (log : List (ℕ × ℕ))
      → IsBounded w
      → Recorded d w
      → is_ahci config d ≡ true
      → (c : Dev) × (is_ahci config c ≡ true)
        × Recorded c w
        × (pci_ahci_get_abar config w log ≡ some (granted c log))
  Recorded-taken w d log small (k, lt, e) ahci =
      let it = ap (λ c. is_ahci config c) e ∙ ahci in
      elim (get_abar-Found w log small) [
        | inl (gone, others) ↦ absurd (ground (arith, it, others k (omega arith) lt))
        | inr (j, lo, hi, first, before, r) ↦ (w.pci_devices j, first, (j, hi, refl), r)
      ]

  -- With a present host bridge of a single function, and every present bridge leading to a higher
  -- bus: when the configuration space shows a SATA controller on bus 0, or on a bus reached from it
  -- through shown bridges, pci_recursive_scan and then pci_ahci_get_abar give the register 0x24 of
  -- a SATA controller that the scan has recorded, and write its command register, unless the vector
  -- is full with 128 devices.
  pub scan-abar :
      (v : DevVector) (bus device f : ℕ) (log : List (ℕ × ℕ))
      → BridgesDown config
      → is_multi_function config 0 0 ≡ false
      → present config (dev 0 0 0) ≡ true
      → Reach config 0 bus
      → device < 32
      → shown config bus device f ≡ true
      → is_ahci config (dev bus device f) ≡ true
      → (w : DevVector) × (pci_recursive_scan config v ≡ some w)
        × ((w.pci_devices_cnt ≡ pci_max_devices)
            ⊎ ((d : Dev) × (is_ahci config d ≡ true)
                × Recorded d w
                × (pci_ahci_get_abar config w log ≡ some (granted d log))))
  scan-abar v bus device f log down single here way lt sh ahci =
      let (w, e, seen) = recursive_scan-Seen config v bus device f down single here way lt sh in
      let (w', e', small) = recursive_scan-IsBounded config v down in
      (
        w,
        e,
        elim seen [
          | inl full ↦ inl full
          | inr recorded ↦ inr (
              Recorded-taken w (dev bus device f) log
                (bounded (pci_recursive_scan config v) w w' e e' small) recorded ahci)
        ],
      )
    where
      bounded :
          (r : Option DevVector) (w w' : DevVector)
          → r ≡ some w
          → r ≡ some w'
          → IsBounded w'
          → IsBounded w
      bounded r w w' e e' h = ground arith
