-- ===== src/Pci/Scan.antt =====
-- The scan ends when bridges lead to higher buses, and then misses no device while there is room.
use ester.Prelude.{
  ℕ, zero, suc, ◌+◌, ◌≤◌, ◌<◌, ◌≡◌, inl, inr, refl, true, false, Option, some, Cells, arith,
  Bool-cases, if◌then◌else◌,
}
use mathlib.Core.Path.{subst}
use native.Mathlib.Decide.{ℕ_discrete}
use ester.Pci.{
  Dev, dev, DevVector, pci_vector_dev_init, pci_vector_dev_add, pci_get_secondary_bus, is_bridge,
  present, is_multi_function, pci_function_scan, scan_functions, pci_device_scan, scan_devices,
  pci_bus_scan, scan_hosts, pci_recursive_scan,
}
use ester.Pci.Vector.{IsBounded, Grows, Grows-refl, Grows-trans, add-Grows}
use ester.Pci.Reached.{
  Seen, Scans, BridgesDown, shown, Reach, Reached, Found, DeviceFound, add-Seen, Reached-Grows,
  Found-Grows, same_bus, behind,
}

module _ (config : Cells) where
  secondary-lt : (d : Dev) → pci_get_secondary_bus config d.bus d.device d.function < 256
  unfolding pci_get_secondary_bus
  secondary-lt d = omega arith

  module _ (down : BridgesDown config) (next : ℕ → DevVector → Option DevVector) (bus : ℕ)
      (small : bus < 256)
      (scans : (b : ℕ) (v : DevVector)
        → bus < b
        → b < 256
        → IsBounded v
        → Scans (next b) v (Reached config b)) where
    function_scan-Seen :
        (d : Dev) (v : DevVector)
        → d.bus ≡ bus
        → d.device < 32
        → d.function < 8
        → present config d ≡ true
        → IsBounded v
        → Scans (pci_function_scan config next d) v (Found config d)
    unfolding pci_function_scan
    function_scan-Seen d v at hd hf here h = elim (Bool-cases (is_bridge config d)) [
      | inl bridge ↦
          let (w, e, g, reached) =
            scans (pci_get_secondary_bus config d.bus d.device d.function) v
              (omega (arith, down d (omega arith) hd hf here bridge)) (secondary-lt d) h in
          (
            (pci_vector_dev_add d w).1,
            rw (bridge, e),
            Grows-trans g (add-Grows d w g.bounded),
            (
              add-Seen d w g.bounded,
              λ _.
                  Reached-Grows config (pci_get_secondary_bus config d.bus d.device d.function)
                    (add-Grows d w g.bounded) reached,
            ),
          )
      | inr leaf ↦
          ((pci_vector_dev_add d v).1, rw leaf, add-Grows d v h, (add-Seen d v h, λ bridge. cc))
    ]

    if_present-Seen :
        (d : Dev) (v : DevVector)
        → d.bus ≡ bus
        → d.device < 32
        → d.function < 8
        → IsBounded v
        → Scans
            (λ v. if present config d then pci_function_scan config next d v else some v)
            v
            (λ w. present config d ≡ true → Found config d w)
    if_present-Seen d v at hd hf h = elim (Bool-cases (present config d)) [
      | inl here ↦
          let (w, e, g, seen) = function_scan-Seen d v at hd hf here h in
          (w, rw here e, g, λ _. seen)
      | inr gone ↦ (v, rw gone, Grows-refl h, λ p. cc)
    ]

    scan_functions-Seen :
        (left device function : ℕ) (v : DevVector)
        → device < 32
        → function + left ≤ 8
        → IsBounded v
        → Scans (scan_functions config next left (dev bus device function)) v (λ w.
          (f : ℕ)
          → function ≤ f
          → f < function + left
          → present config (dev bus device f) ≡ true
          → Found config (dev bus device f) w)
    unfolding scan_functions
    scan_functions-Seen zero device function v hd hf h =
        (v, refl, Grows-refl h, λ f p q. absurd (omega arith))
    scan_functions-Seen (suc left) device function v hd hf h =
        let (w, e, g, seen) = if_present-Seen (dev bus device function) v refl hd (omega arith) h in
        let (w', e', g', rest) =
          scan_functions-Seen left device (function + 1) w hd (omega arith) g.bounded in
        (
          w',
          rw e e',
          Grows-trans g g',
          λ f p q here. elim (ℕ_discrete function f) [
            | yes at ↦
                subst (λ k. Found config (dev bus device k) w') at
                  (Found-Grows config (dev bus device function) g' (seen (rw at here)))
            | no other ↦ rest f (omega arith) (omega arith) here
          ],
        )

    device_scan-Seen :
        (device : ℕ) (v : DevVector)
        → device < 32
        → IsBounded v
        → Scans (pci_device_scan config next bus device) v (DeviceFound config bus device)
    unfolding pci_device_scan
    device_scan-Seen device v hd h = elim (Bool-cases (present config (dev bus device 0))) [
      | inr gone ↦ (v, rw gone, Grows-refl h, λ p. cc)
      | inl here ↦
          let (w, e, g, seen) =
            function_scan-Seen (dev bus device 0) v refl hd (omega arith) here h in
          elim (Bool-cases (is_multi_function config bus device)) [
            | inr single ↦ (w, rw (here, e, single), g, λ p. (seen, λ multi. cc))
            | inl multi ↦
                let (w', e', g', rest) =
                  scan_functions-Seen 7 device 1 w hd (omega arith) g.bounded in
                (
                  w',
                  rw (here, e, multi) e',
                  Grows-trans g g',
                  λ p. (Found-Grows config (dev bus device 0) g' seen, λ m f lo hi. rest f lo hi),
                )
          ]
    ]

    DeviceFound-Grows :
        (device : ℕ) {v w : DevVector}
        → Grows v w
        → DeviceFound config bus device v
        → DeviceFound config bus device w
    DeviceFound-Grows device g seen p = (
      Found-Grows config (dev bus device 0) g (seen p).0,
      λ m f lo hi q. Found-Grows config (dev bus device f) g ((seen p).1 m f lo hi q),
    )

    scan_devices-Seen :
        (left device : ℕ) (v : DevVector)
        → device + left ≤ 32
        → IsBounded v
        → Scans
            (scan_devices config next left bus device)
            v
            (λ w. (k : ℕ) → device ≤ k → k < device + left → DeviceFound config bus k w)
    unfolding scan_devices
    scan_devices-Seen zero device v hd h = (v, refl, Grows-refl h, λ k p q. absurd (omega arith))
    scan_devices-Seen (suc left) device v hd h =
        let (w, e, g, seen) = device_scan-Seen device v (omega arith) h in
        let (w', e', g', rest) = scan_devices-Seen left (device + 1) w (omega arith) g.bounded in
        (
          w',
          rw e e',
          Grows-trans g g',
          λ k p q. elim (ℕ_discrete device k) [
            | yes at ↦
                subst (λ n. DeviceFound config bus n w') at (DeviceFound-Grows device g' seen)
            | no other ↦ rest k (omega arith) (omega arith)
          ],
        )

  shown-Found :
      (bus device f : ℕ) (w : DevVector)
      → DeviceFound config bus device w
      → shown config bus device f ≡ true
      → Found config (dev bus device f) w
  shown-Found bus device zero w found h = (found (ground arith)).0
  shown-Found bus device (suc f) w found h =
      (found (ground arith)).1 (ground arith) (suc f) (omega arith) (ground arith) (ground arith)

  devices-Reached :
      (bus : ℕ) (w : DevVector)
      → ((k : ℕ) → k < 32 → DeviceFound config bus k w)
      → Reached config bus w
  devices-Reached bus w found c device f same_bus hd sh =
      (shown-Found bus device f w (found device hd) sh).0
  devices-Reached bus w found c device f (behind k g hk sk bridge way) hd sh =
      (shown-Found bus k g w (found k hk) sk).1 bridge c device f way hd sh

  -- Where every present bridge leads to a higher bus, a scan of bus `bus` with fuel for the buses from
  -- it up to 255 ends, only adds devices to a bounded vector, never to more than 128, and unless the
  -- vector is then full it holds all that is shown config on the buses that `bus` leads to.
  pub bus_scan-Reached :
      (fuel bus : ℕ) (v : DevVector)
      → BridgesDown config
      → bus < 256
      → 256 ≤ bus + fuel
      → IsBounded v
      → Scans (pci_bus_scan config fuel bus) v (Reached config bus)
  unfolding pci_bus_scan
  bus_scan-Reached zero bus v down small enough h = absurd (omega arith)
  bus_scan-Reached (suc fuel) bus v down small enough h =
      let (w, e, g, found) =
        scan_devices-Seen down (pci_bus_scan config fuel) bus small
          (λ b u lo hi hu. bus_scan-Reached fuel b u down hi (omega arith) hu) 32 0 v (omega arith)
          h in
      (w, e, g, devices-Reached bus w (λ k hk. found k (omega arith) (omega arith)))

  scan_hosts-IsBounded :
      (left i : ℕ) (v : DevVector)
      → BridgesDown config
      → i + left ≤ 256
      → IsBounded v
      → Scans (scan_hosts config left i) v (λ _. Unit {0})
  unfolding scan_hosts
  scan_hosts-IsBounded zero i v down small h = (v, refl, Grows-refl h, tt)
  scan_hosts-IsBounded (suc left) i v down small h =
      elim (Bool-cases (present config (dev 0 0 i))) [
        | inr gone ↦ (v, rw gone, Grows-refl h, tt)
        | inl here ↦
            let (w, e, g, _) = bus_scan-Reached 256 i v down (omega arith) (omega arith) h in
            let (w', e', g', _) =
              scan_hosts-IsBounded left (i + 1) w down (omega arith) g.bounded in
            (w', rw (here, e) e', Grows-trans g g', tt)
      ]

  -- Where every present bridge leads to a higher bus, pci_recursive_scan ends, whatever the vector
  -- held before, with at most 128 devices in it.
  pub recursive_scan-IsBounded :
      (v : DevVector)
      → BridgesDown config
      → (w : DevVector) × (pci_recursive_scan config v ≡ some w) × IsBounded w
  unfolding pci_recursive_scan pci_vector_dev_init
  recursive_scan-IsBounded v down = elim (Bool-cases (is_multi_function config 0 0)) [
    | inl multi ↦
        let (w, e, g, _) =
          scan_hosts-IsBounded 8 0 (record v { pci_devices_cnt = 0 }) down (omega arith)
            (omega arith) in
        (w, rw multi e, g.bounded)
    | inr single ↦ elim (Bool-cases (present config (dev 0 0 0))) [
      | inr gone ↦ (record v { pci_devices_cnt = 0 }, rw (single, gone), omega arith)
      | inl here ↦
          let (w, e, g, seen) =
            bus_scan-Reached 256 0 (record v { pci_devices_cnt = 0 }) down (omega arith)
              (omega arith) (omega arith) in
          (w, rw (single, here) e, g.bounded)
    ]
  ]

  -- With a present host bridge of a single function, and every present bridge leading to a higher
  -- bus: a function that the configuration space shows on bus 0, or on a bus that is reached from
  -- bus 0 through the secondary buses of shown bridges, is in the vector after pci_recursive_scan,
  -- unless the vector is full with 128 devices.
  pub recursive_scan-Seen :
      (v : DevVector) (bus device f : ℕ)
      → BridgesDown config
      → is_multi_function config 0 0 ≡ false
      → present config (dev 0 0 0) ≡ true
      → Reach config 0 bus
      → device < 32
      → shown config bus device f ≡ true
      → (w : DevVector) × (pci_recursive_scan config v ≡ some w) × Seen (dev bus device f) w
  unfolding pci_recursive_scan pci_vector_dev_init
  recursive_scan-Seen v bus device f down single host way lt sh =
      let (w, e, g, reached) =
        bus_scan-Reached 256 0 (record v { pci_devices_cnt = 0 }) down (omega arith) (omega arith)
          (omega arith) in
      (w, rw (single, host) e, reached bus device f way lt sh)
