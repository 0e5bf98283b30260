-- ===== src/Pci/Vector.antt =====
-- The vector of devices keeps at most 128, in the order in which they were added.
use ester.Prelude.{
  ℕ, ◌+◌, ◌≤◌, ◌<◌, ◌≡◌, ◌⊎◌, inl, inr, Bool-cases, refl, arith, ltb, leb, if◌then◌else◌,
}
use ester.Pci.{Dev, DevVector, pci_vector_dev_get, pci_vector_dev_add, pci_max_devices}

abbrev pub IsBounded : DevVector → Type 0
IsBounded v = v.pci_devices_cnt ≤ pci_max_devices

-- `d` is one of the devices.
abbrev pub Recorded : Dev → DevVector → Type 0
Recorded d v = (k : ℕ) × (k < v.pci_devices_cnt) × (v.pci_devices k ≡ d)

-- `w` is `v` with devices added behind it.
pub record Grows (v w : DevVector) : Type 0 where
  pub longer : v.pci_devices_cnt ≤ w.pci_devices_cnt
  pub bounded : IsBounded w
  pub kept : (k : ℕ) → k < v.pci_devices_cnt → w.pci_devices k ≡ v.pci_devices k

pub Grows-refl : {v : DevVector} → IsBounded v → Grows v v
Grows-refl h = record { longer = omega arith; bounded = h; kept = λ k p. refl }

pub Grows-trans : {u v w : DevVector} → Grows u v → Grows v w → Grows u w
Grows-trans a b = record {
  longer = omega (arith, a.longer, b.longer);
  bounded = b.bounded;
  kept = λ k h. ground (arith, a.kept k, b.kept k, a.longer);
}

pub Recorded-Grows : {d : Dev} {v w : DevVector} → Grows v w → Recorded d v → Recorded d w
Recorded-Grows g (k, h, e) = (k, omega (arith, g.longer), ground (arith, g.kept k))

pub add-Grows : (d : Dev) (v : DevVector) → IsBounded v → Grows v (pci_vector_dev_add d v).1
unfolding pci_vector_dev_add
add-Grows d v h = record {
  longer = ground arith;
  bounded = ground arith;
  kept = λ k p. ground arith;
}

-- On a vector of at most 128 devices, pci_vector_dev_add fails exactly when there are 128 and then
-- changes nothing; otherwise pci_vector_dev_get at the old count gives the new device, at every
-- index below it the old one, and from the new count on it again gives the last.
pub get-add :
    (d : Dev) (v : DevVector)
    → IsBounded v
    → let (status, w) = pci_vector_dev_add d v in
      ((status ≡ 1) × (w ≡ v) × (v.pci_devices_cnt ≡ pci_max_devices))
      ⊎ ((status ≡ 0)
          × (w.pci_devices_cnt ≡ v.pci_devices_cnt + 1)
          × ((n : ℕ)
              → pci_vector_dev_get w n
                ≡ (if ltb n v.pci_devices_cnt then pci_vector_dev_get v n else d)))
unfolding pci_vector_dev_add pci_vector_dev_get
get-add d v h = elim (Bool-cases (leb pci_max_devices v.pci_devices_cnt)) [
  | inl full ↦ inl (ground arith, ground arith, ground arith)
  | inr room ↦ inr (ground arith, ground arith, λ n. ground arith)
]
