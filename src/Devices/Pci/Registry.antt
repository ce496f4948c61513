-- ===== src/Devices/Pci/Registry.antt =====
-- The vendors and the list of devices: `RegisterPCIVendor` and `RegisterPCIDevice` of
-- Kernel/src/arch/x86/pci.cpp.
--
-- A vendor is named by its ID. `none` is an access outside the array `vendors`, which has no entry
-- for 0xFFFF.
use literate_os.Common.{
  ℕ, suc, ◌<◌, arith, ◌≡◌, refl, ap, Bool, false, Option, none, some, List, [], ◌∷◌, ◌==◌, leb,
  ◌&&◌, if◌then◌else◌, length, Bool-cases, inl, inr,
}
use mathlib.Core.List.{Memᴰ}

-- `pci_vendor_t`; the string is its address.
pub record Vendor : Type 0 where
  pub vendor_id : ℕ
  pub vendor_string : ℕ

-- `pci_device_t`, without its headers; `vendor` is the entry of `vendors` that it points to.
pub record Device : Type 0 where
  pub vendor : ℕ
  pub device_id : ℕ
  pub vendor_id : ℕ
  pub device_name : ℕ
  pub bus : ℕ
  pub slot : ℕ
  pub class_code : ℕ
  pub subclass : ℕ
  pub generic : Bool

unfoldable pub register_vendor : Vendor → (ℕ → Vendor) → Option (ℕ → Vendor)
register_vendor v vendors =
    if leb 0xFFFF v.vendor_id
    then none
    else some λ (id : ℕ). if id == v.vendor_id then v else vendors id

-- `PCIVendors`; `text` has the addresses of the names, by their place in the table.
abbrev pub pci_vendors : (text : ℕ → ℕ) → List Vendor
pci_vendors text =
    record { vendor_id = 0x1022; vendor_string = text 0 }
    ∷ record { vendor_id = 0x8086; vendor_string = text 1 }
    ∷ record { vendor_id = 0x10DE; vendor_string = text 2 }
    ∷ record { vendor_id = 0x10EC; vendor_string = text 3 }
    ∷ record { vendor_id = 0x80EE; vendor_string = text 4 }
    ∷ []

-- The loop of `LoadVendorList` over the rest of the table.
pub load_vendors : List Vendor → (ℕ → Vendor) → Option (ℕ → Vendor)
load_vendors [] vendors = some vendors
load_vendors (v ∷ vs) vendors = elim (register_vendor v vendors) [
  | none ↦ none
  | some vendors' ↦ load_vendors vs vendors'
]

pub load_vendor_list : (text : ℕ → ℕ) → (ℕ → Vendor) → Option (ℕ → Vendor)
unfolding load_vendors
load_vendor_list text vendors = load_vendors (pci_vendors text) vendors

-- How a registered device is recognised in the list.
abbrev pub matches : Device → Device → Bool
matches device listed =
    if device.generic
    then listed.class_code == device.class_code && listed.subclass == device.subclass
    else listed.device_id == device.device_id && listed.vendor_id == device.vendor_id

abbrev pub renamed : Device → Device → Device
renamed device listed = record listed { device_name = device.device_name; generic = device.generic }

-- The loops of `RegisterPCIDevice`: the first match, as it is returned, and the list with it replaced.
pub find_match : Device → List Device → Option Device
find_match device [] = none
find_match device (listed ∷ rest) =
    let later = find_match device rest in
    if matches device listed then some (renamed device listed) else later

pub replace_match : Device → List Device → List Device
replace_match device [] = []
replace_match device (listed ∷ rest) =
    let later = replace_match device rest in
    if matches device listed then renamed device listed ∷ rest else listed ∷ later

-- Without a match the device is returned with the vendor ID 0xFFFF.
unfoldable pub register_device : Device → List Device → Device × List Device
unfolding find_match replace_match
register_device device devices =
    let known = record device { vendor = device.vendor_id } in
    elim (find_match known devices) [
      | none ↦ (record known { vendor_id = 0xFFFF }, devices)
      | some listed ↦ (listed, replace_match known devices)
    ]

replace_match-length :
    (device : Device) (devices : List Device)
    → length (replace_match device devices) ≡ length devices
unfolding replace_match
replace_match-length device [] = refl
replace_match-length device (listed ∷ rest) = elim (Bool-cases (matches device listed)) [
  | inl hit ↦ rw hit refl
  | inr miss ↦ rw miss (ap suc (replace_match-length device rest))
]

-- Registering a driver adds no device, whether it finds one or not.
pub register_device-length :
    (device : Device) (devices : List Device)
    → length ((register_device device devices).1) ≡ length devices
unfolding register_device
register_device-length device devices =
    result (find_match (record device { vendor = device.vendor_id }) devices)
  where
    result :
        (o : Option Device)
        → length (
            (elim o as (λ _. Device × List Device) [
              | none ↦ (record device { vendor = device.vendor_id; vendor_id = 0xFFFF }, devices)
              | some listed ↦
                  (listed, replace_match (record device { vendor = device.vendor_id }) devices)
            ]).1)
          ≡ length devices
    result none = refl
    result (some listed) =
        replace_match-length (record device { vendor = device.vendor_id }) devices

-- What is found under an ID afterwards: the last vendor of the list that has it, or what was there before.
abbrev pub last_with_id : ℕ → List Vendor → Vendor → Vendor
last_with_id id [] before = before
last_with_id id (v ∷ vs) before = last_with_id id vs (if id == v.vendor_id then v else before)

-- Vendors with IDs inside the array are all registered.
pub load_vendors-last :
    (vs : List Vendor) (vendors : ℕ → Vendor)
    → ((v : Vendor) → Memᴰ v vs → v.vendor_id < 0xFFFF)
    → (vendors' : ℕ → Vendor) × (load_vendors vs vendors ≡ some vendors')
      × ((id : ℕ) → vendors' id ≡ last_with_id id vs (vendors id))
unfolding load_vendors register_vendor
load_vendors-last [] vendors inside = (vendors, refl, λ id. refl)
load_vendors-last (v ∷ vs) vendors inside =
    let fits : leb 0xFFFF v.vendor_id ≡ false = ground (arith, inside v (Memᴰ.head refl)) in
    let (vendors', loaded, found) =
      load_vendors-last vs (λ id. if id == v.vendor_id then v else vendors id)
        (λ u m. inside u (Memᴰ.tail m)) in
    (vendors', rw (load_vendors, register_vendor, fits) loaded, found)
