-- ===== src/Devices/Pci/Scan.antt =====
-- The scan of all buses: `ReadConfig` and `Init` of Kernel/src/arch/x86/pci.cpp.
--
-- `ReadConfig` counts from an offset that is not set and has no `return` behind its loop: a header of type 0
-- is `fault`. `lost` is what the local `header` holds before. `type1` is `ReadType1Config`, which is not defined. `stale` is what
-- the local `device` holds; `Init` does not set its device ID. The vendors, which `Init` loads first, are in
-- `Registry`; a device has its vendor by the index.
use literate_os.Common.{
  ℕ, zero, suc, ◌+◌, ◌<◌, ◌≡◌, ap₂, ◌∙◌, bit_and, Bool, true, false, List, [], ◌∷◌, ◌++◌, ◌==◌, leb,
  ltb, ◌&&◌, if◌then◌else◌, arith, Bool-cases, inl, inr,
}
use literate_os.Devices.Pci.{config_read_byte, get_vendor, check_device, config_read_word}
use literate_os.Common.{ap, refl, ◌≢◌}
use literate_os.Common.Run.{Run, ok, fault, ◌>>=◌, >>=-eq-ok}
use literate_os.Devices.Pci.Registry.{Device}

-- The fields of the headers that `Init` looks at.
pub record Header : Type 0 where
  pub header_type : ℕ
  pub class_code : ℕ
  pub subclass : ℕ

abbrev pub one_if : Bool → ℕ
one_if b = if b then 1 else 0

slot_here :
    (b bus from left j : ℕ) (now : Bool)
    → (b == bus && j == from) ≡ true
    → one_if (now && (bus == b && from == j))
        + one_if (b == bus && leb (from + 1) j && ltb j (from + 1 + left) && now)
      ≡ one_if (b == bus && leb from j && ltb j (from + suc left) && now)
slot_here b bus from left j true here = ground arith
slot_here b bus from left j false here = ground arith

slot_elsewhere :
    (b bus from left j : ℕ) (c now : Bool)
    → (b == bus && j == from) ≡ false
    → one_if (now && (bus == b && from == j))
        + one_if (b == bus && leb (from + 1) j && ltb j (from + 1 + left) && c)
      ≡ one_if (b == bus && leb from j && ltb j (from + suc left) && c)
slot_elsewhere b bus from left j true true elsewhere = ground arith
slot_elsewhere b bus from left j true false elsewhere = ground arith
slot_elsewhere b bus from left j false true elsewhere = ground arith
slot_elsewhere b bus from left j false false elsewhere = ground arith

-- One slot more: `now` is whether there is a device at `from`, and `c` whether there is one at `j`.
slot-suc :
    (b bus from left j : ℕ) (c now : Bool)
    → (b ≡ bus → j ≡ from → c ≡ now)
    → one_if (now && (bus == b && from == j))
        + one_if (b == bus && leb (from + 1) j && ltb j (from + 1 + left) && c)
      ≡ one_if (b == bus && leb from j && ltb j (from + suc left) && c)
slot-suc b bus from left j c now same = elim (Bool-cases (b == bus && j == from)) [
  | inl here ↦
      let e : c ≡ now = same (ground arith) (ground arith) in
      rw e (slot_here b bus from left j now here)
  | inr elsewhere ↦ slot_elsewhere b bus from left j c now elsewhere
]

bus-suc :
    (b from left j : ℕ) (c : Bool)
    → j < 32
    → one_if (b == from && leb 0 j && ltb j (0 + 32) && c)
        + one_if (leb (from + 1) b && ltb b (from + 1 + left) && c)
      ≡ one_if (leb from b && ltb b (from + suc left) && c)
bus-suc b from left j true small = ground arith
bus-suc b from left j false small = ground arith

any_bus : (b : ℕ) (c : Bool) → b < 256 → one_if (leb 0 b && ltb b (0 + 256) && c) ≡ one_if c
any_bus b c small = let within : (leb 0 b && ltb b (0 + 256)) ≡ true = ground arith in rw within

module _ (config : ℕ → ℕ) (lost type1 : (bus slot : ℕ) → Header) (stale : Device) (name : ℕ) where
  -- The header type is read at offset 13.
  abbrev pub header_type_at : (bus slot : ℕ) → ℕ
  header_type_at bus slot = bit_and (config_read_byte config bus slot 0 13) 0x7F

  pub read_config : (bus slot : ℕ) → Header → Run Header
  read_config bus slot header =
      if header_type_at bus slot == 0
      then fault
      else ok (record header { header_type = header_type_at bus slot })

  pub found_device : (bus slot : ℕ) → Run Device
  unfolding read_config
  found_device bus slot = do
    header0 ← read_config bus slot (lost bus slot)
    let header = if header0.header_type == 0 then header0 else type1 bus slot
    ok (record stale {
      vendor = get_vendor config bus slot;
      vendor_id = get_vendor config bus slot;
      device_name = name;
      bus = bus;
      slot = slot;
      class_code = header.class_code;
      subclass = header.subclass;
      generic = false;
    })

  -- The inner loop from `slot` on, and the outer one from `bus` on.
  pub scan_slots : (left slot bus : ℕ) → List Device → Run (List Device)
  unfolding found_device
  scan_slots zero slot bus devices = ok devices
  scan_slots (suc left) slot bus devices =
      let found = (do d ← found_device bus slot; ok (devices ++ d ∷ [])) in
      (if check_device config bus slot then found else ok devices) >>= λ devices.
      scan_slots left (slot + 1) bus devices

  pub scan_buses : (left bus : ℕ) → List Device → Run (List Device)
  scan_buses zero bus devices = ok devices
  scan_buses (suc left) bus devices = do
    devices ← scan_slots 32 0 bus devices
    scan_buses left (bus + 1) devices

  unfoldable pub init : Run (List Device)
  init = scan_buses 256 0 []

  -- How often a place occurs in a list of devices.
  abbrev pub is_at : (bus slot : ℕ) → Device → Bool
  is_at bus slot d = d.bus == bus && d.slot == slot

  abbrev pub count_at : (bus slot : ℕ) → List Device → ℕ
  count_at bus slot [] = 0
  count_at bus slot (d ∷ ds) =
      if is_at bus slot d then suc (count_at bus slot ds) else count_at bus slot ds

  count_at-append :
      (bus slot : ℕ) (ds : List Device) (d : Device)
      → count_at bus slot (ds ++ d ∷ []) ≡ count_at bus slot ds + one_if (is_at bus slot d)
  count_at-append bus slot [] d = ground arith
  count_at-append bus slot (e ∷ ds) d = ground (arith, count_at-append bus slot ds d)

  present-vendor :
      (bus slot : ℕ)
      → one_if (check_device config bus slot)
        ≡ (if config_read_word config bus slot 0 0 == 0xFFFF then 0 else 1)
  unfolding check_device get_vendor
  present-vendor bus slot = elim (Bool-cases (config_read_word config bus slot 0 0 == 0xFFFF)) [
    | inl unset ↦ rw unset refl
    | inr set ↦ rw set refl
  ]

  -- Every device has a header type other than 0.
  abbrev pub HasTypes : Type 0
  HasTypes = (bus slot : ℕ) → check_device config bus slot ≡ true → header_type_at bus slot ≢ 0

  -- What is listed of a device whose header type is not 0.
  abbrev listed : (bus slot : ℕ) → Device
  listed bus slot = record stale {
    vendor = get_vendor config bus slot;
    vendor_id = get_vendor config bus slot;
    device_name = name;
    bus = bus;
    slot = slot;
    class_code = (type1 bus slot).class_code;
    subclass = (type1 bus slot).subclass;
    generic = false;
  }

  found_at :
      (bus slot : ℕ)
      → header_type_at bus slot ≢ 0
      → (d : Device) × (found_device bus slot ≡ ok d) × (d.bus ≡ bus) × (d.slot ≡ slot)
  unfolding found_device read_config
  found_at bus slot nz =
      let typed : (header_type_at bus slot == 0) ≡ false = ground arith in
      let header : Header = record (lost bus slot) { header_type = header_type_at bus slot } in
      let read : read_config bus slot (lost bus slot) ≡ ok header = rw typed in
      let kept : (if header.header_type == 0 then header else type1 bus slot) ≡ type1 bus slot =
        rw typed in
      (
        listed bus slot,
        >>=-eq-ok _ read (
            ap
              (λ (h : Header).
                ok (record (listed bus slot) { class_code = h.class_code; subclass = h.subclass }))
              kept),
        refl,
        refl,
      )

  scan_slots-count :
      (left from bus : ℕ) (ds : List Device)
      → HasTypes
      → (ds' : List Device) × (scan_slots left from bus ds ≡ ok ds')
        × ((b j : ℕ)
            → count_at b j ds'
              ≡ count_at b j ds
                + one_if (b == bus && leb from j && ltb j (from + left) && check_device config b j))
  unfolding scan_slots
  scan_slots-count zero from bus ds types = (ds, refl, λ b j. ground arith)
  scan_slots-count (suc left) from bus ds types =
      let step = λ (b j : ℕ).
        slot-suc b bus from left j (check_device config b j) (check_device config bus from)
          (λ e f. ap₂ (check_device config) e f) in
      elim (Bool-cases (check_device config bus from)) [
        | inl present ↦
            let (d, found, at_bus, at_slot) = found_at bus from (types bus from present) in
            let (ds', run, counted) = scan_slots-count left (from + 1) bus (ds ++ d ∷ []) types in
            (
              ds',
              rw (present, found) run,
              λ b j.
                  counted b j
                  ∙ omega (
                    arith,
                    count_at-append b j ds d,
                    rw present at step b j,
                    ap₂ (λ x y. one_if (x == b && y == j)) at_bus at_slot,
                  ),
            )
        | inr absent ↦
            let (ds', run, counted) = scan_slots-count left (from + 1) bus ds types in
            (ds', rw absent run, λ b j. counted b j ∙ omega (arith, rw absent at step b j))
      ]

  scan_buses-count :
      (left from : ℕ) (ds : List Device)
      → HasTypes
      → (ds' : List Device) × (scan_buses left from ds ≡ ok ds')
        × ((b j : ℕ)
            → j < 32
            → count_at b j ds'
              ≡ count_at b j ds
                + one_if (leb from b && ltb b (from + left) && check_device config b j))
  unfolding scan_buses
  scan_buses-count zero from ds types = (ds, refl, λ b j small. ground arith)
  scan_buses-count (suc left) from ds types =
      let (ds₁, slots, first) = scan_slots-count 32 0 from ds types in
      let (ds₂, buses, rest) = scan_buses-count left (from + 1) ds₁ types in
      (
        ds₂,
        rw slots buses,
        λ b j small.
            rest b j small
            ∙ omega (arith, first b j, bus-suc b from left j (check_device config b j) small),
      )

  -- If every device has a header type other than 0, `Init` returns, and lists each of the 32 slots of the
  -- 256 buses exactly once if its vendor ID is not 0xFFFF, and not at all otherwise.
  pub init-count :
      HasTypes
      → (ds : List Device) × (init ≡ ok ds)
        × ((bus slot : ℕ)
            → bus < 256
            → slot < 32
            → count_at bus slot ds
              ≡ (if config_read_word config bus slot 0 0 == 0xFFFF then 0 else 1))
  unfolding init
  init-count types =
      let (ds, run, counted) = scan_buses-count 256 0 [] types in
      (
        ds,
        run,
        λ bus slot b j. omega (
          arith,
          counted bus slot j,
          any_bus bus (check_device config bus slot) b,
          present-vendor bus slot,
        ),
      )
