-- ===== src/Devices/Mouse.antt =====
-- The mouse: Kernel/src/arch/x86/mouse.cpp.
--
-- A byte of the packet is kept by its bits, 0 to 255.
pub mod Install
use literate_os.Common.{
  ℕ, ◌+◌, ◌-◌, ◌*◌, ◌/◌, ◌%◌, ◌^◌, ◌≤◌, ◌<◌, ◌≡◌, refl, Bool, true, false, List, [], ◌∷◌, ◌++◌,
  ◌==◌, ltb, leb, ◌&&◌, if◌then◌else◌, arith, Bool-cases, inl, inr,
}
use native.Mathlib.Nat.{one-le-pow}

pub record Mouse : Type 0 where
  pub data0 : ℕ
  pub data1 : ℕ
  pub data2 : ℕ
  pub cycle : ℕ
  pub data_update : Bool

-- `byte` is what port 0x60 gives.
pub handler : ℕ → Mouse → Mouse
handler byte m =
    if m.cycle == 0
    then record m { data0 = byte; cycle = 1; data_update = true }
    else if m.cycle == 1
    then record m { data1 = byte; cycle = 2; data_update = true }
    else if m.cycle == 2
    then record m { data2 = byte; cycle = 0; data_update = true }
    else m

-- `int8_t` widened to `uint32_t`.
abbrev pub widened : ℕ → ℕ
widened byte = if ltb byte 128 then byte else byte + 0xFFFFFF00

-- `buffer[i] = v` on words of 32 bits, by the bytes of the buffer.
abbrev pub write_word : (ℕ → ℕ) → ℕ → ℕ → ℕ → ℕ
write_word buffer i v k =
    if leb (4 * i) k && ltb k (4 * i + 4) then v / 2 ^ (8 * (k - 4 * i)) % 256 else buffer k

abbrev pub copy_packet : Mouse → (ℕ → ℕ) → ℕ → ℕ
copy_packet m buffer k =
    if k == 0 then m.data0 else if k == 1 then m.data1 else if k == 2 then m.data2 else buffer k

-- `ReadDevice`, with its test `DataUpdated`.
pub read_device : (size : ℕ) → Mouse → (ℕ → ℕ) → ℕ × Mouse × (ℕ → ℕ)
read_device size m buffer =
    let words = write_word (write_word (write_word buffer 0 (widened m.data0)) 1 0) 2 0 in
    if ltb size 3
    then (0, m, buffer)
    else if m.data_update
    then (3, record m { data_update = false }, copy_packet m buffer)
    else (3, m, words)

-- Interrupts in a row.
pub handlers : List ℕ → Mouse → Mouse
unfolding handler
handlers [] m = m
handlers (byte ∷ bytes) m = handlers bytes (handler byte m)

pub record Packet : Type 0 where
  pub first : ℕ
  pub second : ℕ
  pub third : ℕ

abbrev pub bytes_of : List Packet → List ℕ
bytes_of [] = []
bytes_of (p ∷ ps) = p.first ∷ p.second ∷ p.third ∷ bytes_of ps

abbrev pub holding : Packet → Mouse
holding p = record {
  data0 = p.first;
  data1 = p.second;
  data2 = p.third;
  cycle = 0;
  data_update = true;
}

handlers-packets :
    (ps : List Packet) (last : Packet) (m : Mouse)
    → m.cycle ≡ 0
    → handlers (bytes_of (ps ++ last ∷ [])) m ≡ holding last
unfolding handlers handler
handlers-packets [] last m start = rw start
handlers-packets (p ∷ ps) last m start = rw start (handlers-packets ps last (holding p) refl)

-- When the mouse has sent whole packets since its first cycle, reading at least 3 bytes gives the last
-- packet in the first three bytes of the buffer, and touches no other.
pub read_device-packets :
    (ps : List Packet) (last : Packet) (m : Mouse) (size : ℕ) (buffer : ℕ → ℕ)
    → m.cycle ≡ 0
    → 3 ≤ size
    → read_device size (handlers (bytes_of (ps ++ last ∷ [])) m) buffer
      ≡ (3, record (holding last) { data_update = false }, copy_packet (holding last) buffer)
unfolding read_device
read_device-packets ps last m size buffer start enough =
    let t : ltb size 3 ≡ false = ground arith in rw (handlers-packets ps last m start, t)

zero-byte : (e : ℕ) → 0 / 2 ^ e % 256 ≡ 0
zero-byte e = omega (arith, one-le-pow e 2)

-- Without new data a read of 3 bytes overwrites 12 bytes of the buffer: the bytes 4 to 11 become 0.
pub read_device-overrun :
    (m : Mouse) (size k : ℕ) (buffer : ℕ → ℕ)
    → m.data_update ≡ false
    → 3 ≤ size
    → 4 ≤ k
    → k < 12
    → (read_device size m buffer).0 ≡ 3 × ((read_device size m buffer).2 k ≡ 0)
unfolding read_device
read_device-overrun m size k buffer stale enough above below =
    let t : ltb size 3 ≡ false = ground arith in
    rw (t, stale)
      (
        refl,
        elim (Bool-cases (leb 8 k)) [
          | inl last ↦
              let in_word : (leb (4 * 2) k && ltb k (4 * 2 + 4)) ≡ true = ground arith in
              rw in_word (zero-byte (8 * (k - 4 * 2)))
          | inr first ↦
              let before : (leb (4 * 2) k && ltb k (4 * 2 + 4)) ≡ false = ground arith in
              let in_word : (leb (4 * 1) k && ltb k (4 * 1 + 4)) ≡ true = ground arith in
              rw (before, in_word) (zero-byte (8 * (k - 4 * 1)))
        ],
      )
