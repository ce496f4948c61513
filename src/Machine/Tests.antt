-- ===== src/Machine/Tests.antt =====
-- Copies, names and strings.
use literate_os.Common.{
  ℕ, ◌+◌, ◌%◌, ◌≡◌, refl, inl, inr, false, arith, [], ◌∷◌, length, take, drop, ◌==◌, if◌then◌else◌,
  Bool-cases,
}
use literate_os.Machine.Serial.{Serial, port, write_serial, Answers, write_serial-sent}
use literate_os.Machine.Cpuid.{Leaf, get_cpu_info, word_of, get_cpu_info-vendor_string}
use literate_os.Common.Run.{ok}
use literate_os.Machine.Copy.{copied, memcpy_optimized}
use literate_os.Machine.Copy.Laws.{memcpy_optimized-copied}

memcpy_optimized-copied_example :
    memcpy_optimized 0x1000 0x2003 37 (λ a. a) ≡ ok (copied (λ a. a) 0x1000 0x2003 37)
memcpy_optimized-copied_example =
    memcpy_optimized-copied 0x1000 0x2003 37 (λ a. a) (omega arith) (omega arith) (omega arith)
      (inl (omega arith))

-- A transmitter that is busy at every other read.
abbrev blinking : ℕ → ℕ
blinking t = if t % 2 == 0 then 0 else 0x60

blinking-Answers : Answers blinking 2
blinking-Answers t = elim (Bool-cases (t % 2 == 0)) [
  | inl even ↦
      let later : ((t + 1) % 2 == 0) ≡ false = ground arith in
      (1, omega arith, rw later (omega arith))
  | inr odd ↦
      let now : ((t + 0) % 2 == 0) ≡ false = ground arith in (0, omega arith, rw now (omega arith))
]

-- "hi" at 0x1000.
abbrev hi : ℕ → ℕ
hi a = if a == 0x1000 then 104 else if a == 0x1001 then 105 else 0

write_serial-sent_example :
    (s : Serial) × (write_serial blinking 3 2 hi 0x1000 (record { time = 0; sent = [] }) ≡ ok s)
    × (s.sent ≡ (port, 104) ∷ (port, 105) ∷ [])
write_serial-sent_example =
    write_serial-sent blinking 3 2 hi 0x1000 (104 ∷ 105 ∷ []) (record { time = 0; sent = [] })
      blinking-Answers (refl, omega arith, (refl, omega arith, refl)) (omega arith)

abbrev leaves : ℕ → Leaf
leaves n = record { ebx = 0x756e6547; ecx = 0x6c65746e; edx = 0x49656e69 }

vendor_string_test :
    (length (get_cpu_info leaves).vendor_string ≡ 12)
    × (word_of (take 4 (get_cpu_info leaves).vendor_string) ≡ 0x756e6547)
    × (word_of (take 4 (drop 4 (get_cpu_info leaves).vendor_string)) ≡ 0x49656e69)
    × (word_of (drop 8 (get_cpu_info leaves).vendor_string) ≡ 0x6c65746e)
vendor_string_test = get_cpu_info-vendor_string leaves (omega arith) (omega arith) (omega arith)
