-- ===== src/Machine/Cpuid.antt =====
-- `CPU::GetCPUInfo` of Kernel/src/arch/x86/cpuid.cpp. `cpuid` is what the instruction gives for a leaf.
use literate_os.Common.{
  ℕ, zero, suc, ◌+◌, ◌*◌, ◌/◌, ◌^◌, ◌<◌, ◌≡◌, refl, bit_and, List, [], ◌∷◌, ◌++◌, length, take,
  drop, arith,
}
use literate_os.Common.Bits.{◌>>>◌}
use literate_os.Common.Bits.Fields.{bit_and_mask}

pub record Leaf : Type 0 where
  pub ebx : ℕ
  pub ecx : ℕ
  pub edx : ℕ

-- `cpuid_info_t`; the terminator behind the 12 characters is 0.
pub record CpuInfo : Type 0 where
  pub vendor_string : List ℕ
  pub features_ecx : ℕ
  pub features_edx : ℕ

-- The loop that stores the four bytes of a register, from byte `i` on.
pub register_bytes : (left i reg : ℕ) → List ℕ
register_bytes zero i reg = []
register_bytes (suc left) i reg = bit_and (reg >>> (i * 8)) 0xFF ∷ register_bytes left (i + 1) reg

pub get_cpu_info : (cpuid : ℕ → Leaf) → CpuInfo
unfolding register_bytes
get_cpu_info cpuid = record {
  vendor_string =
      register_bytes 4 0 (cpuid 0).ebx
      ++ register_bytes 4 0 (cpuid 0).edx
      ++ register_bytes 4 0 (cpuid 0).ecx;
  features_ecx = (cpuid 1).ecx;
  features_edx = (cpuid 1).edx;
}

-- A word from its bytes, the lowest first.
abbrev pub word_of : List ℕ → ℕ
word_of [] = 0
word_of (b ∷ bs) = b + 256 * word_of bs

word_of-register_bytes : (reg : ℕ) → reg < 2 ^ 32 → word_of (register_bytes 4 0 reg) ≡ reg
unfolding register_bytes
word_of-register_bytes reg small = omega (
  arith,
  bit_and_mask 8 (reg / 2 ^ (0 * 8)),
  bit_and_mask 8 (reg / 2 ^ (1 * 8)),
  bit_and_mask 8 (reg / 2 ^ (2 * 8)),
  bit_and_mask 8 (reg / 2 ^ (3 * 8)),
)

-- The vendor string has 12 characters, and its three words are the registers that leaf 0 returns, in
-- the order ebx, edx, ecx.
pub get_cpu_info-vendor_string :
    (cpuid : ℕ → Leaf)
    → (cpuid 0).ebx < 2 ^ 32
    → (cpuid 0).edx < 2 ^ 32
    → (cpuid 0).ecx < 2 ^ 32
    → (length (get_cpu_info cpuid).vendor_string ≡ 12)
      × (word_of (take 4 (get_cpu_info cpuid).vendor_string) ≡ (cpuid 0).ebx)
      × (word_of (take 4 (drop 4 (get_cpu_info cpuid).vendor_string)) ≡ (cpuid 0).edx)
      × (word_of (drop 8 (get_cpu_info cpuid).vendor_string) ≡ (cpuid 0).ecx)
unfolding get_cpu_info register_bytes
get_cpu_info-vendor_string cpuid b d c = (
  refl,
  word_of-register_bytes (cpuid 0).ebx b,
  word_of-register_bytes (cpuid 0).edx d,
  word_of-register_bytes (cpuid 0).ecx c,
)
