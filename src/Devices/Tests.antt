-- ===== src/Devices/Tests.antt =====
-- Runs of the devices, and their theorems at concrete states.
use literate_os.Devices.Pci.{byte_address, config_read_byte}
use literate_os.Common.Bits.{◌>>>◌}
use literate_os.Common.{bit_and, Bool-cases, inl, inr, ◌≢◌}
use literate_os.Common.{
  ◌+◌, ◌≡◌, refl, false, [], ◌∷◌, if◌then◌else◌, arith, ◌==◌, true, ℕ, zero, suc, ◌<◌, ◌≤◌, ◌*◌,
  ◌%◌, bit_and, bit_or, map, length, get_or, List,
}
use literate_os.Common.Run.{ok}
use literate_os.Scheduler.Ring.{first_with_pid}
use literate_os.Scheduler.Tests.{memory}
use literate_os.Devices.Pci.{config_read_word}
use literate_os.Devices.Pci.Registry.{Device}
use literate_os.Devices.Pci.Scan.{Header, HasTypes, init, count_at, init-count}
use literate_os.Devices.Keyboard.{Keyboard}
use literate_os.Devices.Mouse.{Mouse, Packet}
use literate_os.Devices.Fat.{LfnEntry, get_long_filename, name_characters, get_long_filename-copied}
use literate_os.Common.Bits.{u8, bit, bit-le-one}
use literate_os.Devices.Ahci.{
  Port, px_cmd_cr, stop_cmd, start_cmd, Stopped, Started, Stops, Keeps, start_cmd-stop_cmd,
}
use literate_os.Devices.Mouse.Install.{Controller, install, install-sent}
use literate_os.Devices.Vga.{Screen, puts}

abbrev no_keys : Keyboard
no_keys = record { key = 0; caps = false; test = 0 }

window_manager : first_with_pid memory 1 (16 ∷ 32 ∷ 48 ∷ []) ≡ 16
unfolding first_with_pid
window_manager = refl

abbrev idle_mouse : Mouse
idle_mouse = record { data0 = 0; data1 = 0; data2 = 0; cycle = 0; data_update = false }

abbrev packet : ℕ → Packet
packet n = record { first = 8; second = n; third = n + 1 }

abbrev untouched : ℕ → ℕ
untouched k = 0xCC

abbrev screen : Screen
screen = record { memory = λ a. 0; cur_x = 0; cur_y = 3 }

hello_cell : (puts (72 ∷ 105 ∷ []) 7 screen).memory 482 ≡ 105
unfolding puts
hello_cell = refl

abbrev config : ℕ → ℕ
config address = 0x29228086

-- One device, on bus 0 in slot 2.
abbrev one_device : ℕ → ℕ
one_device a = if a == 0x80001000 then 0x123710DE else 0xFFFFFFFF

abbrev no_header : (bus slot : ℕ) → Header
no_header bus slot = record { header_type = 0; class_code = 6; subclass = 0 }

abbrev unset : Device
unset = record {
  vendor = 0;
  device_id = 0;
  vendor_id = 0;
  device_name = 0;
  bus = 0;
  slot = 0;
  class_code = 0;
  subclass = 0;
  generic = true;
}

one_device-HasTypes : HasTypes one_device no_header no_header unset 5
unfolding config_read_byte
one_device-HasTypes bus slot present = any_type (byte_address bus slot 0 13)
  where
    any_type : (a : ℕ) → bit_and (u8 (bit_and (one_device a >>> 8) 0xff)) 0x7F ≢ 0
    any_type a = elim (Bool-cases (a == 0x80001000)) [
      | inl hit ↦ rw hit (λ e. absurd (cc e))
      | inr miss ↦ rw miss (λ e. absurd (cc e))
    ]

init-count_example :
    (ds : List Device) × (init one_device no_header no_header unset 5 ≡ ok ds)
    × ((bus slot : ℕ)
        → bus < 256
        → slot < 32
        → count_at one_device no_header no_header unset 5 bus slot ds
          ≡ (if config_read_word one_device bus slot 0 0 == 0xFFFF then 0 else 1))
init-count_example = init-count one_device no_header no_header unset 5 one_device-HasTypes

-- The characters of "kernel image".
abbrev kernel_image : LfnEntry
kernel_image = record {
  order = 0x41;
  characters0 = λ i. get_or (107 ∷ 101 ∷ 114 ∷ 110 ∷ 101 ∷ []) i 0;
  attributes = 0x0F;
  type = 0;
  checksum = 0;
  characters1 = λ i. get_or (108 ∷ 32 ∷ 105 ∷ 109 ∷ 97 ∷ 103 ∷ []) i 0;
  zero_cluster = 0;
  characters2 = λ i. get_or (101 ∷ 0 ∷ []) i 0;
}

get_long_filename-copied_example :
    ((a : ℕ)
      → get_long_filename (λ a. 255) (kernel_image ∷ []) a
        ≡ get_or (map u8 (name_characters (kernel_image ∷ []))) a 255)
    × (0 < length (kernel_image ∷ []) → get_long_filename (λ a. 255) (kernel_image ∷ []) 7 ≡ 0)
get_long_filename-copied_example = get_long_filename-copied (λ a. 255) (kernel_image ∷ [])

-- A port: ST and FRE read as written, and CR is set while ST is and, after that, at odd times.
abbrev engine_bits : (st fre odd : ℕ) → ℕ
engine_bits zero fre odd = fre * 16 + odd * 0x8000
engine_bits (suc st) fre odd = 0x8001 + fre * 16

abbrev engine : ℕ → List ℕ → ℕ
engine t [] = 0x8011
engine t (w ∷ ws) = engine_bits (bit 0 w) (bit 4 w) (t % 2)

engine_bits_kept :
    (st fre odd : ℕ)
    → st ≤ 1
    → fre ≤ 1
    → odd ≤ 1
    → (bit 0 (engine_bits st fre odd) ≡ st) × (bit 4 (engine_bits st fre odd) ≡ fre)
unfolding bit
engine_bits_kept zero fre odd hs hf ho = (omega arith, omega arith)
engine_bits_kept (suc st) fre odd hs hf ho = (omega arith, omega arith)

engine_idle : (fre : ℕ) → fre ≤ 1 → bit_and (engine_bits 0 fre 0) px_cmd_cr ≡ 0
engine_idle zero h = refl
engine_idle (suc zero) h = refl
engine_idle (suc (suc fre)) h = absurd (omega arith)

engine-Stops : Stops engine 2
engine-Stops t w ws low =
    let even : (t + t % 2) % 2 ≡ 0 = omega arith in
    let clear : bit_and (engine_bits (bit 0 w) (bit 4 w) ((t + t % 2) % 2)) px_cmd_cr ≡ 0 =
      rw (low, even) (engine_idle (bit 4 w) (bit-le-one 4 w)) in
    (t % 2, omega arith, clear)

engine-Keeps : Keeps engine
engine-Keeps t w ws =
    engine_bits_kept (bit 0 w) (bit 4 w) (t % 2) (bit-le-one 0 w) (bit-le-one 4 w) (omega arith)

abbrev running_port : Port
running_port = record { time = 0; writes = [] }

start_cmd-stop_cmd_example :
    (s₁ : Port) × (s₂ : Port) × (stop_cmd engine 2 running_port ≡ ok s₁)
    × (start_cmd engine 2 s₁ ≡ ok s₂)
    × Stopped engine running_port s₁
    × Started engine s₁ s₂
start_cmd-stop_cmd_example = start_cmd-stop_cmd engine 2 running_port engine-Stops engine-Keeps

-- A controller whose output byte is 0x45, and that is busy at every third read.
abbrev keyboard_port : ℕ → Controller → ℕ
keyboard_port port s = if port == 0x60 then 0x45 else if s.reads % 3 == 0 then 2 else 1

abbrev quiet : Controller
quiet = record { reads = 0; sent = (0x3F8, 65) ∷ [] }

install-sent_example :
    (ready : Controller) × (ready.sent ≡ (0x3F8, 65) ∷ (0x64, 0xA8) ∷ (0x64, 0x20) ∷ [])
    × ((install keyboard_port quiet).sent
        ≡ (0x3F8, 65)
          ∷ (0x64, 0xA8)
          ∷ (0x64, 0x20)
          ∷ (0x64, 0x60)
          ∷ (0x60, bit_or (keyboard_port 0x60 ready) 2)
          ∷ (0x64, 0xD4)
          ∷ (0x60, 0xF6)
          ∷ (0x64, 0xD4)
          ∷ (0x60, 0xF4)
          ∷ [])
install-sent_example = install-sent keyboard_port quiet
