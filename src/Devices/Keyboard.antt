-- ===== src/Devices/Keyboard.antt =====
-- The keyboard: Kernel/src/arch/x86/keyboard.cpp.
use literate_os.Common.{
  ℕ, ◌-◌, ◌<◌, ◌≡◌, ◌≢◌, refl, Bool, false, not, Option, none, some, List, [], ◌∷◌, ◌++◌, ◌==◌, leb,
  if◌then◌else◌, get_elem?, length, arith,
}
use literate_os.Common.Bits.{◌>>>◌}
use literate_os.Common.Run.{Run, ok, ◌>>=◌, or_fault}
use literate_os.Interrupts.{Idt, register_interrupt_handler}
use literate_os.Scheduler.{Ptr, Process, Message, Scheduler, send_message}
use literate_os.Scheduler.Ring.{IsRing, first_with_pid}
use literate_os.Scheduler.Messages.{send_message-delivers}

-- `test` is the character that is printed.
pub record Keyboard : Type 0 where
  pub key : ℕ
  pub caps : Bool
  pub test : ℕ

-- The characters of the scan codes 0 to 89, as codes of ASCII.
pub keys : List ℕ
keys =
    0 ∷ 27 ∷ 49 ∷ 50 ∷ 51 ∷ 52 ∷ 53 ∷ 54 ∷ 55 ∷ 56 ∷ 57 ∷ 48 ∷ 45 ∷ 61 ∷ 8 ∷ 9 ∷ 113 ∷ 119 ∷ 101
    ∷ 114 ∷ 116 ∷ 121 ∷ 117 ∷ 105 ∷ 111 ∷ 112 ∷ 91 ∷ 93 ∷ 10 ∷ 0 ∷ 97 ∷ 115 ∷ 100 ∷ 102 ∷ 103 ∷ 104
    ∷ 106 ∷ 107 ∷ 108 ∷ 59 ∷ 39 ∷ 96 ∷ 0 ∷ 92 ∷ 122 ∷ 120 ∷ 99 ∷ 118 ∷ 98 ∷ 110 ∷ 109 ∷ 44 ∷ 46 ∷ 47
    ∷ 0 ∷ 42 ∷ 0 ∷ 32 ∷ 0 ∷ 0 ∷ 0 ∷ 0 ∷ 0 ∷ 0 ∷ 0 ∷ 0 ∷ 0 ∷ 0 ∷ 0 ∷ 0 ∷ 0 ∷ 0 ∷ 0 ∷ 0 ∷ 45 ∷ 0 ∷ 0
    ∷ 0 ∷ 43 ∷ 0 ∷ 0 ∷ 0 ∷ 0 ∷ 0 ∷ 0 ∷ 0 ∷ 0 ∷ 0 ∷ 0 ∷ 0 ∷ []

-- `keymap_us` has 128 entries; those that are not listed are 0.
pub keymap_us : ℕ → Option ℕ
unfolding keys
keymap_us code = elim (get_elem? keys code) [
  | some c ↦ some c
  | none ↦ if leb 128 code then none else some 0
]

-- To the window manager, which has the PID 1.
abbrev pub key_message : ℕ → Message
key_message key = record {
  sender_pid = 0;
  receiver_pid = 1;
  id = 0x1BEEF;
  payload = key;
  payload2 = 0;
}

-- `key` is what port 0x60 gives. The result of `SendMessage` is not looked at.
pub handler : (fuel key : ℕ) → Keyboard → Scheduler → Run (Keyboard × Scheduler)
unfolding keymap_us
handler fuel key b s =
    let pressed = (do
      c ← or_fault (keymap_us (if key >>> 7 == 0 then key else key - 128))
      (ret, s') ← send_message fuel (key_message key) s
      ok (record b { key = key; test = c }, s')) in
    if key == 0x3A then ok (record b { key = key; caps = not b.caps }, s) else pressed

-- `Install`; `handler_at` is the address of `Handler`. What it sets of the message `key_message` sets, too.
abbrev pub install : (handler_at : ℕ) → Idt → Idt
install handler_at s = register_interrupt_handler 33 handler_at s

keymap_us-inside : (code : ℕ) → code < 128 → (c : ℕ) × (keymap_us code ≡ some c)
unfolding keymap_us
keymap_us-inside code h = inside (get_elem? keys code)
  where
    inside :
        (o : Option ℕ)
        → (c : ℕ) × ((elim o as (λ _. Option ℕ) [
          | some c ↦ some c
          | none ↦ if leb 128 code then none else some 0
        ])
            ≡ some c)
    inside (some c) = (c, refl)
    inside none = let t : leb 128 code ≡ false = ground arith in (0, rw t)

-- Every scan code but 0x3A, of a key pressed or released, reaches the message queue of the process
-- that has PID 1 in the ready queue; caps lock stays as it was, and no other process is changed.
pub handler-delivers :
    (fuel key : ℕ) (b : Keyboard) (s : Scheduler) (ps : List Ptr) (p : Ptr) (x : Process)
    → key < 256
    → key ≢ 0x3A
    → IsRing s.procs s.queue_start ps
    → length ps < fuel
    → first_with_pid s.procs 1 (s.queue_start ∷ ps) ≡ p
    → p ≢ 0
    → s.procs p ≡ some x
    → (b' : Keyboard) × (s' : Scheduler) × (handler fuel key b s ≡ ok (b', s'))
      × (b'.caps ≡ b.caps)
      × (s'.procs p ≡ some (record x { message_queue = x.message_queue ++ key_message key ∷ [] }))
      × ((a : Ptr) → a ≢ p → s'.procs a ≡ s.procs a)
unfolding handler
handler-delivers fuel key b s ps p x small other ring enough found nz at =
    let code = if key >>> 7 == 0 then key else key - 128 in
    let (c, hit) = keymap_us-inside code (ground arith) in
    let (s', sent, queue, others) =
      send_message-delivers fuel (key_message key) s ps p x ring enough found nz at in
    let t : (key == 0x3A) ≡ false = ground arith in
    (record b { key = key; test = c }, s', rw (t, hit, sent), refl, queue, others)
