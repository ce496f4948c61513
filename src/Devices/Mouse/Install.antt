-- ===== src/Devices/Mouse/Install.antt =====
-- Setting up the mouse: `Wait`, `Write`, `Read` and `Install` of Kernel/src/arch/x86/mouse.cpp.
--
-- `input port s` is what the controller gives at a port in the state s: the number of reads so far, and
-- what was sent to ports, in order. Registering the device and the handler is not part of it.
use literate_os.Common.{
  ℕ, zero, suc, ◌+◌, ◌≡◌, refl, bit_and, bit_or, List, [], ◌∷◌, ◌++◌, append_assoc, ◌==◌,
  if◌then◌else◌, Bool-cases, inl, inr, ◌∙◌, Bool,
}

pub record Controller : Type 0 where
  pub reads : ℕ
  pub sent : List (ℕ × ℕ)

abbrev pub out : (port value : ℕ) → Controller → Controller
out port value s = record s { sent = s.sent ++ (port, value) ∷ [] }

abbrev pub after_read : Controller → Controller
after_read s = record s { reads = s.reads + 1 }

-- Four steps that each add to a list.
joined :
    (s a b c d : List (ℕ × ℕ)) {r m u v : List (ℕ × ℕ)}
    → r ≡ s ++ a
    → m ≡ r ++ b
    → u ≡ m ++ c
    → v ≡ u ++ d
    → v ≡ s ++ (a ++ (b ++ (c ++ d)))
joined s a b c d hr hm hu hv =
    rw (hv, hu, hm, hr)
      (append_assoc ((s ++ a) ++ b) c d
        ∙ append_assoc (s ++ a) b (c ++ d)
        ∙ append_assoc s a (b ++ (c ++ d)))

module _ (input : ℕ → Controller → ℕ) where
  -- The test of each of the two loops.
  abbrev pub is_ready : (type : ℕ) → Controller → Bool
  is_ready type s =
      if type == 0 then bit_and (input 0x64 s) 1 == 1 else bit_and (input 0x64 s) 2 == 0

  -- Both loops, with `timeout` tests left.
  pub wait : (timeout type : ℕ) → Controller → Controller
  wait zero type s = s
  wait (suc timeout) type s =
      let rest = wait timeout type (after_read s) in if is_ready type s then after_read s else rest

  pub write : (byte : ℕ) → Controller → Controller
  unfolding wait
  write byte s = out 0x60 byte (wait 100000 1 (out 0x64 0xD4 (wait 100000 1 s)))

  pub read : Controller → ℕ × Controller
  unfolding wait
  read s = let ready = wait 100000 0 s in (input 0x60 ready, after_read ready)

  pub install : Controller → Controller
  unfolding write read
  install s =
      let s = out 0x64 0x20 (wait 100000 1 (out 0x64 0xA8 (wait 100000 1 s))) in
      let ready = wait 100000 0 s in
      let status = bit_or (input 0x60 ready) 2 in
      let s = out 0x64 0x60 (wait 100000 1 (after_read ready)) in
      let s = out 0x60 status (wait 100000 1 s) in (read (write 0xF4 (read (write 0xF6 s)).1)).1

  wait-sent : (timeout type : ℕ) (s : Controller) → (wait timeout type s).sent ≡ s.sent
  unfolding wait
  wait-sent zero type s = refl
  wait-sent (suc timeout) type s = elim (Bool-cases (is_ready type s)) [
    | inl ready ↦ rw ready
    | inr busy ↦ rw busy (wait-sent timeout type (after_read s))
  ]

  -- Two bytes are sent, each behind a wait.
  two :
      (t t' p a q b : ℕ) (s : Controller)
      → (out q b (wait 100000 t' (out p a (wait 100000 t s)))).sent ≡ s.sent ++ (p, a) ∷ (q, b) ∷ []
  two t t' p a q b s =
      rw (wait-sent 100000 t' (out p a (wait 100000 t s)), wait-sent 100000 t s)
        (append_assoc s.sent ((p, a) ∷ []) ((q, b) ∷ []))

  write-sent :
      (byte : ℕ) (s : Controller) → (write byte s).sent ≡ s.sent ++ (0x64, 0xD4) ∷ (0x60, byte) ∷ []
  unfolding write
  write-sent byte s = two 1 1 0x64 0xD4 0x60 byte s

  read-sent : (s : Controller) → (read s).1.sent ≡ s.sent
  unfolding read
  read-sent s = wait-sent 100000 0 s

  -- Whatever the controller answers, `Install` ends, and has sent eight bytes, in this order: 0xA8 and 0x20
  -- to port 0x64, 0x60 to port 0x64 and the status to port 0x60, then 0xF6 and 0xF4 to the mouse, each
  -- behind 0xD4 to port 0x64. The status is, with bit 1 set, what port 0x60 gave when the first two bytes
  -- were sent and nothing else.
  pub install-sent :
      (s : Controller)
      → (ready : Controller) × (ready.sent ≡ s.sent ++ (0x64, 0xA8) ∷ (0x64, 0x20) ∷ [])
        × ((install s).sent
            ≡ s.sent
              ++ (0x64, 0xA8)
                ∷ (0x64, 0x20)
                ∷ (0x64, 0x60)
                ∷ (0x60, bit_or (input 0x60 ready) 2)
                ∷ (0x64, 0xD4)
                ∷ (0x60, 0xF6)
                ∷ (0x64, 0xD4)
                ∷ (0x60, 0xF4)
                ∷ [])
  unfolding install
  install-sent s =
      let s₁ = out 0x64 0xA8 (wait 100000 1 s) in
      let s₂ = out 0x64 0x20 (wait 100000 1 s₁) in
      let ready = wait 100000 0 s₂ in
      let status = bit_or (input 0x60 ready) 2 in
      let s₃ = out 0x64 0x60 (wait 100000 1 (after_read ready)) in
      let s₄ = out 0x60 status (wait 100000 1 s₃) in
      let s₅ = (read (write 0xF6 s₄)).1 in
      let begun : ready.sent ≡ s.sent ++ (0x64, 0xA8) ∷ (0x64, 0x20) ∷ [] =
        wait-sent 100000 0 s₂ ∙ two 1 1 0x64 0xA8 0x64 0x20 s in
      let enabled : s₄.sent ≡ ready.sent ++ (0x64, 0x60) ∷ (0x60, status) ∷ [] =
        two 1 1 0x64 0x60 0x60 status (after_read ready) in
      let defaults : s₅.sent ≡ s₄.sent ++ (0x64, 0xD4) ∷ (0x60, 0xF6) ∷ [] =
        read-sent (write 0xF6 s₄) ∙ write-sent 0xF6 s₄ in
      let packets : (install s).sent ≡ s₅.sent ++ (0x64, 0xD4) ∷ (0x60, 0xF4) ∷ [] =
        read-sent (write 0xF4 s₅) ∙ write-sent 0xF4 s₅ in
      (
        ready,
        begun,
        joined s.sent ((0x64, 0xA8) ∷ (0x64, 0x20) ∷ []) ((0x64, 0x60) ∷ (0x60, status) ∷ [])
            ((0x64, 0xD4) ∷ (0x60, 0xF6) ∷ []) ((0x64, 0xD4) ∷ (0x60, 0xF4) ∷ []) begun enabled
            defaults packets,
      )
