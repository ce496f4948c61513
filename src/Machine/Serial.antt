-- ===== src/Machine/Serial.antt =====
-- The serial port: Kernel/src/arch/x86/serial.cpp.
--
-- `status` is what the port 0x3FD gives at each time; a read takes one unit of time. What is written to
-- ports is kept in order.
use literate_os.Common.{
  ℕ, zero, suc, ◌+◌, ◌<◌, ◌≡◌, ◌≢◌, refl, sym, ap, ◌∙◌, bit_and, true, false, List, [], ◌∷◌, ◌++◌,
  map, append_nil, append_assoc, ◌==◌, if◌then◌else◌, length, arith, Bool-cases, inl, inr,
}
use literate_os.Common.Run.{Run, ok, out_of_fuel, ◌>>=◌}

abbrev pub port : ℕ
port = 0x3F8

pub record Serial : Type 0 where
  pub time : ℕ
  pub sent : List (ℕ × ℕ)

abbrev pub out : (at value : ℕ) → Serial → Serial
out at value s = record s { sent = s.sent ++ (at, value) ∷ [] }

pub initialize_serial : Serial → Serial
initialize_serial s = out (port + 4) 0x0B (
    out (port + 2) 0xC7 (
      out (port + 3) 0x03
        (out (port + 1) 0x00 (out port 0x03 (out (port + 3) 0x80 (out (port + 1) 0x00 s))))))

module _ (status : ℕ → ℕ) where
  pub is_transmit_empty : Serial → ℕ
  is_transmit_empty s = bit_and (status s.time) 0x20

  -- The loop that waits for the transmitter.
  pub wait_empty : (fuel : ℕ) → Serial → Run Serial
  unfolding is_transmit_empty
  wait_empty zero s = out_of_fuel
  wait_empty (suc fuel) s =
      let later = record s { time = s.time + 1 } in
      let rest = wait_empty fuel later in if is_transmit_empty s == 0 then rest else ok later

  pub write_serial_char : (fuel c : ℕ) → Serial → Run Serial
  unfolding wait_empty
  write_serial_char fuel c s = do s ← wait_empty fuel s; ok (out port c s)

  -- The string at an address, up to its 0; `left` bounds its length and `fuel` the wait for each character.
  pub write_serial : (left fuel : ℕ) (bytes : ℕ → ℕ) (at : ℕ) → Serial → Run Serial
  unfolding write_serial_char
  write_serial zero fuel bytes at s = out_of_fuel
  write_serial (suc left) fuel bytes at s =
      let next = (do
        s ← write_serial_char fuel (bytes at) s
        write_serial left fuel bytes (at + 1) s) in
      if bytes at == 0 then ok s else next

  -- At any time the transmitter is empty within `fuel` reads.
  abbrev pub Answers : (fuel : ℕ) → Type 0
  Answers fuel = (t : ℕ) → (k : ℕ) × (k < fuel) × (bit_and (status (t + k)) 0x20 ≢ 0)

  wait_empty-ends :
      (k fuel : ℕ) (s : Serial)
      → k < fuel
      → bit_and (status (s.time + k)) 0x20 ≢ 0
      → (s' : Serial) × (wait_empty fuel s ≡ ok s') × (s'.sent ≡ s.sent)
  unfolding wait_empty is_transmit_empty
  wait_empty-ends k zero s lt ready = absurd (omega arith)
  wait_empty-ends zero (suc fuel) s lt ready =
      let now : s.time + 0 ≡ s.time = omega arith in
      let set : (bit_and (status s.time) 0x20 == 0) ≡ false = ground (arith, rw now at ready) in
      (record s { time = s.time + 1 }, rw set, refl)
  wait_empty-ends (suc k) (suc fuel) s lt ready =
      elim (Bool-cases (bit_and (status s.time) 0x20 == 0)) [
        | inl busy ↦
            let next : s.time + suc k ≡ s.time + 1 + k = omega arith in
            let (s', run, same) =
              wait_empty-ends k fuel (record s { time = s.time + 1 }) (omega arith)
                (rw next at ready) in
            (s', rw busy run, same)
        | inr empty ↦ (record s { time = s.time + 1 }, rw empty, refl)
      ]

  -- The characters of a string in memory, without its 0.
  abbrev pub IsString : (bytes : ℕ → ℕ) (at : ℕ) → List ℕ → Type 0
  IsString bytes at [] = bytes at ≡ 0
  IsString bytes at (c ∷ cs) = (bytes at ≡ c) × (c ≢ 0) × IsString bytes (at + 1) cs

  -- If the transmitter is empty again within `fuel` reads at any time, `write_serial` ends, and has written
  -- to the port the characters of the string, each once and in order, and nothing else.
  pub write_serial-sent :
      (left fuel : ℕ) (bytes : ℕ → ℕ) (at : ℕ) (cs : List ℕ) (s : Serial)
      → Answers fuel
      → IsString bytes at cs
      → length cs < left
      → (s' : Serial) × (write_serial left fuel bytes at s ≡ ok s')
        × (s'.sent ≡ s.sent ++ map (λ c. (port, c)) cs)
  unfolding write_serial write_serial_char
  write_serial-sent zero fuel bytes at cs s answers str enough = absurd (omega arith)
  write_serial-sent (suc left) fuel bytes at [] s answers str enough =
      let end : (bytes at == 0) ≡ true = ground (arith, str) in (s, rw end, sym (append_nil s.sent))
  write_serial-sent (suc left) fuel bytes at (c ∷ cs) s answers (here, nz, str) enough =
      let more : (bytes at == 0) ≡ false = ground (arith, here, nz) in
      let (k, lt, ready) = answers s.time in
      let (s₁, waited, same) = wait_empty-ends k fuel s lt ready in
      let (s', run, sent) =
        write_serial-sent left fuel bytes (at + 1) cs (out port c s₁) answers str (omega arith) in
      (
        s',
        rw (more, waited, here) run,
        sent
            ∙ ap (λ xs. (xs ++ (port, c) ∷ []) ++ map (λ c. (port, c)) cs) same
            ∙ append_assoc s.sent ((port, c) ∷ []) (map (λ c. (port, c)) cs),
      )
