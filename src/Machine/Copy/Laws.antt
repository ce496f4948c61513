-- ===== src/Machine/Copy/Laws.antt =====
-- The block copy is `memcpy`.
use mathlib.Core.Path.{fun_ext}
use literate_os.Common.{
  ℕ, zero, suc, ◌+◌, ◌-◌, ◌*◌, ◌/◌, ◌%◌, ◌^◌, ◌<◌, ◌≤◌, ◌≡◌, ◌≢◌, ap, ◌∙◌, ◌⊎◌, inl, inr, true,
  false, ◌==◌, leb, ltb, ◌&&◌, ◌||◌, not, if◌then◌else◌, arith, Bool-cases,
}
use literate_os.Common.Bits.{u32}
use literate_os.Common.Run.{ok, >>=-eq-ok}
use literate_os.Machine.Copy.{
  copied, sse_loop, rounds_of, memcpy_sse2, memcpy_sse_unaligned, memcpy_optimized,
}

-- Two copies one after the other, the second behind the first, from an area that neither of them writes.
copied-copied :
    (bytes : ℕ → ℕ) (dest from m n a : ℕ)
    → (dest + (m + n) ≤ from) ⊎ (from + (m + n) ≤ dest)
    → copied (copied bytes dest from m) (dest + m) (from + m) n a ≡ copied bytes dest from (m + n) a
copied-copied bytes dest from m n a apart =
    elim (Bool-cases (leb (dest + m) a && ltb a (dest + m + n))) [
      | inl second ↦
          let same : from + m + (a - (dest + m)) ≡ from + (a - dest) = ground arith in
          let untouched : (leb dest (from + (a - dest)) && ltb (from + (a - dest)) (dest + m))
              ≡ false =
            elim apart [ inl ahead ↦ ground arith | inr behind ↦ ground arith ] in
          let both : (leb dest a && ltb a (dest + (m + n))) ≡ true = ground arith in
          rw (second, same, untouched, both)
      | inr other ↦
          let same : (leb dest a && ltb a (dest + m)) ≡ (leb dest a && ltb a (dest + (m + n))) =
            ground arith in
          rw (other, same)
    ]

-- The loop of the blocks, below the end of memory.
sse_loop-copied :
    (rounds dest from : ℕ) (bytes : ℕ → ℕ)
    → dest + rounds * 16 < 2 ^ 32
    → from + rounds * 16 < 2 ^ 32
    → (dest + rounds * 16 ≤ from) ⊎ (from + rounds * 16 ≤ dest)
    → sse_loop rounds dest from bytes ≡ copied bytes dest from (rounds * 16)
unfolding sse_loop
sse_loop-copied zero dest from bytes small small' apart =
    fun_ext
      λ a. let nothing : (leb dest a && ltb a (dest + 0 * 16)) ≡ false = ground arith in rw nothing
sse_loop-copied (suc rounds) dest from bytes small small' apart =
    let to : u32 (dest + 16) ≡ dest + 16 = omega arith in
    let of : u32 (from + 16) ≡ from + 16 = omega arith in
    let rest : (dest + 16 + rounds * 16 ≤ from + 16) ⊎ (from + 16 + rounds * 16 ≤ dest + 16) =
      elim apart [ inl ahead ↦ inl (omega arith) | inr behind ↦ inr (omega arith) ] in
    let all : 16 + rounds * 16 ≡ suc rounds * 16 = omega arith in
    let whole : (dest + (16 + rounds * 16) ≤ from) ⊎ (from + (16 + rounds * 16) ≤ dest) =
      elim apart [ inl ahead ↦ inl (omega arith) | inr behind ↦ inr (omega arith) ] in
    rw (to, of)
      (sse_loop-copied rounds (dest + 16) (from + 16) (copied bytes dest from 16) (omega arith)
          (omega arith) rest
        ∙ (fun_ext λ a. copied-copied bytes dest from 16 (rounds * 16) a whole)
        ∙ ap (copied bytes dest from) all)

-- Whichever loop is chosen, it does not fault.
either_loop :
    (dest from n : ℕ) (bytes : ℕ → ℕ)
    → n ≢ 0
    → (if not (dest % 16 == 0) || not (from % 16 == 0)
        then memcpy_sse_unaligned dest from n bytes
        else memcpy_sse2 dest from n bytes)
      ≡ ok (sse_loop n dest from bytes)
unfolding memcpy_sse2 memcpy_sse_unaligned rounds_of
either_loop dest from n bytes nz =
    let some_rounds : (n == 0) ≡ false = ground arith in
    elim (Bool-cases (dest % 16 == 0)) [
      | inl d ↦ elim (Bool-cases (from % 16 == 0)) [
        | inl f ↦ rw (d, f, some_rounds)
        | inr f ↦ rw (d, f, some_rounds)
      ]
      | inr d ↦ rw (d, some_rounds)
    ]

-- The bytes behind the last whole block.
copied-rest :
    (dest from count : ℕ) (bytes : ℕ → ℕ)
    → dest + count < 2 ^ 32
    → from + count < 2 ^ 32
    → (dest + count ≤ from) ⊎ (from + count ≤ dest)
    → (if ltb 0 (count % 16)
        then copied
            (copied bytes dest from (count / 16 * 16))
            (u32 (dest + count / 16 * 16))
            (u32 (from + count / 16 * 16))
            (count % 16)
        else copied bytes dest from (count / 16 * 16))
      ≡ copied bytes dest from count
copied-rest dest from count bytes small small' apart =
    let n = count / 16 * 16 in
    let to : u32 (dest + n) ≡ dest + n = omega arith in
    let of : u32 (from + n) ≡ from + n = omega arith in
    let all : n + count % 16 ≡ count = omega arith in
    let whole : (dest + (n + count % 16) ≤ from) ⊎ (from + (n + count % 16) ≤ dest) = elim apart [
      | inl ahead ↦ inl (omega arith)
      | inr behind ↦ inr (omega arith)
    ] in
    elim (Bool-cases (ltb 0 (count % 16))) [
      | inl some_left ↦
          rw (some_left, to, of)
            ((fun_ext λ a. copied-copied bytes dest from n (count % 16) a whole)
              ∙ ap (copied bytes dest from) all)
      | inr none_left ↦
          let exact : n ≡ count = ground arith in rw none_left (ap (copied bytes dest from) exact)
    ]

-- `memcpy_optimized` of 16 bytes or more, aligned or not, between areas that do not overlap and end below
-- 2^32, is `memcpy`.
pub memcpy_optimized-copied :
    (dest from count : ℕ) (bytes : ℕ → ℕ)
    → 16 ≤ count
    → dest + count < 2 ^ 32
    → from + count < 2 ^ 32
    → (dest + count ≤ from) ⊎ (from + count ≤ dest)
    → memcpy_optimized dest from count bytes ≡ ok (copied bytes dest from count)
unfolding memcpy_optimized
memcpy_optimized-copied dest from count bytes large small small' apart =
    let n = count / 16 in
    let blocks : (count - count % 16) / 16 ≡ n = omega arith in
    let size : count - count % 16 ≡ n * 16 = omega arith in
    let part : (dest + n * 16 ≤ from) ⊎ (from + n * 16 ≤ dest) = elim apart [
      | inl ahead ↦ inl (omega arith)
      | inr behind ↦ inr (omega arith)
    ] in
    let loop = sse_loop-copied n dest from bytes (omega arith) (omega arith) part in
    let chosen = either_loop dest from n bytes (omega arith) in
    >>=-eq-ok _
      (ap
          (λ (k : ℕ).
            if not (dest % 16 == 0) || not (from % 16 == 0)
            then memcpy_sse_unaligned dest from k bytes
            else memcpy_sse2 dest from k bytes)
          blocks
        ∙ chosen
        ∙ ap ok loop)
      (rw size (ap ok (copied-rest dest from count bytes small small' apart)))
