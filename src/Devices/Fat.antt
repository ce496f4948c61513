-- ===== src/Devices/Fat.antt =====
-- Long file names of FAT32: `GetLongFilename` of Kernel/include/fat32.h.
--
-- A buffer is its bytes by address, and a `char` that is stored is the low byte of the 16-bit character.
use literate_os.Common.{
  ℕ, zero, suc, ◌+◌, ◌-◌, ◌<◌, ◌≡◌, refl, sym, ◌∙◌, true, false, List, [], ◌∷◌, ◌++◌, get_or, map,
  length, ap, ◌==◌, ltb, if◌then◌else◌, arith, Bool-cases, inl, inr,
}
use literate_os.Common.Bits.{u8}

pub record LfnEntry : Type 0 where
  pub order : ℕ
  pub characters0 : ℕ → ℕ
  pub attributes : ℕ
  pub type : ℕ
  pub checksum : ℕ
  pub characters1 : ℕ → ℕ
  pub zero_cluster : ℕ
  pub characters2 : ℕ → ℕ

-- The buffer `name`, and `nameIndex`.
pub record Filename : Type 0 where
  pub name : ℕ → ℕ
  pub index : ℕ

-- name[nameIndex++] = c
abbrev pub push : (c : ℕ) → Filename → Filename
push c s = record { name = λ a. if a == s.index then u8 c else s.name a; index = s.index + 1 }

-- A loop over `left` characters from `j` on.
pub copy_characters : (left j : ℕ) → (ℕ → ℕ) → Filename → Filename
copy_characters zero j characters s = s
copy_characters (suc left) j characters s =
    copy_characters left (j + 1) characters (push (characters j) s)

-- The loop on `characters1` runs while j < 0, so never.
pub append_entry : LfnEntry → Filename → Filename
unfolding copy_characters
append_entry e s =
    let s = copy_characters 0 0 e.characters1 (copy_characters 5 0 e.characters0 s) in
    push 0 (push 0 (push (e.characters2 1) (push (e.characters2 0) s)))

pub append_entries : List LfnEntry → Filename → Filename
unfolding append_entry
append_entries [] s = s
append_entries (e ∷ es) s = append_entries es (append_entry e s)

pub get_long_filename : (ℕ → ℕ) → List LfnEntry → ℕ → ℕ
unfolding append_entries
get_long_filename name lfn_entries =
    (append_entries lfn_entries (record { name = name; index = 0 })).name

-- What an entry contributes: the first five characters, the last two, and two zeros.
abbrev pub entry_characters : LfnEntry → List ℕ
entry_characters e =
    e.characters0 0
    ∷ e.characters0 1
    ∷ e.characters0 2
    ∷ e.characters0 3
    ∷ e.characters0 4
    ∷ e.characters2 0
    ∷ e.characters2 1
    ∷ 0
    ∷ 0
    ∷ []

abbrev pub name_characters : List LfnEntry → List ℕ
name_characters [] = []
name_characters (e ∷ es) = entry_characters e ++ name_characters es

push_all : List ℕ → Filename → Filename
push_all [] s = s
push_all (b ∷ bs) s = push_all bs (push b s)

push_all-append :
    (bs cs : List ℕ) (s : Filename) → push_all (bs ++ cs) s ≡ push_all cs (push_all bs s)
unfolding push_all
push_all-append [] cs s = refl
push_all-append (b ∷ bs) cs s = push_all-append bs cs (push b s)

append_entries-eq-push_all :
    (es : List LfnEntry) (s : Filename) → append_entries es s ≡ push_all (name_characters es) s
unfolding append_entries append_entry copy_characters push_all
append_entries-eq-push_all [] s = refl
append_entries-eq-push_all (e ∷ es) s =
    append_entries-eq-push_all es (append_entry e s)
    ∙ sym (push_all-append (entry_characters e) (name_characters es) s)

-- What the buffer holds behind a run of pushes: the bytes from the index on, and what it held elsewhere.
push_all-name :
    (bs : List ℕ) (s : Filename) (a : ℕ)
    → (push_all bs s).name a
      ≡ (if ltb a s.index then s.name a else get_or (map u8 bs) (a - s.index) (s.name a))
unfolding push_all
push_all-name [] s a = ground arith
push_all-name (b ∷ bs) s a = push_all-name bs (push b s) a ∙ elim (Bool-cases (ltb a s.index)) [
  | inl below ↦ ground arith
  | inr beyond ↦ elim (Bool-cases (a == s.index)) [
    | inl here ↦
        let none_left : a - s.index ≡ 0 = ground arith in
        let inside : ltb a (s.index + 1) ≡ true = ground arith in
        rw (beyond, inside, here, none_left)
    | inr other ↦
        let later : a - s.index ≡ suc (a - (s.index + 1)) = ground arith in
        let outside : ltb a (s.index + 1) ≡ false = ground arith in
        rw (beyond, outside, other, later)
  ]
]

eighth :
    (es : List LfnEntry) → 0 < length es → (d : ℕ) → get_or (map u8 (name_characters es)) 7 d ≡ 0
eighth [] some_entry d = absurd (omega arith)
eighth (e ∷ es) some_entry d = refl

-- `GetLongFilename` writes nine bytes for each entry, one entry behind the other from the start of the
-- buffer: the low bytes of the first five and of the last two characters, then two zeros. The rest of
-- the buffer is as it was. So the six characters in the middle of an entry are lost, and a name that is
-- read up to its first zero has at most seven characters.
pub get_long_filename-copied :
    (name : ℕ → ℕ) (es : List LfnEntry)
    → ((a : ℕ) → get_long_filename name es a ≡ get_or (map u8 (name_characters es)) a (name a))
      × (0 < length es → get_long_filename name es 7 ≡ 0)
unfolding get_long_filename
get_long_filename-copied name es =
    let from_start : (a : ℕ)
        → (if ltb a 0 then name a else get_or (map u8 (name_characters es)) (a - 0) (name a))
          ≡ get_or (map u8 (name_characters es)) a (name a) =
      λ a.
        let none_below : ltb a 0 ≡ false = ground arith in
        let all : a - 0 ≡ a = omega arith in rw (none_below, all) in
    let at : (a : ℕ)
        → (append_entries es (record { name = name; index = 0 })).name a
          ≡ get_or (map u8 (name_characters es)) a (name a) =
      λ a.
        ap (λ s. s.name a) (append_entries-eq-push_all es (record { name = name; index = 0 }))
        ∙ push_all-name (name_characters es) (record { name = name; index = 0 }) a
        ∙ from_start a in
    (at, λ some_entry. at 7 ∙ eighth es some_entry (name 7))
