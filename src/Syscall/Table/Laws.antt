-- ===== src/Syscall/Table/Laws.antt =====
-- Which handler a system call number reaches.
use literate_os.Common.{◌-◌}
use literate_os.Common.{
  ℕ, ◌<◌, ◌≤◌, ◌≡◌, refl, ◌≢◌, All, All-get_elem?, get_elem?, Option-cases, ◌↔◌, ap, not, ◌||◌,
  ◌==◌, holds_below, holds_below-test, inl, inr, ◌⊎◌, Bool, true, false, Option, none, some, arith,
}
use literate_os.Common.Run.{Run, ok, fault}
use literate_os.Syscall.Table.{Handler, paint_window, num_syscalls, syscalls, handler_at}

-- What the table says of the handler and the number of one `SYS_*` constant.
abbrev RowOf : Handler → Option ℕ → Type 0
RowOf h none = Unit
RowOf h (some n) = ((handler_at n ≡ ok h) ↔ (n ≤ 25)) × (26 < n → handler_at (n - 1) ≡ ok h)

not_paint_window : All (λ o. o ≢ some paint_window) syscalls
unfolding syscalls
not_paint_window = ground arith

-- No number reaches `SysPaintWindow`.
pub paint_window_unreachable : (n : ℕ) → handler_at n ≢ ok paint_window
unfolding handler_at
paint_window_unreachable n e = elim (Option-cases (get_elem? syscalls n)) [
  | inl none_there ↦ cc (rw none_there at e)
  | inr (entry, there) ↦
      ground
        (arith, there, All-get_elem? (λ o. o ≢ some paint_window) syscalls n not_paint_window there)
]

abbrev is_fault : Run Handler → Bool
is_fault fault = true
is_fault _ = false

faults : holds_below (λ n. not (is_fault (handler_at n)) || n == 0 || n == 37) num_syscalls ≡ true
unfolding holds_below handler_at
faults = refl

-- Two numbers that pass the dispatcher's bound have no handler, so the call is undefined: 0, the null
-- entry, and 37, one past the end of the array.
pub handler_at-fault : (n : ℕ) → n < num_syscalls → (handler_at n ≡ fault) ↔ ((n ≡ 0) ⊎ (n ≡ 37))
handler_at-fault n h = (only, these)
  where
    only : handler_at n ≡ fault → (n ≡ 0) ⊎ (n ≡ 37)
    only e = ground (arith, ap is_fault e, holds_below-test _ _ n h faults)

    these : (n ≡ 0) ⊎ (n ≡ 37) → handler_at n ≡ fault
    these (inl e) = rw e (unfold handler_at in refl)
    these (inr e) = rw e (unfold handler_at in refl)
