-- ===== src/Syscall/Windows/Laws.antt =====
-- Windows after their creation and at their end.
use literate_os.Common.{
  ℕ, zero, suc, ◌+◌, ◌<◌, ◌≤◌, ◌≡◌, ◌≢◌, refl, ap, ◌∙◌, true, false, some, List, [], ◌∷◌, ◌++◌,
  ◌==◌, leb, length, get_or, arith, Bool-cases, inl, inr, get_or-append_last,
}
use literate_os.Common.Run.{ok, fault, write}
use literate_os.Scheduler.{Ptr, Process}
use literate_os.Scheduler.Ring.{load-ok}
use literate_os.Scheduler.Messages.{remove_at-inside}
use literate_os.Scheduler.{remove_at}
use literate_os.Scheduler.Handles.{with_handle, register_handle-ok}
use literate_os.Syscall.{Regs}
use literate_os.Syscall.Files.Laws.{Runs}
use literate_os.Syscall.Windows.{
  drop_window, Gui, Desktop, WinInfo, register, set_word, sys_create_window, sys_desktop_get_window,
  sys_destroy_window, is_registered, store_at,
}

-- The info of a new window: the caller's, with the handle and the owner filled in.
abbrev pub created_info : Gui → Process → Regs → Ptr → WinInfo
created_info g x r fresh = record (g.infos r.ecx) { handle = fresh; owner_pid = x.pid }

abbrev with_window : (fresh pixels : ℕ) → Regs → Gui → Process → Desktop → Gui
with_window fresh pixels r g x d = record g {
  kernel = record (set_word r.ebx fresh g).kernel { sched = with_handle fresh x g.kernel.sched };
  desktops = write g.desktops g.desktop (some (record d { windows = d.windows ++ fresh ∷ [] }));
  window_at =
      write g.window_at fresh (some (record { info = created_info g x r fresh; buffer = pixels }));
}

create-eq :
    (fresh pixels : ℕ) (r : Regs) (g : Gui) (x : Process) (d : Desktop)
    → Runs g.kernel x
    → g.desktops g.desktop ≡ some d
    → r.ebx ≢ 0
    → r.ecx ≢ 0
    → sys_create_window fresh pixels r g ≡ ok (0, with_window fresh pixels r g x d)
unfolding sys_create_window register
create-eq fresh pixels r g x d runs desk b c =
    let t₁ : (r.ecx == 0) ≡ false = ground arith in
    let t₂ : (r.ebx == 0) ≡ false = ground arith in
    let s' = with_handle fresh x g.kernel.sched in
    rw (
      t₁,
      t₂,
      register_handle-ok fresh g.kernel.sched x runs.current_set runs.current_at,
      load-ok s' g.kernel.sched.current x runs.current_set runs.current_at,
      desk,
    )

-- A created window is the last of the desktop: asking for the window with that number gives the
-- caller's info with the new handle and the PID of the caller, and the other windows keep their numbers.
pub sys_desktop_get_window-create :
    (fresh pixels : ℕ) (r ask : Regs) (g : Gui) (x : Process) (d : Desktop)
    → Runs g.kernel x
    → g.desktops g.desktop ≡ some d
    → fresh ≢ 0
    → r.ebx ≢ 0
    → r.ecx ≢ 0
    → ask.ebx ≡ length d.windows
    → ask.ecx ≢ 0
    → (g' : Gui) × (g'' : Gui) × (sys_create_window fresh pixels r g ≡ ok (0, g'))
      × (sys_desktop_get_window ask g' ≡ ok (0, g''))
      × (g''.infos ask.ecx ≡ created_info g x r fresh)
      × (g'.kernel.words r.ebx ≡ fresh)
      × ((d' : Desktop) × (g'.desktops g'.desktop ≡ some d')
          × (d'.windows ≡ d.windows ++ fresh ∷ []))
unfolding sys_desktop_get_window
sys_desktop_get_window-create fresh pixels r ask g x d runs desk nz b c same to =
    let t₁ : (ask.ecx == 0) ≡ false = ground arith in
    let t₂ : (fresh == 0) ≡ false = ground arith in
    let here : (fresh == fresh) ≡ true = ground arith in
    let there : (ask.ecx == ask.ecx) ≡ true = ground arith in
    let own : (g.desktop == g.desktop) ≡ true = ground arith in
    let word : (r.ebx == r.ebx) ≡ true = ground arith in
    let last : get_or (d.windows ++ fresh ∷ []) ask.ebx 0 ≡ fresh =
      ap (λ (i : ℕ). get_or (d.windows ++ fresh ∷ []) i 0) same
      ∙ get_or-append_last d.windows fresh 0 in
    let g' = with_window fresh pixels r g x d in
    let g'' : Gui = record g' { infos = store_at g.infos ask.ecx (created_info g x r fresh) } in
    (
      g',
      g'',
      create-eq fresh pixels r g x d runs desk b c,
      rw (t₁, own, last, t₂, here) refl,
      rw there refl,
      rw word refl,
      (record d { windows = d.windows ++ fresh ∷ [] }, rw own refl, refl),
    )

drop_window-fault :
    (left i j : ℕ) (window : Ptr) (windows : List Ptr)
    → i ≤ j
    → j < length windows
    → j < i + left
    → get_or windows j 0 ≡ window
    → drop_window left i window windows ≡ fault
unfolding drop_window
drop_window-fault zero i j window windows le inside room hit = absurd (omega arith)
drop_window-fault (suc left) i j window windows le inside room hit =
    let t : leb (length windows) i ≡ false = ground arith in
    let gone : remove_at 0 windows i ≡ fault = remove_at-inside 0 windows i (omega arith) in
    elim (Bool-cases (get_or windows i 0 == window)) [
      | inl found ↦ rw (t, found, gone)
      | inr other ↦
          rw (t, other)
            (drop_window-fault left (i + 1) j window windows (ground arith) inside (omega arith)
              hit)
    ]

-- Destroying a window that stands on the desktop is undefined: the loop gets to `List::remove_at`,
-- which has no `return` for a position of the list.
pub sys_destroy_window-fault :
    (r : Regs) (g : Gui) (d : Desktop) (j : ℕ)
    → g.desktops g.desktop ≡ some d
    → r.ebx ≢ 0
    → is_registered r.ebx g ≡ true
    → j < length d.windows
    → get_or d.windows j 0 ≡ r.ebx
    → sys_destroy_window r g ≡ fault
unfolding sys_destroy_window
sys_destroy_window-fault r g d j desk nz known inside hit =
    let t : (r.ebx == 0) ≡ false = ground arith in
    rw (
      t,
      known,
      desk,
      drop_window-fault (length d.windows) 0 j r.ebx d.windows (omega arith) inside (omega arith)
          hit,
    )
