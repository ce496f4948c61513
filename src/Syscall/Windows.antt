-- ===== src/Syscall/Windows.antt =====
-- The system calls on the desktop and its windows: `SysCreateDesktop`, `SysCreateWindow`,
-- `SysPaintDesktop`, `SysPaintWindow`, `SysDesktopGetWindow`, `SysDesktopGetWindowCount`,
-- `SysGetVideoMode` and `SysDestroyWindow`.
--
-- The structures that a caller passes by address are read from `infos`, `surfaces` and `modes`. The
-- desktop is the one that `SetDesktop` was last given. A window and a desktop live at the address
-- that is their handle; `fresh` and `pixels` are what `kmalloc` returns.
pub mod Laws
pub mod Surfaces
mod Tests
use literate_os.Common.{
  ℕ, zero, suc, ◌+◌, ◌-◌, ◌*◌, Bool, true, false, Option, none, some, List, [], ◌∷◌, ◌++◌, ◌==◌,
  ◌||◌, ◌&&◌, leb, ltb, if◌then◌else◌, length, get_or,
}
use literate_os.Common.Bits.{u32}
use literate_os.Common.Run.{Run, ok, fault, ◌>>=◌, or_fault, write}
use literate_os.Scheduler.{Ptr, Process, Scheduler, load, register_handle, find_handle, remove_at}
use literate_os.Syscall.{Regs, Kernel}
use literate_os.Syscall.Files.{write_word}
use literate_os.Machine.Copy.{memcpy_optimized}

-- `win_info_t`; the title stands for its 96 bytes.
pub record WinInfo : Type 0 where
  pub x : ℕ
  pub y : ℕ
  pub width : ℕ
  pub height : ℕ
  pub flags : ℕ
  pub title : ℕ
  pub owner_pid : ℕ
  pub handle : Ptr

-- The fields of `surface_t` that the calls use.
pub record Surface : Type 0 where
  pub width : ℕ
  pub height : ℕ
  pub depth : ℕ
  pub buffer : ℕ

pub record VideoMode : Type 0 where
  pub address : ℕ
  pub width : ℕ
  pub height : ℕ
  pub pitch : ℕ

-- `window_t` with the surface that the calls give it.
pub record Window : Type 0 where
  pub info : WinInfo
  pub buffer : ℕ

pub record Desktop : Type 0 where
  pub surface : Surface
  pub windows : List Ptr

pub record Gui : Type 0 where
  pub kernel : Kernel
  pub desktop : Ptr
  pub desktops : Ptr → Option Desktop
  pub window_at : Ptr → Option Window
  pub infos : ℕ → WinInfo
  pub surfaces : ℕ → Surface
  pub modes : ℕ → VideoMode
  pub bytes : ℕ → ℕ
  pub video_mode : VideoMode

abbrev pub store_at {ℓ} : {A : Type ℓ} → (ℕ → A) → ℕ → A → ℕ → A
store_at memory at v a = if a == at then v else memory a

pub register : Ptr → Gui → Run Gui
register handle g = do
  s ← register_handle handle g.kernel.sched
  ok (record g { kernel = record g.kernel { sched = s } })

abbrev pub set_word : ℕ → ℕ → Gui → Gui
set_word at v g = record g { kernel = record g.kernel { words = write_word g.kernel.words at v } }

-- The depth of the desktop's own surface is not set; it stands as 0 here.
unfoldable pub sys_create_desktop : (fresh pixels : ℕ) → Regs → Gui → Run (ℕ × Gui)
unfolding register
sys_create_desktop fresh pixels r g =
    let mode = g.video_mode in
    let surface : Surface = record {
      width = mode.width;
      height = mode.height;
      depth = 0;
      buffer = pixels;
    } in
    let seen = g.surfaces r.ecx in
    let seen' : Surface = record seen { width = mode.width; height = mode.height; depth = 32 } in
    let created = (do
      g₁ ← register fresh g
      ok (
        0,
        set_word r.ebx fresh (record g₁ {
          desktop = fresh;
          desktops = write g₁.desktops fresh (some (record { surface = surface; windows = [] }));
          surfaces = store_at g₁.surfaces r.ecx seen';
        }),
      )) in
    if r.ebx == 0 || r.ecx == 0 then ok (1, g) else created

-- The desktop is dereferenced after the handle was registered and reported.
pub sys_create_window : (fresh pixels : ℕ) → Regs → Gui → Run (ℕ × Gui)
unfolding register
sys_create_window fresh pixels r g =
    let created = (do
      g₁ ← register fresh (set_word r.ebx fresh g)
      x ← load g₁.kernel.sched g₁.kernel.sched.current
      d ← or_fault (g₁.desktops g₁.desktop)
      let info = record (g.infos r.ecx) { handle = fresh; owner_pid = x.pid }
      ok (
        0,
        record g₁ {
          desktops =
              write g₁.desktops g₁.desktop (some (record d { windows = d.windows ++ fresh ∷ [] }));
          window_at = write g₁.window_at fresh (some (record { info = info; buffer = pixels }));
        },
      )) in
    if r.ecx == 0 then ok (1, g) else if r.ebx == 0 then ok (1, g) else created

-- A handle is good if it was registered, whatever it is a handle of.
abbrev pub is_registered : Ptr → Gui → Bool
is_registered handle g = if (find_handle g.kernel.sched handle).handle == 0 then false else true

unfoldable pub sys_paint_desktop : Regs → Gui → Run (ℕ × Gui)
sys_paint_desktop r g =
    let painted = (do
      d ← or_fault (g.desktops r.ebx)
      bytes ←
          memcpy_optimized g.video_mode.address (g.surfaces r.ecx).buffer
            (u32 (d.surface.width * d.surface.height * 4)) g.bytes
      ok (0, record g { bytes = bytes })) in
    if r.ebx == 0 || r.ecx == 0
    then ok (1, g)
    else if is_registered r.ebx g
    then painted
    else ok (1, g)

unfoldable pub sys_paint_window : Regs → Gui → Run (ℕ × Gui)
sys_paint_window r g =
    let painted = (do
      w ← or_fault (g.window_at r.ebx)
      bytes ←
          memcpy_optimized w.buffer (g.surfaces r.ecx).buffer
            (u32 (w.info.width * 4 * w.info.height)) g.bytes
      ok (0, record g { bytes = bytes })) in
    if r.ebx == 0 || r.ecx == 0
    then ok (1, g)
    else if is_registered r.ebx g
    then painted
    else ok (1, g)

pub sys_desktop_get_window : Regs → Gui → Run (ℕ × Gui)
sys_desktop_get_window r g =
    let found = (do
      d ← or_fault (g.desktops g.desktop)
      let window = get_or d.windows r.ebx 0
      let seen = (do
        w ← or_fault (g.window_at window)
        ok (0, record g { infos = store_at g.infos r.ecx w.info }))
      if window == 0 then ok (2, g) else seen) in
    if r.ecx == 0 then ok (1, g) else found

unfoldable pub sys_desktop_get_window_count : Regs → Gui → Run (ℕ × Gui)
sys_desktop_get_window_count r g =
    let counted = (do
      d ← or_fault (g.desktops g.desktop)
      ok (0, set_word r.ebx (length d.windows) g)) in
    if r.ebx == 0 then ok (1, g) else counted

unfoldable pub sys_get_video_mode : Regs → Gui → Run (ℕ × Gui)
sys_get_video_mode r g =
    if r.ebx == 0
    then ok (1, g)
    else ok (0, record g { modes = store_at g.modes r.ebx g.video_mode })

-- The loop of `SysDestroyWindow` at `i`, with at most `left` rounds to go: a round that removes a window
-- does not return from `remove_at`.
pub drop_window : (left i : ℕ) → Ptr → List Ptr → Run (List Ptr)
drop_window zero i window windows = ok windows
drop_window (suc left) i window windows =
    let rest = drop_window left (i + 1) window windows in
    let removed = (do gone ← remove_at 0 windows i; drop_window left (i + 1) window windows) in
    if leb (length windows) i
    then ok windows
    else if get_or windows i 0 == window
    then removed
    else rest

pub sys_destroy_window : Regs → Gui → Run (ℕ × Gui)
unfolding drop_window
sys_destroy_window r g =
    let destroyed = (do
      d ← or_fault (g.desktops g.desktop)
      windows ← drop_window (length d.windows) 0 r.ebx d.windows
      ok (
        0,
        record g {
          desktops = write g.desktops g.desktop (some (record d { windows = windows }));
          window_at = write g.window_at r.ebx none;
        },
      )) in
    if r.ebx == 0 then ok (1, g) else if is_registered r.ebx g then destroyed else ok (1, g)
