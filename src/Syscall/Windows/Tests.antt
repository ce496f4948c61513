-- ===== src/Syscall/Windows/Tests.antt =====
-- A desktop with one window, and the theorems on windows at it.
use literate_os.Common.{◌≡◌, refl, true, none, some, [], ◌∷◌, arith, ℕ, inl}
use literate_os.Common.Run.{ok, write}
use literate_os.Scheduler.{new_index, find_handle}
use literate_os.Scheduler.Tests.{three, proc}
use literate_os.Syscall.{Regs, Kernel}
use literate_os.Syscall.Files.Laws.{Runs}
use literate_os.Syscall.Windows.{
  WinInfo, Surface, VideoMode, Desktop, Gui, is_registered, sys_create_window,
  sys_desktop_get_window, Window,
}
use literate_os.Syscall.Windows.Surfaces.{
  Vector2i, Rect, origin, region_of, row_size, sys_copy_window_surface,
}
use literate_os.Syscall.Windows.Surfaces.Rows.{Fits, Copied, sys_copy_window_surface-Copied}
use literate_os.Syscall.Windows.Laws.{created_info, sys_desktop_get_window-create}

abbrev plain : WinInfo
plain = record {
  x = 10;
  y = 20;
  width = 640;
  height = 480;
  flags = 0;
  title = 7;
  owner_pid = 0;
  handle = 0;
}

abbrev screen : Surface
screen = record { width = 1024; height = 768; depth = 32; buffer = 0xD0000000 }

abbrev mode : VideoMode
mode = record { address = 0xE0000000; width = 1024; height = 768; pitch = 4096 }

abbrev one_window : Desktop
one_window = record { surface = screen; windows = 0x5000 ∷ [] }

abbrev kernel : Kernel
kernel = record { sched = record three { handles = new_index 1 16 0x5000 ∷ [] }; words = λ a. 0 }

abbrev gui : Gui
gui = record {
  kernel = kernel;
  desktop = 0x4000;
  desktops = write (λ a. none) 0x4000 (some one_window);
  window_at = write (λ a. none) 0x5000 (some (record { info = plain; buffer = 0xD1000000 }));
  infos = λ a. plain;
  surfaces = λ a. screen;
  modes = λ a. mode;
  bytes = λ a. 0;
  video_mode = mode;
}

kernel-Runs : Runs kernel (proc 1 32 2)
kernel-Runs = record { current_set = omega arith; current_at = refl }

abbrev create : Regs
create = record { eax = 24; ebx = 0x100; ecx = 0x200; edx = 0; esi = 0 }

-- The second window of the desktop.
abbrev ask : Regs
ask = record { eax = 26; ebx = 1; ecx = 0x300; edx = 0; esi = 0 }

sys_desktop_get_window-create_example :
    (g' : Gui) × (g'' : Gui) × (sys_create_window 0x6000 0xD2000000 create gui ≡ ok (0, g'))
    × (sys_desktop_get_window ask g' ≡ ok (0, g''))
    × (g''.infos 0x300 ≡ created_info gui (proc 1 32 2) create 0x6000)
    × (g'.kernel.words 0x100 ≡ 0x6000)
    × ((d' : Desktop) × (g'.desktops g'.desktop ≡ some d') × (d'.windows ≡ 0x5000 ∷ 0x6000 ∷ []))
sys_desktop_get_window-create_example =
    sys_desktop_get_window-create 0x6000 0xD2000000 create ask gui (proc 1 32 2) one_window
      kernel-Runs refl (omega arith) (omega arith) (omega arith) refl (omega arith)

abbrev destroy : Regs
destroy = record { eax = 32; ebx = 0x5000; ecx = 0; edx = 0; esi = 0 }

known : is_registered 0x5000 gui ≡ true
unfolding find_handle
known = refl

-- The window at 0x5000, shown as a whole.
abbrev show : Regs
show = record { eax = 28; ebx = 0x400; ecx = 0x5000; edx = 0; esi = 0 }

abbrev shown_window : Window
shown_window = record { info = plain; buffer = 0xD1000000 }

abbrev no_vectors : ℕ → Vector2i
no_vectors a = origin

abbrev no_rects : ℕ → Rect
no_rects a = record { pos = origin; size = origin }

window-Fits : Fits screen shown_window origin (region_of no_rects show shown_window)
unfolding row_size
window-Fits = record {
  row_large = omega arith;
  row_in_dest = omega arith;
  row_in_window = omega arith;
  below = omega arith;
  height_small = omega arith;
  size_small = omega arith;
  dest_small = omega arith;
  from_small = omega arith;
  apart = inl (omega arith);
}

window_registered : is_registered 0x5000 gui ≡ true
unfolding find_handle
window_registered = refl

sys_copy_window_surface-Copied_example :
    (bytes : ℕ → ℕ) × (sys_copy_window_surface 481 no_vectors no_rects show gui
      ≡ ok (0, record gui { bytes = bytes }))
    × Copied screen shown_window origin (region_of no_rects show shown_window) 0 gui.bytes bytes
sys_copy_window_surface-Copied_example =
    sys_copy_window_surface-Copied 481 no_vectors no_rects show gui shown_window (omega arith)
      (omega arith) window_registered refl window-Fits (omega arith) (omega arith)
