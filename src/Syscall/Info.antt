-- ===== src/Syscall/Info.antt =====
-- The system calls that only look something up: `SysReadDir`, `SysUname`, `SysGetSysinfo` and `SysDebug`, and
-- those without a body.
--
-- A string is the list of its characters; the structures that a caller passes by address are read from and
-- stored in `strings`, `dirents` and `infos`.
use literate_os.Common.{ℕ, ◌+◌, Option, none, some, List, ◌==◌, ltb, ◌||◌, length, if◌then◌else◌}
use literate_os.Common.Bits.{u32}
use literate_os.Common.Run.{Run, ok, ◌>>=◌}
use literate_os.Scheduler.{Ptr, load}
use literate_os.Syscall.{Regs, Kernel}
use literate_os.Syscall.Files.{descriptor, write_word}
use literate_os.Syscall.Windows.{store_at}

-- `fs_dirent_t`, with the type that `SysReadDir` copies.
pub record Dirent : Type 0 where
  pub inode : ℕ
  pub kind : ℕ
  pub name : List ℕ

-- `sys_info_t`.
pub record SysInfo : Type 0 where
  pub cpu_vendor : List ℕ
  pub version_string : List ℕ
  pub mem_size : ℕ
  pub used_memory : ℕ

pub record Lookups : Type 0 where
  pub kernel : Kernel
  pub strings : ℕ → List ℕ
  pub dirents : ℕ → Dirent
  pub infos : ℕ → SysInfo

-- A word at an address, if there is an address.
abbrev pub report : (address value : ℕ) → Lookups → Lookups
report address value l =
    if address == 0
    then l
    else record l { kernel = record l.kernel { words = write_word l.kernel.words address value } }

-- `read_dir` is `fs::ReadDir`, and `count` the undeclared variable of that name; the descriptor one behind
-- the last passes the test.
unfoldable pub sys_read_dir :
    (read_dir : Ptr → ℕ → Option Dirent) (count : ℕ) → Regs → Lookups → Run (ℕ × Lookups)
sys_read_dir read_dir count r l =
    let looked = (do
      x ← load l.kernel.sched l.kernel.sched.current
      ok (
          if ltb (length x.file_descriptors) r.edx
          then (2, l)
          else elim (read_dir (descriptor x r.edx) count) [
            | none ↦ (2, report r.esi 0 l)
            | some e ↦ (0, report r.esi 1 (record l { dirents = store_at l.dirents r.ecx e }))
          ])) in
    if r.ebx == 0 || r.ecx == 0 then ok (1, l) else looked

-- Without a `return` behind `strcpy`: `stale` is what the caller finds as the result.
unfoldable pub sys_uname : (version : List ℕ) (stale : ℕ) → Regs → Lookups → Run (ℕ × Lookups)
sys_uname version stale r l =
    if r.ebx == 0
    then ok (1, l)
    else ok (stale, record l { strings = store_at l.strings r.ebx version })

unfoldable pub sys_get_sysinfo :
    (memory_hi memory_lo used_blocks : ℕ) (version vendor : List ℕ)
    → Regs
    → Lookups
    → Run (ℕ × Lookups)
sys_get_sysinfo memory_hi memory_lo used_blocks version vendor r l =
    let info : SysInfo = record {
      cpu_vendor = vendor;
      version_string = version;
      mem_size = u32 (memory_hi + memory_lo);
      used_memory = used_blocks;
    } in
    if r.ebx == 0 then ok (1, l) else ok (0, record l { infos = store_at l.infos r.ebx info })

-- What it logs is output.
unfoldable pub sys_debug : Regs → Lookups → Run (ℕ × Lookups)
sys_debug r l = ok (0, l)

-- `SysCreate`, `SysLink` and `SysUnlink`.
unfoldable pub sys_create : Regs → Lookups → Run (ℕ × Lookups)
sys_create r l = ok (0, l)

-- `SysSleep`, `SysChdir`, `SysTime`, `SysStat`, `SysMount` and `SysUmount` have no statement.
unfoldable pub sys_sleep : (stale : ℕ) → Regs → Lookups → Run (ℕ × Lookups)
sys_sleep stale r l = ok (stale, l)
