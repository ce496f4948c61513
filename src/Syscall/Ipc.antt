-- ===== src/Syscall/Ipc.antt =====
-- The system calls on processes and messages: `SysSenMessage`, `SysReceiverMessage` and `SysGetPid`.
pub mod Laws
use literate_os.Common.{ℕ, ◌+◌, ◌==◌, ◌||◌, if◌then◌else◌, length}
use literate_os.Common.Bits.{u32}
use literate_os.Common.Run.{Run, ok, ◌>>=◌}
use literate_os.Scheduler.{Ptr, Message, Process, Scheduler, load, send_message, receive_message}
use literate_os.Syscall.{Regs, Kernel}
use literate_os.Syscall.Files.{write_word}

-- The message that `SysSenMessage` builds from the registers.
abbrev pub message_of : Process → Regs → Message
message_of x r = record {
  sender_pid = u32 x.pid;
  receiver_pid = r.ebx;
  id = r.ecx;
  payload = r.edx;
  payload2 = r.esi;
}

pub sys_send_message : (fuel : ℕ) → Regs → Kernel → Run (ℕ × Kernel)
sys_send_message fuel r k = do
  x ← load k.sched k.sched.current
  (ret, s) ← send_message fuel (message_of x r) k.sched
  ok (ret, record k { sched = s })

-- The message goes to the address in `ebx`: the five words from there on.
abbrev pub write_message : (ℕ → ℕ) → ℕ → Message → ℕ → ℕ
write_message words at msg =
    write_word
      (write_word
        (write_word
          (write_word (write_word words at msg.sender_pid) (u32 (at + 4)) msg.receiver_pid)
          (u32 (at + 8)) msg.id)
        (u32 (at + 12)) msg.payload)
      (u32 (at + 16)) msg.payload2

pub sys_receive_message : Regs → Kernel → Run (ℕ × Kernel)
sys_receive_message r k =
    let received = (do
      x ← load k.sched k.sched.current
      msg ← receive_message k.sched.current k.sched
      ok (
        0,
        record k {
          words = write_message (write_word k.words r.ecx (length x.message_queue)) r.ebx msg;
        },
      )) in
    if r.ebx == 0 || r.ecx == 0 then ok (1, k) else received

unfoldable pub sys_get_pid : Regs → Kernel → Run (ℕ × Kernel)
sys_get_pid r k = do
  x ← load k.sched k.sched.current
  ok (0, record k { words = write_word k.words r.ebx (u32 x.pid) })
