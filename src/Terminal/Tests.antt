-- ===== src/Terminal/Tests.antt =====
-- Two terminals with buffers that are lists of bytes.
use literate_os.Common.{
  ℕ, Option, none, some, List, [], ◌++◌, take, drop, length, ◌==◌, if◌then◌else◌,
}
use literate_os.LinkedList.{Ptr, Node}
use literate_os.Terminal.{Terminals, Pty, Winsz, BufferOps, new_pty}

abbrev plain_buffer : BufferOps (List ℕ)
plain_buffer = record {
  new_buffer = [];
  set_ignore_backspace = λ on b. b;
  buffer_pos = λ b. length b;
  lines = λ b. length b;
  write_buffer = λ bs b. (length bs, b ++ bs);
  read_buffer = λ n b. (length (take n b), take n b, drop n b);
}

abbrev no_memory : Ptr → Option (Node Ptr)
no_memory p = none

abbrev no_size : Winsz
no_size = record { row_count = 0; col_count = 0; width = 0; height = 0 }

abbrev boot : Terminals (List ℕ)
boot = record {
  ptys = none;
  at = λ p. none;
  next_pty = 48;
  devices = [];
  bytes = λ a. a;
  sizes = λ a. record no_size { row_count = a };
}

-- One terminal at 500, on the list node 16.
abbrev first_pty : Pty (List ℕ)
first_pty = new_pty plain_buffer no_size 0 48

abbrev one_granted : Terminals (List ℕ)
one_granted = record boot {
  ptys = some (record {
    heap = λ p. if p == 16 then some (record { next = 1; prev = 2; obj = 500 }) else none;
    front = 16;
    back = 16;
    num = 1;
  });
  at = λ p. if p == 500 then some first_pty else none;
  next_pty = 49;
}
