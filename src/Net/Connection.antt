-- ===== src/Net/Connection.antt =====
-- src/net/connection.h and connection.cpp. What a call of the socket or of OpenSSL gives back is an
-- argument; a method that reserves or releases bytes takes the budget and returns it.
pub mod Accounting
pub mod Transfer
pub mod Room
mod Tests
use loadbalancer.Base.{
  ℕ, ◌+◌, ◌-◌, Bool, true, false, ◌&&◌, not, Option, none, some, List, [], ◌++◌, length, drop,
  is_empty, ltb, leb, nat_eq, u64, if◌then◌else◌,
}
use loadbalancer.Memory.{MemoryBudget, try_reserve, release}

pub data ConnectionState : Type 0 where
  handshake connecting established closed : ConnectionState

abbrev pub is_established : ConnectionState → Bool
is_established established = true
is_established handshake = false
is_established connecting = false
is_established closed = false

abbrev pub is_closed : ConnectionState → Bool
is_closed closed = true
is_closed handshake = false
is_closed connecting = false
is_closed established = false

-- `fd` is `none` for -1; `peer` names the other connection; `accounted` says whether the two
-- functions of the budget are set, which happens together.
pub record Connection : Type 0 where
  pub fd : Option ℕ
  pub state : ConnectionState
  pub peer : Option ℕ
  pub is_tls : Bool
  pub read_buf : List ℕ
  pub write_buf : List ℕ
  pub bytes_read : ℕ
  pub bytes_written : ℕ
  pub accounted : Bool
  pub memory_blocked : Bool
  pub buffer_full : Bool

abbrev pub max_buffer_size : ℕ
max_buffer_size = 65536

unfoldable pub new_connection : ℕ → Connection
new_connection fd = record {
  fd = some fd;
  state = established;
  peer = none;
  is_tls = false;
  read_buf = [];
  write_buf = [];
  bytes_read = 0;
  bytes_written = 0;
  accounted = false;
  memory_blocked = false;
  buffer_full = false;
}

abbrev pub read_available : Connection → ℕ
read_available c = length c.read_buf

abbrev pub write_available : Connection → ℕ
write_available c = max_buffer_size - length c.write_buf

abbrev pub has_read_space : Connection → Bool
has_read_space c = ltb (length c.read_buf) max_buffer_size

-- `release_bytes_`, where it is set.
abbrev pub give_back : Connection → ℕ → MemoryBudget → MemoryBudget
give_back c n b = if c.accounted then release n b else b

-- `read` and `SSL_read`: some bytes; nothing now; the end of the stream or an error.
pub data Received : Type 0 where
  received : List ℕ → Received
  try_later : Received
  ended : Received

-- The part behind the system call; `room` bytes are reserved.
after_read : Connection → ℕ → MemoryBudget → Received → Connection × MemoryBudget × Bool
after_read c room b (received bs) =
    let buf = c.read_buf ++ bs in
    (
      record c {
        read_buf = buf;
        bytes_read = u64 (c.bytes_read + length bs);
        memory_blocked = false;
        buffer_full = leb max_buffer_size (length buf);
      },
      if ltb (length bs) room then give_back c (room - length bs) b else b,
      true,
    )
after_read c room b try_later = (c, give_back c room b, true)
after_read c room b ended = (c, give_back c room b, false)

-- `socket` answers to the number of bytes asked for.
pub read_from_fd : (ℕ → Received) → Connection → MemoryBudget → Connection × MemoryBudget × Bool
read_from_fd socket c b =
    let room = max_buffer_size - length c.read_buf in
    if leb max_buffer_size (length c.read_buf)
    then (record c { buffer_full = true }, b, true)
    else let c' : Connection = record c { buffer_full = false } in
      if c.accounted
      then (let (b', granted) = try_reserve room b in
          if granted
          then after_read c' room b' (socket room)
          else (record c' { memory_blocked = true }, b', true))
      else after_read c' room b (socket room)

-- `write` and `SSL_write`: how many bytes went; nothing now; an error.
pub data Sent : Type 0 where
  wrote : ℕ → Sent
  blocked : Sent
  broken : Sent

after_write : Connection → MemoryBudget → Sent → Connection × MemoryBudget × Bool
after_write c b (wrote n) = (
  record c {
    write_buf = drop n c.write_buf;
    bytes_written = u64 (c.bytes_written + n);
    memory_blocked = false;
  },
  give_back c n b,
  true,
)
after_write c b blocked = (c, b, true)
after_write c b broken = (c, b, false)

-- `socket` answers to the bytes offered.
pub write_to_fd : (List ℕ → Sent) → Connection → MemoryBudget → Connection × MemoryBudget × Bool
write_to_fd socket c b =
    if is_empty c.write_buf then (c, b, true) else after_write c b (socket c.write_buf)

pub clear_buffers : Connection → MemoryBudget → Connection × MemoryBudget
clear_buffers c b = (
  record c { read_buf = []; write_buf = []; memory_blocked = false; buffer_full = false },
  give_back c (length c.read_buf + length c.write_buf) b,
)

unfoldable pub set_memory_accounting : Connection → Connection
set_memory_accounting c = record c { accounted = true }

pub try_reserve_additional_bytes : ℕ → Connection → MemoryBudget → Connection × MemoryBudget × Bool
try_reserve_additional_bytes n c b =
    if nat_eq n 0
    then (record c { memory_blocked = false }, b, true)
    else if not c.accounted
    then (record c { memory_blocked = false }, b, true)
    else let (b', granted) = try_reserve n b in
      (record c { memory_blocked = not granted }, b', granted)

pub release_accounted_bytes : ℕ → Connection → MemoryBudget → Connection × MemoryBudget
release_accounted_bytes n c b =
    if nat_eq n 0 then (c, b) else (record c { memory_blocked = false }, give_back c n b)

-- The caller clears the peer's pointer back, which `close` does through `peer_`; `fd` says which
-- descriptor was closed.
unfoldable pub close : Connection → MemoryBudget → Connection × MemoryBudget
close c b = (
  record c {
    fd = none;
    state = closed;
    is_tls = false;
    read_buf = [];
    write_buf = [];
    accounted = false;
    memory_blocked = false;
    buffer_full = false;
  },
  give_back c (length c.read_buf + length c.write_buf) b,
)
