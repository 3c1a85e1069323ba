-- ===== src/Conn.antt =====
-- conn.h and conn.cpp: a connection of a client (connNetObj) or of another server (connRpcObj).
-- m_NetBuffer is a list of 4096 bytes, of which the first `net_offset` are received ones.
pub mod Leftover
pub mod Receive
pub mod Calls
pub mod Transmit
pub mod Identity
use kcpserver_cpp.Common.{
  ℕ, zero, suc, ◌+◌, ◌-◌, ◌*◌, ◌^◌, Bool, true, false, ◌&&◌, ◌||◌, not, Option, none, some, List,
  [], ◌∷◌, ◌++◌, ◌==◌, ltb, leb, min, if◌then◌else◌, Bytes, codes, eq_bytes, le_value, length, take,
  drop, Outcome, ok, abort, hang, ◌>>=◌, sub32, int_ltb,
}
use kcpserver_cpp.Wire.{RpcObj, decode_buffer, get_target}
use kcpserver_cpp.SendQueue.{Answer, wrote, eagain, failed, send_size}
use kcpserver_cpp.Tcp.{ReadAnswer, got, closed, write_at, move_down}
use kcpserver_cpp.Tcp

-- BUFFER_SIZE and RECV_BUFFER_SIZE, and the limit of a message.
abbrev pub buffer_size : ℕ
buffer_size = 32 * 1024

abbrev pub recv_buffer_size : ℕ
recv_buffer_size = 4 * 1024

abbrev pub max_message : ℕ
max_message = 64 * 1024

pub record Conn : Type 0 where
  pub fd : ℕ
  pub pid : ℕ
  pub rpc : Bool
  pub bclose : Bool
  pub last_sec : ℕ
  pub send_buf : Bytes
  pub send_buf_cap : ℕ
  pub send_buf_offset : ℕ
  pub send_buf_len : ℕ
  pub net_buffer : Bytes
  pub net_offset : ℕ
  pub read_offset : ℕ
  pub chk_read_zero : Bool

-- What a connection asks of the rest of the server.
pub data Event : Type 0 where
  conn_close : ℕ → Event
  add_write : ℕ → Event
  msg2gate : ℕ → ℕ → Bytes → Event
  msg2game : ℕ → ℕ → Bytes → Event
  rpc_call : RpcObj → Event
  qps : ℕ → ℕ → Event
  reg_conn : ℕ → ℕ → Bytes → Event
  close_fd : ℕ → Event

-- The constructor of connObj; the memory of both buffers is cleared.
abbrev pub zeros : ℕ → Bytes
zeros zero = []
zeros (suc n) = 0 ∷ zeros n

unfoldable pub new_conn : ℕ → Conn
new_conn fd = record {
  fd = fd;
  pid = 0;
  rpc = false;
  bclose = false;
  last_sec = 0;
  send_buf = zeros buffer_size;
  send_buf_cap = buffer_size;
  send_buf_offset = 0;
  send_buf_len = 0;
  net_buffer = zeros recv_buffer_size;
  net_offset = 0;
  read_offset = 0;
  chk_read_zero = true;
}

-- The first half of send: the bytes join the buffer, or a new one is made for what is not sent yet
-- and them. `none` is a NULL buffer.
pub enqueue : Option Bytes → Conn → Conn
enqueue none c = c
enqueue (some buf) c =
    let left = c.send_buf_len - c.send_buf_offset in
    let kept = take left (drop c.send_buf_offset c.send_buf) in
    let fresh = record c {
      send_buf = kept ++ buf;
      send_buf_offset = 0;
      send_buf_cap = length buf + left;
      send_buf_len = length buf + left;
    } in
    let joined = record c {
      send_buf = write_at c.send_buf_len buf c.send_buf;
      send_buf_len = c.send_buf_len + length buf;
    } in
    if ltb (c.send_buf_cap - c.send_buf_len) (length buf) then fresh else joined

-- What the loop of send leaves: the connection, the bytes that the socket took, and the events.
pub record Sending : Type 0 where
  pub conn : Conn
  pub bytes : Bytes
  pub events : List Event

abbrev pub after_write : Bytes → Sending → Sending
after_write bs s = record s { bytes = bs ++ s.bytes }

-- The second half of send, by the answers of `write`, which reports at most what it was given. The
-- assertion refuses a write of no byte. `net` is the virtual isNet.
pub send_loop : Bool → List Answer → Conn → Outcome Sending
send_loop net [] c = hang
send_loop net (eagain ∷ answers) c =
    ok (record { conn = c; bytes = []; events = add_write c.fd ∷ [] })
send_loop net (failed ∷ answers) c =
    ok (record { conn = c; bytes = []; events = conn_close c.fd ∷ [] })
send_loop net (wrote n ∷ answers) c =
    let left = c.send_buf_len - c.send_buf_offset in
    let k = min n (min send_size left) in
    let bs = take k (drop c.send_buf_offset c.send_buf) in
    let c' = record c { send_buf_offset = c.send_buf_offset + k } in
    let full : Sending = record {
      conn = record c { send_buf_offset = 0; send_buf_len = 0 };
      bytes = bs;
      events = if net then qps 3 c'.send_buf_offset ∷ [] else [];
    } in
    let more = send_loop net answers c' >>= λ s. ok (after_write bs s) in
    if k == 0 then abort else (if leb c.send_buf_len c'.send_buf_offset then ok full else more)

-- connObj::send with a buffer or with NULL and 0.
pub send : Bool → List Answer → Option Bytes → Conn → Outcome Sending
send net answers buf c =
    let size : ℕ = elim buf [ none ↦ 0 | some bs ↦ length bs ] in
    let idle : Sending = record { conn = c; bytes = []; events = [] } in
    if c.bclose || (size == 0 && c.send_buf_len == 0)
    then ok idle
    else send_loop net answers (enqueue buf c)

-- _OnRead: the number that it returns tells how it ended. A `read` into a full buffer asks for no
-- byte and gets none, which looks like the end of the stream.
pub raw_on_read : ReadAnswer → Conn → Conn × ℕ × List Event
raw_on_read answer c =
    let took = λ (bs : Bytes). record c {
      chk_read_zero = false;
      net_buffer = write_at c.net_offset bs c.net_buffer;
      net_offset = c.net_offset + length bs;
    } in
    let size = λ (bs : Bytes). length bs + c.net_offset in
    let by_size : Bytes → Conn × ℕ × List Event = λ bs.
      if ltb (size bs) buffer_size
      then (took bs, 3, [])
      else (if size bs == buffer_size then (took bs, 4, []) else (c, 0, [])) in
    let full = leb recv_buffer_size c.net_offset in
    let answer' = if full then closed else answer in
    if c.bclose then (c, 0, []) else elim answer' [
      | Tcp.failed ↦ (c, 0, conn_close c.fd ∷ [])
      | Tcp.eagain ↦ (record c { chk_read_zero = true }, 1, [])
      | closed ↦ if c.chk_read_zero then (c, 0, conn_close c.fd ∷ []) else by_size []
      | got bs ↦ by_size bs
    ]

-- resetBuffer.
pub reset_buffer : Conn → Conn
reset_buffer c = if leb c.net_offset c.read_offset then record c { net_offset = 0 } else record c {
  net_buffer = move_down c.read_offset (c.net_offset - c.read_offset) c.net_buffer;
  net_offset = c.net_offset - c.read_offset;
}

-- connNetObj::dealMsg: the number of a message says where it goes. Any other number is fatal.
pub deal_msg : ℕ → ℕ → Bytes → Outcome Event
deal_msg pid msgid body =
    if ltb msgid 1999
    then ok (msg2gate pid msgid body)
    else (if leb 2000 msgid && ltb msgid 2999 then ok (msg2game pid msgid body) else abort)

-- connRpcObj::dealRpcMsg: a TakeProxy is only logged.
pub deal_rpc_msg : RpcObj → List Event
deal_rpc_msg obj = if eq_bytes (get_target obj) (codes "TakeProxy") then [] else rpc_call obj ∷ []

-- The end of parseBuff where less than a head is left: it moves to the start of the buffer.
pub keep_partial : Conn → Conn
keep_partial c = record c {
  net_buffer = move_down c.read_offset (c.net_offset - c.read_offset) c.net_buffer;
  net_offset = c.net_offset - c.read_offset;
}

abbrev pub Parsed : Type 0
Parsed = Conn × List Event

abbrev pub and_then : List Event → Parsed → Parsed
and_then es r = (r.0, es ++ r.1)

-- The loop of connNetObj::parseBuff, on fuel. `net` is netServer::isNet.
pub net_loop : Bool → ℕ → Conn → Outcome Parsed
net_loop net zero c = hang
net_loop net (suc fuel) c =
    let left = c.net_offset - c.read_offset in
    let size = le_value 4 (drop c.read_offset c.net_buffer) in
    let msgid = le_value 4 (drop (c.read_offset + 4) c.net_buffer) in
    let body = take size (drop (c.read_offset + 8) c.net_buffer) in
    let counted = if net then qps 4 (size + 8) ∷ [] else [] in
    let next = deal_msg c.pid msgid body >>= λ e.
    net_loop net fuel (record c { read_offset = c.read_offset + size + 8 }) >>= λ r.
    ok (and_then (counted ++ (e ∷ [])) r) in
    if ltb left 8
    then ok (keep_partial c, [])
    else (if ltb (left - 8) size
        then ok (c, [])
        else (if leb max_message size then ok (c, conn_close c.fd ∷ []) else next))

-- The loop of connRpcObj::parseBuff.
pub rpc_loop : ℕ → Conn → Outcome Parsed
rpc_loop zero c = hang
rpc_loop (suc fuel) c =
    let left = c.net_offset - c.read_offset in
    let size = le_value 4 (drop c.read_offset c.net_buffer) in
    let next : Outcome Parsed = elim (decode_buffer (drop c.read_offset c.net_buffer)) [
      | none ↦ abort
      | some obj ↦ rpc_loop fuel (record c { read_offset = c.read_offset + size + 4 }) >>= λ r.
          ok (and_then (deal_rpc_msg obj) r)
    ] in
    if ltb left 4
    then ok (keep_partial c, [])
    else (if ltb (left - 4) size
        then ok (c, [])
        else (if leb max_message size then ok (c, conn_close c.fd ∷ []) else next))

-- parseBuff of both classes, by `game`, the virtual isGame: the flag says whether there was anything.
pub parse_buff : Bool → Bool → ℕ → Conn → Outcome (Bool × Conn × List Event)
parse_buff game net now c =
    let c' = record c { last_sec = now; read_offset = 0 } in
    let run = if game then rpc_loop (suc c.net_offset) c' else net_loop net (suc c.net_offset) c' in
    if c.net_offset == 0 then ok (false, c, []) else (run >>= λ r. ok (true, r.0, r.1))

-- connObj::OnRead: the result says whether the connection stays in the list of those to be read.
pub on_read : Bool → Bool → ℕ → ReadAnswer → Conn → Outcome (ℕ × Conn × List Event)
on_read game net now answer c =
    let (c₁, ret, es) = raw_on_read answer c in
    let first = if ret == 0 || ret == 1 then 0 else 1 in
    let run = parse_buff game net now c₁ >>= λ r.
    let stale = not r.0 && leb 5 (now - r.1.last_sec) in
    ok (if stale then 0 else first, reset_buffer r.1, es ++ r.2) in
    if c.bclose then ok (0, c, []) else run

-- connNetObj::IsTimeout, in whole seconds.
unfoldable pub is_timeout : ℕ → Conn → Bool
is_timeout now c = not (c.last_sec == 0) && leb 11 (now - c.last_sec)
