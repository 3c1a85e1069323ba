-- ===== src/Tcp.antt =====
-- tcpclient.cpp: the connections to the gate and the other servers, as far as they receive.
pub mod Stream
pub mod Clients
pub mod Fragments
pub mod Delivery
use kcpserver_cpp.Common.{
  ℕ, zero, suc, ◌+◌, ◌-◌, ◌*◌, ◌^◌, Bool, true, false, Option, none, some, List, [], ◌∷◌, ◌++◌,
  ◌==◌, ltb, leb, if◌then◌else◌, Bytes, le_value, length, take, drop, Outcome, ok, abort, hang,
  ◌>>=◌, lookup, Map,
}
use kcpserver_cpp.Wire.{RpcObj, decode_buffer}
use kcpserver_cpp.SendQueue.{rpc_buff_size}

-- The receiving half of a tcpclient: m_recvBuffer, m_recvOffset and m_queRpcObj.
pub record Receiver : Type 0 where
  pub recv_buffer : Bytes
  pub recv_offset : ℕ
  pub que_rpc_obj : List RpcObj

-- memcpy of `bs` to the offset `off` of `mem`, and memmove of the `n` bytes at `off` to its start.
abbrev pub write_at : ℕ → Bytes → Bytes → Bytes
write_at off bs mem = take off mem ++ (bs ++ drop (off + length bs) mem)

abbrev pub move_down : ℕ → ℕ → Bytes → Bytes
move_down off n mem = take n (drop off mem) ++ drop n mem

-- How `read` answers: some bytes, the end of the stream, EAGAIN, or another error.
pub data ReadAnswer : Type 0 where
  got : Bytes → ReadAnswer
  closed : ReadAnswer
  eagain : ReadAnswer
  failed : ReadAnswer

-- OnRead: the new state, and what it returns; `none` is -1, where the connection is dropped.
unfoldable pub on_read : ReadAnswer → Receiver → Receiver × Option ℕ
on_read answer r = if leb rpc_buff_size r.recv_offset then (r, some 1) else elim answer [
  | got bs ↦ (
    record r {
      recv_buffer = write_at r.recv_offset bs r.recv_buffer;
      recv_offset = r.recv_offset + length bs;
    },
    some 2,
  )
  | closed ↦ (r, none)
  | eagain ↦ (r, some 1)
  | failed ↦ (r, none)
]

-- The offset behind a frame. The size is an `int`: a negative one leads back, and the program reads
-- in front of its buffer where the offset would be negative, which is `none`.
pub next_offset : ℕ → ℕ → Option ℕ
next_offset offset bodylen =
    if ltb bodylen (2 ^ 31)
    then some (offset + 4 + bodylen)
    else (if leb (2 ^ 32) (offset + 4 + bodylen)
        then some (offset + 4 + bodylen - 2 ^ 32)
        else none)

-- Is the frame still incomplete? A negative size is below what is there, unless 4 + size is not.
pub incomplete : ℕ → ℕ → Bool
incomplete left bodylen = if ltb bodylen (2 ^ 31) then ltb left (4 + bodylen) else false

-- The loop of dealReadBuffer, on fuel: it ends at an offset with the frames that it found.
pub read_loop : ℕ → Bytes → ℕ → ℕ → Outcome (ℕ × List RpcObj)
read_loop zero mem recv offset = hang
read_loop (suc fuel) mem recv offset =
    let bodylen = le_value 4 (drop offset mem) in
    let next : Outcome (ℕ × List RpcObj) = elim (decode_buffer (drop offset mem)) [
      | none ↦ abort
      | some obj ↦ elim (next_offset offset bodylen) [
        | none ↦ abort
        | some offset' ↦ read_loop fuel mem recv offset' >>= λ r. ok (r.0, obj ∷ r.1)
      ]
    ] in
    if ltb (recv - offset) 4
    then ok (offset, [])
    else (if incomplete (recv - offset) bodylen then ok (offset, []) else next)

-- dealReadBuffer: the frames join the queue, and what is left moves to the start of the buffer.
pub deal_read_buffer : Receiver → Outcome Receiver
deal_read_buffer r =
    let done = read_loop (suc r.recv_offset) r.recv_buffer r.recv_offset 0 >>= λ d. ok (record {
      recv_buffer = move_down d.0 (r.recv_offset - d.0) r.recv_buffer;
      recv_offset = r.recv_offset - d.0;
      que_rpc_obj = r.que_rpc_obj ++ d.1;
    }) in
    if r.recv_offset == 0 then ok r else done
