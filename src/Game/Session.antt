-- ===== src/Game/Session.antt =====
-- kcpsess/sessServer.cpp: what a session does with what it received, and the update of all sessions.
pub mod Dealing
pub mod Delivery
pub mod Keeping
use kcpserver_cpp.Common.{
  ℕ, u32, ◌+◌, ◌-◌, ◌*◌, ◌/◌, ◌%◌, ◌^◌, true, false, not, Option, none, some, [], ◌∷◌, ◌++◌, ◌==◌,
  ltb, if◌then◌else◌, Bytes, le_value, length, take, drop, lookup, Map, Outcome, ok, abort, ◌>>=◌,
}
use kcpserver_cpp.Game.State.{UdpConn, store, Game, Proto, qps, emit}
use kcpserver_cpp.Tcp.{write_at, move_down}
use kcpserver_cpp.Game.Rpc.{process_kcp}

abbrev pub conn : Game → ℕ → UdpConn
conn g a = g.kcp.conns.cell a

abbrev pub set_conn : ℕ → UdpConn → Game → Game
set_conn a c g = record g { kcp = record (g.kcp) { conns = store g.kcp.conns a c } }

-- UDPConn::setRead, called for every datagram that was read.
unfoldable pub set_read : ℕ → Game → Game
set_read a g = set_conn a (record (conn g a) { bread = true }) g

-- BUFF_CACHE_SIZE.
abbrev pub cache_size : ℕ
cache_size = 16 * 1024

-- ikcp_recv writes what came into the cache, behind m_offset.
abbrev pub put_cache : ℕ → Bytes → Game → Game
put_cache a recv g =
    let c = conn g a in set_conn a (record c { cache = write_at c.offset recv c.cache }) g

-- The end of OnDealMsg: `len` is computed in an unsigned int, what is behind the message moves to the
-- start of the cache, and the assertion wants m_offset to be 0. Where less came than `len`, the size
-- of the move wraps, and it runs out of the memory.
unfoldable pub shift_cache : ℕ → ℕ → ℕ → Game → Outcome Game
shift_cache a nread bodylen g =
    let c = conn g a in
    let len = u32 (16 + bodylen) in
    let offset = u32 (c.offset + (nread - len)) in
    let moved = record c { cache = move_down len (nread - len) c.cache; offset = offset } in
    if ltb nread len then abort else (if offset == 0 then ok (set_conn a moved g) else abort)

-- OnDealMsg on the bytes of `ikcp_recv`. The head is the size of the body, the number of the message
-- and the room and the player; it is read from the cache, so where less than a head came the rest is
-- what stood there before. Bytes that do not fit behind m_offset are refused with a negative number,
-- which is not one as a size_t, and the move at the end runs out of the memory.
pub deal_bytes : Proto → ℕ → Bytes → Game → Outcome (Game × ℕ)
deal_bytes proto a recv g =
    let c = conn g a in
    let there = drop c.offset (write_at c.offset recv c.cache) in
    let g₁ = put_cache a recv g in
    let bodylen = le_value 4 there in
    let msgid = le_value 4 (drop 4 there) in
    let ppid = le_value 8 (drop 8 there) in
    let body = take bodylen (drop 16 there) in
    let dealt = process_kcp proto msgid body (ppid % 2 ^ 32) c.id (ppid / 2 ^ 32) g₁ >>= λ g₂.
    shift_cache a (length recv) bodylen (emit (qps 4 bodylen) g₂) >>= λ g₃. ok (g₃, 0) in
    if ltb (cache_size - c.offset) (length recv)
    then abort
    else (if ltb (length recv) bodylen then ok (g₁, 2 ^ 32 - 3) else dealt)

-- OnDealMsg with `inbox`, what the session has received: nothing, or a message of KCP.
pub on_deal_msg : Proto → ℕ → Option Bytes → Game → Outcome (Game × ℕ)
on_deal_msg proto a inbox g =
    let g₁ = set_conn a (record (conn g a) { bread = false }) g in
    if not (conn g a).bread then ok (g, 0) else elim inbox [
      | none ↦ ok (g₁, 2 ^ 32 - 1)
      | some recv ↦
          if ltb cache_size (length recv) then ok (g₁, 2 ^ 32 - 2) else deal_bytes proto a recv g₁
    ]

-- KCPServer::Update. A session that an earlier one has closed is passed over.
unfoldable pub update_conns : Proto → (ℕ → Option Bytes) → Map ℕ → Game → Outcome Game
update_conns proto inbox [] g = ok g
update_conns proto inbox ((fd, _) ∷ rest) g = elim (lookup fd g.kcp.map_conn) [
  | none ↦ update_conns proto inbox rest g
  | some a ↦ on_deal_msg proto a (inbox a) g >>= λ r. update_conns proto inbox rest r.0
]

unfoldable pub update : Proto → (ℕ → Option Bytes) → Game → Outcome Game
update proto inbox g = update_conns proto inbox g.kcp.map_conn g
