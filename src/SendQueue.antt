-- ===== src/SendQueue.antt =====
-- recvBuff.cpp, sendCache, with the two users of its queue that have the same code: tcpclient
-- (AppendSend, dealSend) and connRpcObj (rpcCallNet, dealSend).
-- A cache is the list of the bytes written into it, so its offset is their number.
pub mod Order
pub mod Append
pub mod Progress
use kcpserver_cpp.Common.{
  ℕ, zero, suc, ◌+◌, ◌-◌, ◌*◌, ◌≡◌, Bool, true, false, ◌&&◌, Option, none, some, List, [], ◌∷◌,
  ◌++◌, ◌==◌, ltb, leb, min, if◌then◌else◌, Bytes, length, is_empty, take, drop, Outcome, ok, abort,
  hang, ◌>>=◌,
}
use kcpserver_cpp.Wire.{get_rpc_size, encode_buffer}

-- RPC_BUFF_SIZE, and the most that one `write` is given.
abbrev pub rpc_buff_size : ℕ
rpc_buff_size = 4 * 1024 * 1024

abbrev pub send_size : ℕ
send_size = 64 * 1024

-- How `write` answers: so many bytes, EAGAIN, or another error.
pub data Answer : Type 0 where
  wrote : ℕ → Answer
  eagain : Answer
  failed : Answer

-- What dosend leaves: did it succeed, what reached the socket, and the answers still to come.
pub record Sent : Type 0 where
  pub succ : Bool
  pub bytes : Bytes
  pub answers : List Answer

abbrev pub before : Bytes → Sent → Sent
before bs s = record s { bytes = bs ++ s.bytes }

-- dosend from the offset on, where `buf` is what is left. `write` reports at most what it was given.
unfoldable pub dosend : List Answer → Bytes → Outcome Sent
dosend answers [] = ok (record { succ = true; bytes = []; answers = answers })
dosend [] (b ∷ bs) = hang
dosend (eagain ∷ answers) (b ∷ bs) = dosend answers (b ∷ bs)
dosend (failed ∷ answers) (b ∷ bs) = ok (record { succ = false; bytes = []; answers = answers })
dosend (wrote n ∷ answers) (b ∷ bs) =
    let k = min n (min send_size (length (b ∷ bs))) in
    dosend answers (drop k (b ∷ bs)) >>= λ s. ok (before (take k (b ∷ bs)) s)

-- m_sendCacheQueue and m_pSendCache; `pool` is the number of caches in tcpclientMgr's pool.
pub record Sender : Type 0 where
  pub send_cache_queue : List Bytes
  pub send_cache : Option Bytes
  pub pool : ℕ

-- popSendcache gives an empty cache: pushSendcache clears it, and a new one is clear.
unfoldable pub pop_sendcache : Sender → Sender × Bytes
pop_sendcache s = (record s { pool = s.pool - 1 }, [])

unfoldable pub push_sendcache : Sender → Sender
push_sendcache s = record s { pool = s.pool + 1 }

-- The cache that a call writes to: the current one or a new one.
unfoldable pub current : Sender → Sender × Bytes
current s = elim s.send_cache [ none ↦ pop_sendcache s | some c ↦ (s, c) ]

-- The cache is queued, and a new one begun, if the size of the frame is more than its room.
unfoldable pub make_room : ℕ → Sender → Bytes → Sender × Bytes
make_room need s c =
    if ltb (rpc_buff_size - length c) need
    then pop_sendcache (record s { send_cache_queue = s.send_cache_queue ++ (c ∷ []) })
    else (s, c)

-- The assertion, and the write. `need` does not count the four bytes of the size itself, so a frame
-- can pass the assertion and still be written past the end of the cache, which is not defined.
unfoldable pub put_frame : ℕ → Bytes → Sender → Bytes → Outcome Sender
put_frame need frame s c =
    if ltb need (rpc_buff_size - length c) && leb (length c + length frame) rpc_buff_size
    then ok (record s { send_cache = some (c ++ frame) })
    else abort

-- tcpclient::AppendSend and connRpcObj::rpcCallNet.
unfoldable pub append_send : Bytes → Bytes → ℕ → ℕ → Bytes → Sender → Outcome Sender
append_send name target pid msgid body s =
    let need = get_rpc_size name target body in
    let (s₁, c₁) = current s in
    let (s₂, c₂) = make_room need s₁ c₁ in
    put_frame need (encode_buffer name target pid msgid body) s₂ c₂

-- The loop of dealSend over the queue. The result says whether every write went well; after an
-- error the caches behind stay in the queue. What the two classes then do with the connection is
-- done on that result: tcpclient's DelConn by deal_clients (Tcp/Clients/Threads), connRpcObj's
-- OnClose by rpc_deal_send (Main).
pub record Dealt : Type 0 where
  pub succ : Bool
  pub bytes : Bytes
  pub answers : List Answer
  pub sender : Sender

abbrev pub requeue : List Bytes → Sender → Sender
requeue rest s = record s { send_cache_queue = rest }

unfoldable pub deal_queue : List Answer → List Bytes → Sender → Outcome Dealt
deal_queue answers [] s =
    ok (record { succ = true; bytes = []; answers = answers; sender = requeue [] s })
deal_queue answers ([] ∷ rest) s = deal_queue answers rest (push_sendcache s)
deal_queue answers ((b ∷ bs) ∷ rest) s = dosend answers (b ∷ bs) >>= λ d.
    let stop : Dealt = record {
      succ = false;
      bytes = d.bytes;
      answers = d.answers;
      sender = requeue rest (push_sendcache s);
    } in
    let go = deal_queue d.answers rest (push_sendcache s) in
    elim d.succ [
      | false ↦ ok stop
      | true ↦ go >>= λ r. ok (record r { bytes = d.bytes ++ r.bytes })
    ]

-- dealSend. With nothing queued it reads the offset of the current cache without asking whether
-- there is one.
unfoldable pub deal_from : List Answer → Option Bytes → List Bytes → Sender → Outcome Dealt
deal_from answers none [] s = abort
deal_from answers none (c ∷ cs) s = deal_queue answers (c ∷ cs) s
deal_from answers (some cur) queue s =
    let idle : Dealt = record { succ = true; bytes = []; answers = answers; sender = s } in
    if is_empty queue && is_empty cur
    then ok idle
    else deal_queue answers (queue ++ (cur ∷ [])) (record s { send_cache = none })

unfoldable pub deal_send : List Answer → Sender → Outcome Dealt
deal_send answers s = deal_from answers s.send_cache s.send_cache_queue s
