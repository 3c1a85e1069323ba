-- ===== src/Tests/Connections.antt =====
-- A client's connection: the theorems of Conn at small buffers.
use kcpserver_cpp.Common.{
  ℕ, ◌≡◌, inl, inr, refl, true, false, some, List, [], ◌∷◌, ◌++◌, arith, take, ok,
}
use kcpserver_cpp.SendQueue.{wrote, eagain}
use kcpserver_cpp.Conn.{Conn, Sending, reset_buffer, parse_buff, send}
use kcpserver_cpp.Conn.Receive.{Message, stream, kept, deliveries, parse_buff_delivers}
use kcpserver_cpp.Conn.Transmit.{pending, IsBuffer, send_in_order}

abbrev pub conn_with : List ℕ → ℕ → Conn
conn_with buffer offset = record {
  fd = 4;
  pid = 7;
  rpc = false;
  bclose = false;
  last_sec = 0;
  send_buf = 1 ∷ 2 ∷ 3 ∷ 0 ∷ [];
  send_buf_cap = 4;
  send_buf_offset = 1;
  send_buf_len = 3;
  net_buffer = buffer;
  net_offset = offset;
  read_offset = 0;
  chk_read_zero = false;
}

abbrev two_messages : List Message
two_messages = record { msgid = 100; body = 5 ∷ 6 ∷ [] } ∷ record { msgid = 2001; body = [] } ∷ []

-- Two messages, and three bytes of a head, which are lost.
parse_buff_delivers_example :
    (c' : Conn) × (parse_buff false true 50 (conn_with (stream two_messages ++ (9 ∷ 9 ∷ 9 ∷ [])) 21)
      ≡ ok (true, c', deliveries true 7 two_messages))
    × ((reset_buffer c').net_offset ≡ kept two_messages 3)
    × (take (kept two_messages 3) (reset_buffer c').net_buffer
        ≡ take (kept two_messages 3) (9 ∷ 9 ∷ 9 ∷ []))
parse_buff_delivers_example =
    parse_buff_delivers true 50 3 two_messages (9 ∷ 9 ∷ 9 ∷ [])
      (conn_with (stream two_messages ++ (9 ∷ 9 ∷ 9 ∷ [])) 21) refl
      ((omega arith, inl (omega arith)), ((omega arith, inr (omega arith, omega arith)), tt))
      (inl (omega arith)) (omega arith) (omega arith) (omega arith)

-- Two bytes wait, and four more come, for which there is no room in the old buffer.
send_in_order_example :
    (r : Sending) × (send true
        (wrote 3 ∷ eagain ∷ wrote 1 ∷ wrote 1 ∷ wrote 1 ∷ wrote 1 ∷ wrote 1 ∷ [])
        (some (4 ∷ 5 ∷ 6 ∷ 7 ∷ []))
        (conn_with [] 0)
      ≡ ok r)
    × (pending (conn_with [] 0) ++ (4 ∷ 5 ∷ 6 ∷ 7 ∷ []) ≡ r.bytes ++ pending r.conn)
    × IsBuffer r.conn
send_in_order_example =
    send_in_order true (wrote 3 ∷ eagain ∷ wrote 1 ∷ wrote 1 ∷ wrote 1 ∷ wrote 1 ∷ wrote 1 ∷ [])
      (4 ∷ 5 ∷ 6 ∷ 7 ∷ []) (conn_with [] 0)
      (omega arith, omega arith, refl, λ e. absurd (omega arith)) refl
      (omega arith, (omega arith, (omega arith, (omega arith, (omega arith, (omega arith, tt))))))
      (omega arith)
