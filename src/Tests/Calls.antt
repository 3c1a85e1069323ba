-- ===== src/Tests/Calls.antt =====
-- Calls between the servers: two on their whole way to the queue of a tcpclient, and two at the
-- connection of a game server.
use kcpserver_cpp.Common.{
  codes, arith, ◌+◌, ◌<◌, ◌≡◌, refl, inl, true, false, length, none, some, List, [], ◌∷◌, ◌++◌, map,
  Bytes, take, drop, ok,
}
use kcpserver_cpp.Wire.{encode_buffer, get_rpc_size, put_text}
use kcpserver_cpp.SendQueue.{
  Answer, wrote, eagain, Sender, Dealt, deal_send, append_send, deal_from, deal_queue, dosend,
  push_sendcache, pop_sendcache, current, make_room, put_frame,
}
use kcpserver_cpp.Tcp.{Receiver, ReadAnswer, got, eagain}
use kcpserver_cpp.Tcp.Stream.{Call, object_of, stream}
use kcpserver_cpp.Tcp.Fragments.{receive, arrived}
use kcpserver_cpp.Tcp.Delivery.{send_calls, calls_arrive}
use kcpserver_cpp.Wire.RoundTrip.{IsFrame}
use kcpserver_cpp.Conn.{Conn, max_message, reset_buffer, parse_buff}
use kcpserver_cpp.Conn.Calls.{handled, kept, parse_buff_calls}
use kcpserver_cpp.Tests.Frames.{new_room_call, over_call, over_IsFrame, two_AreFrames}
use kcpserver_cpp.Tests.Connections.{conn_with}

abbrev two_calls : List Call
two_calls = new_room_call ∷ over_call ∷ []

abbrev pub idle : Sender
idle = record { send_cache_queue = []; send_cache = none; pool = 1 }

abbrev both_wait : Sender
both_wait = record { send_cache_queue = []; send_cache = some (stream two_calls); pool = 0 }

both_taken : send_calls two_calls idle ≡ ok both_wait
unfolding send_calls append_send encode_buffer put_text get_rpc_size current make_room put_frame
    pop_sendcache
both_taken = refl

abbrev both_sent : Dealt
both_sent = record {
  succ = true;
  bytes = stream two_calls;
  answers = [];
  sender = record { send_cache_queue = []; send_cache = none; pool = 1 };
}

-- The socket takes seven bytes, then as many as it gets.
abbrev in_two : List Answer
in_two = wrote 7 ∷ eagain ∷ wrote 500 ∷ []

both_dealt : deal_send in_two both_wait ≡ ok both_sent
unfolding deal_send deal_from deal_queue dosend push_sendcache encode_buffer put_text get_rpc_size
both_dealt = refl

-- Three pieces come: a part of the first frame's size, the rest of it with a part of the second
-- frame, and what is left.
abbrev pieces : List ReadAnswer
pieces =
    got (take 3 (stream two_calls))
    ∷ eagain
    ∷ got (take 77 (drop 3 (stream two_calls)))
    ∷ got (drop 80 (stream two_calls))
    ∷ []

abbrev on_its_way : Bytes
on_its_way = []

all_came : arrived pieces ++ on_its_way ≡ both_sent.bytes
unfolding encode_buffer put_text get_rpc_size
all_came = refl

calls_arrive_example :
    (whole rest : List Call) × (r' : Receiver) × (receive pieces
        (record { recv_buffer = []; recv_offset = 0; que_rpc_obj = [] })
      ≡ ok r')
    × (two_calls ≡ whole ++ rest)
    × (r'.que_rpc_obj ≡ [] ++ map object_of whole)
    × (both_sent.succ ≡ true → on_its_way ≡ [] → (rest ≡ []) × (r'.recv_offset ≡ 0))
calls_arrive_example =
    calls_arrive two_calls idle both_wait in_two both_sent pieces [] on_its_way [] two_AreFrames
      refl both_taken both_dealt (tt) all_came

abbrev proxy_call : Call
proxy_call = record {
  name = codes "net1";
  target = codes "TakeProxy";
  pid = 0;
  msgid = 0;
  body = [];
}

proxy_IsFrame :
    IsFrame proxy_call.name proxy_call.target proxy_call.pid proxy_call.msgid proxy_call.body
proxy_IsFrame = record {
  name_fits = omega arith;
  target_fits = omega arith;
  pid_fits = omega arith;
  msgid_fits = omega arith;
  size_fits = omega arith;
}

small_size :
    (get_rpc_size proxy_call.name proxy_call.target proxy_call.body < max_message)
    × (get_rpc_size over_call.name over_call.target over_call.body < max_message)
unfolding get_rpc_size
small_size = (omega arith, omega arith)

-- What a server sends first, a call, and three bytes of the next size, which are lost.
abbrev proxy_and_over : List Call
proxy_and_over = proxy_call ∷ over_call ∷ []

abbrev begun : Bytes
begun = 9 ∷ 9 ∷ 9 ∷ []

abbrev proxied : Conn
proxied = conn_with (stream proxy_and_over ++ begun) (length (stream proxy_and_over) + 3)

some_there : 0 < proxied.net_offset
some_there = omega arith

parse_buff_calls_example :
    (c' : Conn) × (parse_buff true false 50 proxied ≡ ok (true, c', handled proxy_and_over))
    × ((reset_buffer c').net_offset ≡ kept proxy_and_over 3)
    × (take (kept proxy_and_over 3) (reset_buffer c').net_buffer
        ≡ take (kept proxy_and_over 3) begun)
parse_buff_calls_example =
    parse_buff_calls false 50 3 proxy_and_over begun proxied refl
      ((proxy_IsFrame, small_size.0), ((over_IsFrame, small_size.1), tt)) (inl (omega arith))
      (omega arith) refl some_there
