-- ===== src/Tests/Pushing.antt =====
-- Two messages of a game server to its clients, on their way through the net server.
use kcpserver_cpp.Common.{
  ◌≡◌, refl, true, none, some, List, [], ◌∷◌, ◌++◌, map, arith, Bytes, codes, take, drop, ok,
}
use kcpserver_cpp.Wire.{encode_buffer, get_rpc_size, put_text}
use kcpserver_cpp.Wire.RoundTrip.{IsFrame}
use kcpserver_cpp.SendQueue.{
  wrote, Sender, Dealt, deal_send, append_send, deal_from, deal_queue, dosend, push_sendcache,
  pop_sendcache, current, make_room, put_frame,
}
use kcpserver_cpp.Tcp.{Receiver, ReadAnswer, got}
use kcpserver_cpp.Tcp.Stream.{Call, AreFrames, stream}
use kcpserver_cpp.Tcp.Fragments.{receive, arrived}
use kcpserver_cpp.Tcp.Delivery.{send_calls}
use kcpserver_cpp.Tcp.Clients.Threads.{handle_all}
use kcpserver_cpp.Net.{Server}
use kcpserver_cpp.Net.Queue.{process}
use kcpserver_cpp.Game.State.{Out, call_net, qps}
use kcpserver_cpp.Main.Pushes.{Push, push_call, pushes_of, push_all, pushes_arrive}
use kcpserver_cpp.Tests.Calls.{idle}

abbrev game1 : Bytes
game1 = codes "game1"

abbrev outs : List Out
outs =
    call_net (codes "PushMsg2Client") 7 2001 (5 ∷ 6 ∷ [])
    ∷ qps 1 1
    ∷ call_net (codes "PushMsg2Client") 8 213 []
    ∷ []

abbrev pushed : List Call
pushed = map (push_call game1) (pushes_of outs)

first_IsFrame : IsFrame game1 (codes "PushMsg2Client") 7 2001 (5 ∷ 6 ∷ [])
first_IsFrame = record {
  name_fits = omega arith;
  target_fits = omega arith;
  pid_fits = omega arith;
  msgid_fits = omega arith;
  size_fits = omega arith;
}

second_IsFrame : IsFrame game1 (codes "PushMsg2Client") 8 213 []
second_IsFrame = record {
  name_fits = omega arith;
  target_fits = omega arith;
  pid_fits = omega arith;
  msgid_fits = omega arith;
  size_fits = omega arith;
}

pushed-AreFrames : AreFrames pushed
pushed-AreFrames = ((first_IsFrame, omega arith), ((second_IsFrame, omega arith), tt))

abbrev waits : Sender
waits = record { send_cache_queue = []; send_cache = some (stream pushed); pool = 0 }

taken : send_calls pushed idle ≡ ok waits
unfolding send_calls append_send encode_buffer put_text get_rpc_size current make_room put_frame
    pop_sendcache
taken = refl

abbrev all_sent : Dealt
all_sent = record {
  succ = true;
  bytes = stream pushed;
  answers = [];
  sender = record { send_cache_queue = []; send_cache = none; pool = 1 };
}

dealt : deal_send (wrote 900 ∷ []) waits ≡ ok all_sent
unfolding deal_send deal_from deal_queue dosend push_sendcache encode_buffer put_text get_rpc_size
dealt = refl

abbrev in_half : List ReadAnswer
in_half = got (take 50 (stream pushed)) ∷ got (drop 50 (stream pushed)) ∷ []

abbrev nothing_more : Bytes
nothing_more = []

came : arrived in_half ++ nothing_more ≡ all_sent.bytes
unfolding encode_buffer put_text get_rpc_size
came = refl

pushes_arrive_example :
    (first later : List Push) × (r' : Receiver) × (receive in_half
        (record { recv_buffer = []; recv_offset = 0; que_rpc_obj = [] })
      ≡ ok r')
    × (pushes_of outs ≡ first ++ later)
    × ((net : Server)
        → handle_all (process (λ fd. [])) r'.que_rpc_obj net ≡ push_all (λ fd. []) first net)
    × (all_sent.succ ≡ true → nothing_more ≡ [] → later ≡ [])
pushes_arrive_example =
    pushes_arrive game1 (λ fd. []) outs idle waits (wrote 900 ∷ []) all_sent in_half [] nothing_more
      pushed-AreFrames refl taken dealt (tt) came
