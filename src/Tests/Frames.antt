-- ===== src/Tests/Frames.antt =====
-- Frames between the servers: the theorems of Wire, SendQueue and Tcp at two small calls.
use kcpserver_cpp.Common.{
  ◌+◌, ◌-◌, ◌≡◌, ◌≤◌, ◌<◌, ◌↔◌, refl, true, none, some, List, [], ◌∷◌, ◌++◌, arith, Bytes, codes,
  length, ok, abort,
}
use kcpserver_cpp.Wire.{decode_buffer, encode_buffer, get_rpc_size, put_text}
use kcpserver_cpp.Wire.RoundTrip.{IsFrame, sent, decode-encode}
use kcpserver_cpp.SendQueue.{
  Answer, wrote, eagain, Sender, Dealt, deal_send, append_send, rpc_buff_size, deal_from,
  deal_queue, dosend, push_sendcache,
}
use kcpserver_cpp.SendQueue.Order.{waiting, cached, deal_send_in_order, deal_send_twice}
use kcpserver_cpp.SendQueue.Progress.{deal_send_returns}
use kcpserver_cpp.SendQueue.Append.{append_send_fails_iff}
use kcpserver_cpp.Tcp.Stream.{Call, AreFrames}

abbrev pub new_room_call : Call
new_room_call = record {
  name = codes "gate";
  target = codes "NewRoom";
  pid = 7;
  msgid = 0;
  body = codes "1,2|3,4|66|0,1";
}

abbrev pub over_call : Call
over_call = record { name = codes "gate"; target = codes "OverRoom"; pid = 7; msgid = 1; body = [] }

new_room_IsFrame :
    IsFrame new_room_call.name new_room_call.target new_room_call.pid new_room_call.msgid
      new_room_call.body
new_room_IsFrame = record {
  name_fits = omega arith;
  target_fits = omega arith;
  pid_fits = omega arith;
  msgid_fits = omega arith;
  size_fits = omega arith;
}

pub over_IsFrame :
    IsFrame over_call.name over_call.target over_call.pid over_call.msgid over_call.body
over_IsFrame = record {
  name_fits = omega arith;
  target_fits = omega arith;
  pid_fits = omega arith;
  msgid_fits = omega arith;
  size_fits = omega arith;
}

decode-encode_example :
    decode_buffer
      (encode_buffer (codes "gate") (codes "NewRoom") 7 0 (codes "1,2|3,4|66|0,1") ++ (9 ∷ []))
    ≡ some (sent (codes "gate") (codes "NewRoom") 7 0 (codes "1,2|3,4|66|0,1"))
decode-encode_example =
    decode-encode (codes "gate") (codes "NewRoom") 7 0 (codes "1,2|3,4|66|0,1") (9 ∷ [])
      new_room_IsFrame

pub two_AreFrames : AreFrames (new_room_call ∷ over_call ∷ [])
two_AreFrames = ((new_room_IsFrame, omega arith), ((over_IsFrame, omega arith), tt))

-- A full cache in the queue, and a current one.
abbrev two_caches : Sender
two_caches = record { send_cache_queue = (1 ∷ 2 ∷ []) ∷ []; send_cache = some (3 ∷ []); pool = 0 }

abbrev emptied : Dealt
emptied = record {
  succ = true;
  bytes = 1 ∷ 2 ∷ 3 ∷ [];
  answers = [];
  sender = record { send_cache_queue = []; send_cache = none; pool = 2 };
}

abbrev takes_all : List Answer
takes_all = wrote 1 ∷ eagain ∷ wrote 5 ∷ wrote 5 ∷ []

two_caches_sent : deal_send takes_all two_caches ≡ ok emptied
unfolding deal_send deal_from deal_queue dosend push_sendcache
two_caches_sent = refl

deal_send_in_order_example :
    (lost : Bytes) × (waiting two_caches ≡ emptied.bytes ++ (lost ++ waiting emptied.sender))
    × (emptied.succ ≡ true → (lost ≡ []) × (waiting emptied.sender ≡ []))
deal_send_in_order_example = deal_send_in_order takes_all two_caches emptied two_caches_sent

deal_send_twice_example : deal_send [] emptied.sender ≡ abort
deal_send_twice_example =
    deal_send_twice takes_all [] two_caches emptied (λ e. cc) two_caches_sent refl

fits : length (encode_buffer (codes "gate") (codes "OverRoom") 7 1 []) ≤ rpc_buff_size
unfolding encode_buffer put_text get_rpc_size
fits = omega arith

append_send_fails_iff_example :
    (append_send (codes "gate") (codes "OverRoom") 7 1 [] two_caches ≡ abort) ↔ (
      (get_rpc_size (codes "gate") (codes "OverRoom") []
        ≤ rpc_buff_size - length (cached (some (3 ∷ []))))
      × (rpc_buff_size - length (cached (some (3 ∷ [])))
          < get_rpc_size (codes "gate") (codes "OverRoom") [] + 4))
append_send_fails_iff_example =
    append_send_fails_iff (codes "gate") (codes "OverRoom") 7 1 [] two_caches over_IsFrame fits

deal_send_returns_example :
    (r : Dealt) × (deal_send takes_all two_caches ≡ ok r)
    × (r.succ ≡ true)
    × (r.bytes ≡ waiting two_caches)
    × (waiting r.sender ≡ [])
deal_send_returns_example =
    deal_send_returns takes_all two_caches (omega arith, (omega arith, (omega arith, tt)))
      (omega arith) (omega arith)
