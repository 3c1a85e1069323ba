-- ===== src/Main/Pushes.antt =====
-- player.cpp, conn.cpp, tcpclient.cpp and rpchandle.cpp: what a game server pushes to its clients by
-- PushMsg2Client, on its way through the net server.
use kcpserver_cpp.Common.{
  ℕ, ◌≡◌, refl, sym, ◌∙◌, true, List, [], ◌∷◌, ◌++◌, map, Bytes, codes, eq_bytes, if◌then◌else◌,
  append_assoc, u32, Outcome, ok, ◌>>=◌, bind_cong, c_str,
}
use kcpserver_cpp.SendQueue.{Answer, Sender, Dealt, deal_send}
use kcpserver_cpp.SendQueue.Order.{waiting}
use kcpserver_cpp.Tcp.{Receiver, ReadAnswer}
use kcpserver_cpp.Tcp.Stream.{Call, object_of, AreFrames}
use kcpserver_cpp.Tcp.Fragments.{receive, arrived, StaysOpen}
use kcpserver_cpp.Tcp.Delivery.{send_calls, calls_arrive}
use kcpserver_cpp.Tcp.Clients.Threads.{handle_all}
use kcpserver_cpp.Net.{Server}
use kcpserver_cpp.Net.ConnMgr
use kcpserver_cpp.Game.State.{
  Game, Proto, Msg, Out, call_gate, call_net, kcp_send, kcp_input, close_fd, qps, emit, packet,
}
use kcpserver_cpp.Game.Player.{int_to_u64, send_pb_msg}
use kcpserver_cpp.Game.Player
use kcpserver_cpp.Net.Queue.{process, on_push_msg}
use kcpserver_cpp.Wire.{get_target}

-- What playerObj::sendMsg calls the net server with.
pub record Push : Type 0 where
  pub pid : ℕ
  pub msgid : ℕ
  pub body : Bytes

-- As a call of the server `name`.
abbrev pub push_call : Bytes → Push → Call
push_call name p = record {
  name = name;
  target = codes "PushMsg2Client";
  pid = p.pid;
  msgid = p.msgid;
  body = p.body;
}

-- The pushes among what leaves a game server.
abbrev pub pushes_of : List Out → List Push
pushes_of [] = []
pushes_of (call_net target pid msgid body ∷ outs) =
    (if eq_bytes target (codes "PushMsg2Client")
      then record { pid = pid; msgid = msgid; body = body } ∷ []
      else [])
    ++ pushes_of outs
pushes_of (_ ∷ outs) = pushes_of outs

pushes_of-append : (xs ys : List Out) → pushes_of (xs ++ ys) ≡ pushes_of xs ++ pushes_of ys
pushes_of-append [] ys = refl
pushes_of-append (call_net target pid msgid body ∷ xs) ys =
    rw (pushes_of-append xs ys) (sym (append_assoc _ (pushes_of xs) (pushes_of ys)))
pushes_of-append (call_gate target pid msgid body ∷ xs) ys = pushes_of-append xs ys
pushes_of-append (kcp_send a body ∷ xs) ys = pushes_of-append xs ys
pushes_of-append (kcp_input a body ∷ xs) ys = pushes_of-append xs ys
pushes_of-append (close_fd fd ∷ xs) ys = pushes_of-append xs ys
pushes_of-append (qps id size ∷ xs) ys = pushes_of-append xs ys

-- sendPbMsg pushes the message behind its head to the number of the player.
send_pb_msg-pushes :
    (proto : Proto) (p msgid : ℕ) (m : Msg) (g : Game)
    → pushes_of (send_pb_msg proto p msgid m g).trace
      ≡ pushes_of g.trace
        ++ (record {
          pid = int_to_u64 (g.players.players.cell p).pid;
          msgid = msgid;
          body = packet proto msgid m;
        }
            ∷ [])
unfolding send_pb_msg Player.send_msg emit
send_pb_msg-pushes proto p msgid m g = pushes_of-append g.trace _

-- Each body is sent to the connection with the number of its push.
unfoldable pub push_all : (ℕ → List Answer) → List Push → Server → Outcome Server
push_all socket [] s = ok s
push_all socket (p ∷ ps) s =
    ConnMgr.send_msg socket (u32 p.pid) p.body s >>= λ s'. push_all socket ps s'

module _ (name : Bytes) (socket : ℕ → List Answer) where
  one_push :
      (p : Push) (s : Server)
      → process socket (object_of (push_call name p)) s
        ≡ ConnMgr.send_msg socket (u32 p.pid) p.body s
  unfolding process on_push_msg get_target c_str
  one_push p s = refl

  handle_all-pushes :
      (ps : List Push) (s : Server)
      → handle_all (process socket) (map object_of (map (push_call name) ps)) s
        ≡ push_all socket ps s
  unfolding handle_all push_all
  handle_all-pushes [] s = refl
  handle_all-pushes (p ∷ ps) s =
      rw (one_push p s) (
        bind_cong (ConnMgr.send_msg socket (u32 p.pid) p.body s) _ _
          (λ s'. handle_all-pushes ps s'))

-- Two parts of a list of calls are the calls of two parts.
parted :
    (f : Push → Call) (ps : List Push) (xs ys : List Call)
    → map f ps ≡ xs ++ ys
    → (first later : List Push) × (ps ≡ first ++ later) × (xs ≡ map f first) × (ys ≡ map f later)
parted f ps [] ys e = ([], ps, refl, refl, sym e)
parted f [] (x ∷ xs) ys e = cc
parted f (p ∷ ps) (x ∷ xs) ys e =
    let (first, later, a, b, c) = parted f ps xs ys (cc) in (p ∷ first, later, cc, cc, c)

none_mapped : (f : Push → Call) (ps : List Push) → map f ps ≡ [] → ps ≡ []
none_mapped f [] e = refl
none_mapped f (p ∷ ps) e = cc

-- What a game server pushes to its clients reaches the connections that it is for, in the order of
-- the pushes. If nothing waits in the queue of connRpcObj, rpcCallNet takes the pushes among what
-- leaves the game server, whose frames are well formed, dealSend returns, and of the bytes that it gave to the socket some have come to
-- the net server, all but `future`, in any pieces, with any waits, at an empty buffer and an empty
-- queue of a client whose connection stays open, then handleRpcObj does for the calls in its queue
-- what SendMsg does for the first of the pushes, one after another, whatever the state of the net
-- server; and if dealSend reported success and all has come, these are all of them.
pub pushes_arrive :
    (name : Bytes) (socket : ℕ → List Answer) (outs : List Out) (s s₁ : Sender)
    (answers : List Answer) (r : Dealt) (reads : List ReadAnswer) (mem future : Bytes)
    → AreFrames (map (push_call name) (pushes_of outs))
    → waiting s ≡ []
    → send_calls (map (push_call name) (pushes_of outs)) s ≡ ok s₁
    → deal_send answers s₁ ≡ ok r
    → StaysOpen reads
    → arrived reads ++ future ≡ r.bytes
    → (first later : List Push) × (r' : Receiver) × (receive reads
          (record { recv_buffer = mem; recv_offset = 0; que_rpc_obj = [] })
        ≡ ok r')
      × (pushes_of outs ≡ first ++ later)
      × ((net : Server)
          → handle_all (process socket) r'.que_rpc_obj net ≡ push_all socket first net)
      × (r.succ ≡ true → future ≡ [] → later ≡ [])
pushes_arrive name socket outs s s₁ answers r reads mem future f idle e d o n =
    let (whole, rest, r', got, parts, que, all) =
      calls_arrive (map (push_call name) (pushes_of outs)) s s₁ answers r reads mem future [] f idle
        e d o n in
    let (first, later, a, b, c) = parted (push_call name) (pushes_of outs) whole rest parts in
    (
      first,
      later,
      r',
      got,
      a,
      λ net. rw (que, b) (handle_all-pushes name socket first net),
      λ t u. none_mapped (push_call name) later (sym c ∙ (all t u).0),
    )
