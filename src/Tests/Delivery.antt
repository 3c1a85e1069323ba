-- ===== src/Tests/Delivery.antt =====
-- A command of a client on its way into the record of room 7.
use kcpserver_cpp.Common.{◌≡◌, refl, some, [], ◌∷◌, ◌++◌, arith, lookup, true, abort, ok}
use kcpserver_cpp.Game.State.{Game}
use kcpserver_cpp.Game.Room.{room, update, get_p}
use kcpserver_cpp.Game.Room.Manager.{get_room}
use kcpserver_cpp.Game.Session.{on_deal_msg}
use kcpserver_cpp.Game.Session.Dealing.{client_message}
use kcpserver_cpp.Game.Session.Delivery.{on_deal_msg_recorded, on_deal_msg_more}
use kcpserver_cpp.Tests.Rooms.{command, tiny, idle_conn, room_of, game_of, runs}

-- Every session has a datagram that OnDealMsg has not looked at.
abbrev in_match : Game
in_match =
    let g = game_of (room_of 66) in
    let read = record idle_conn { bread = true } in
    record g { kcp = record (g.kcp) { conns = record (g.kcp.conns) { cell = λ a. read } } }

on_deal_msg_recorded_example :
    (g₁ : Game) × (g₂ : Game) × (on_deal_msg tiny 3
        (some (client_message 2000 2 7 (8 ∷ 8 ∷ [])))
        in_match
      ≡ ok (g₁, 0))
    × (update tiny 0 1200 g₁ ≡ ok (g₂, 0))
    × (lookup 5 (room g₂ 0).all_oper_map
        ≡ some (record { frameid = 5; cmdlist = command 9 ∷ command 2 ∷ [] }))
unfolding get_p get_room lookup
on_deal_msg_recorded_example =
    on_deal_msg_recorded tiny 3 2 7 0 1 1200 (8 ∷ 8 ∷ []) in_match refl refl (omega arith)
      (omega arith) (omega arith) refl refl (runs 66) (omega arith) refl (omega arith) (omega arith)
      (omega arith)

on_deal_msg_more_example :
    on_deal_msg tiny 3 (some (client_message 2000 2 7 (8 ∷ 8 ∷ []) ++ (1 ∷ []))) in_match ≡ abort
unfolding get_room lookup
on_deal_msg_more_example =
    on_deal_msg_more tiny 3 2 7 0 1 (8 ∷ 8 ∷ []) [] in_match refl refl (omega arith) (omega arith)
      refl (omega arith)
