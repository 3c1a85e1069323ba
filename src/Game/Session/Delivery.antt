-- ===== src/Game/Session/Delivery.antt =====
-- UDPConn::OnDealMsg: a message that a session has received, up to the frame of its room.
use kcpserver_cpp.Common.{
  append-nil, ℕ, ◌+◌, ◌^◌, ◌≤◌, ◌<◌, ◌≡◌, refl, ap, ◌∙◌, true, some, [], ◌∷◌, ◌++◌, arith, Bytes,
  length, length-append, lookup, ok, abort, ◌>>=◌,
}
use kcpserver_cpp.Game.State.{Game, Proto, RoomMgr, qps, emit}
use kcpserver_cpp.Game.Rpc.Commands.{process_kcp-frame_cmd}
use kcpserver_cpp.Game.Room.{room, frame_cmd, update, get_p, no_end}
use kcpserver_cpp.Game.Room.Loop.{IsRunning, pending}
use kcpserver_cpp.Game.Room.Record.{elapsed, frame_cmd-room, update_closes}
use kcpserver_cpp.Game.Room.Manager.{get_room}
use kcpserver_cpp.Game.Session.{conn, cache_size, put_cache, shift_cache, on_deal_msg}
use kcpserver_cpp.Game.Session.Dealing.{
  client_message, deal_bytes_head, get_room_same, emit-rooms, shift_done, shift_more, offset_kept,
  noticed, noticed_offset, on_deal_msg_reads,
}

-- The game behind the handler of a message 2000, whose bytes are `recv` and whose body is `body`.
abbrev pub commanded : Proto → ℕ → ℕ → ℕ → Bytes → Bytes → Game → Game
commanded proto a r pid recv body g =
    emit (qps 4 (length body)) (frame_cmd proto r pid body (put_cache a recv (noticed a g)))

module _ (proto : Proto) (a pid roomid r : ℕ) (body extra : Bytes) (g : Game) where
  command_dealt :
      (conn g a).bread ≡ true
      → (conn g a).offset ≡ 0
      → pid < 2 ^ 32
      → roomid < 2 ^ 32
      → get_room g roomid ≡ some r
      → let recv = client_message 2000 pid roomid body ++ extra in
        length recv ≤ cache_size
        → on_deal_msg proto a (some recv) g ≡ (
            shift_cache a (length recv) (length body) (commanded proto a r pid recv body g)
            >>= λ g₃. ok (g₃, 0))
  command_dealt read off hp hr e fits =
      let recv = client_message 2000 pid roomid body ++ extra in
      let g₀ = put_cache a recv (noticed a g) in
      on_deal_msg_reads proto a recv g read fits
      ∙ deal_bytes_head proto a 2000 pid roomid body extra (noticed a g) (noticed_offset a g ∙ off)
          (omega arith) hp hr fits
      ∙ rw
          (process_kcp-frame_cmd proto body pid (conn (noticed a g) a).id roomid r g₀
            (get_room_same g₀ g roomid refl ∙ e))
          refl

room-commanded :
    (proto : Proto) (a r pid p : ℕ) (recv body : Bytes) (g g' : Game)
    → get_p (room g r) pid ≡ some p
    → g'.rooms ≡ (commanded proto a r pid recv body g).rooms
    → room g' r ≡ record (room g r) {
      pt2001 = some (record (pending (room g r)) {
        cmdlist = (pending (room g r)).cmdlist ++ (proto.parse_2000 body ∷ []);
      });
    }
room-commanded proto a r pid p recv body g g' e same =
    let g₀ = put_cache a recv (noticed a g) in
    ap (λ (x : RoomMgr). x.rooms.cell r)
      (same ∙ emit-rooms (qps 4 (length body)) (frame_cmd proto r pid body g₀))
    ∙ frame_cmd-room proto r pid p body g₀ e

-- If a datagram came in since the last OnDealMsg of a session, its cache is empty, and KCP has just
-- one message for it, a message 2000 with a body of at most 16 * 1024 - 16 bytes and a pid and a
-- room number below 2 ^ 32, for a room that is in the map and runs, with frames of more than 0 ms,
-- no last frame and a frame number and elapsed time below 2 ^ 31, from a player of that room, and at
-- least one frame's time has come together by the next Update of the room, then OnDealMsg returns 0,
-- that Update returns 0, and in the room's record the frame of the number that was current holds
-- the commands that were pending and, behind them, the one that the body stands for.
pub on_deal_msg_recorded :
    (proto : Proto) (a pid roomid r p ms : ℕ) (body : Bytes) (g : Game)
    → (conn g a).bread ≡ true
    → (conn g a).offset ≡ 0
    → length body + 16 ≤ cache_size
    → pid < 2 ^ 32
    → roomid < 2 ^ 32
    → get_room g roomid ≡ some r
    → get_p (room g r) pid ≡ some p
    → IsRunning (room g r)
    → 0 < (room g r).frame_tick
    → (room g r).end_frame_id ≡ no_end
    → (room g r).frame_id < 2 ^ 31
    → elapsed ms (room g r) < 2 ^ 31
    → (room g r).frame_tick ≤ elapsed ms (room g r)
    → (g₁ : Game) × (g₂ : Game) × (on_deal_msg proto a
          (some (client_message 2000 pid roomid body))
          g
        ≡ ok (g₁, 0))
      × (update proto r ms g₁ ≡ ok (g₂, 0))
      × (lookup (room g r).frame_id (room g₂ r).all_oper_map
          ≡ some (record {
            frameid = (room g r).frame_id;
            cmdlist = (pending (room g r)).cmdlist ++ (proto.parse_2000 body ∷ []);
          }))
on_deal_msg_recorded proto a pid roomid r p ms body g read off hb hp hr e₁ e₂ run t en wide small
      enough =
    let recv = client_message 2000 pid roomid body in
    let size : length recv ≡ 16 + length body = omega arith in
    let whole = append-nil body in
    let fits : length (recv ++ []) ≤ cache_size = rw whole (omega arith) in
    let dealt = rw whole at (command_dealt proto a pid roomid r body [] g read off hp hr e₁ fits) in
    let still =
      offset_kept proto a r pid (length body) recv body (noticed a g) ∙ noticed_offset a g in
    let (g₁, shifted, same) =
      shift_done a (length recv) (length body) (commanded proto a r pid recv body g) (still ∙ off)
        size (omega arith) in
    let (g₂, u, found) =
      update_closes proto r ms g₁ _ (room-commanded proto a r pid p recv body g g₁ e₂ same) run t en
        wide small enough in
    (g₁, g₂, dealt ∙ rw shifted refl, u, found)

-- If a datagram came in since the last OnDealMsg of a session, its cache is empty, and KCP has a
-- message 2000 with a pid and a room number below 2 ^ 32 for a room that is in the map and, in the
-- same message, at least one byte behind the body, together at most 16 * 1024 bytes, then OnDealMsg
-- ends in the assertion that nothing is left in the cache.
pub on_deal_msg_more :
    (proto : Proto) (a pid roomid r b : ℕ) (body more : Bytes) (g : Game)
    → (conn g a).bread ≡ true
    → (conn g a).offset ≡ 0
    → pid < 2 ^ 32
    → roomid < 2 ^ 32
    → get_room g roomid ≡ some r
    → length body + 17 + length more ≤ cache_size
    → on_deal_msg proto a (some (client_message 2000 pid roomid body ++ (b ∷ more))) g ≡ abort
on_deal_msg_more proto a pid roomid r b body more g read off hp hr e₁ fits =
    let recv = client_message 2000 pid roomid body ++ (b ∷ more) in
    let sizes = length-append body (b ∷ more) in
    let size : length recv ≡ 17 + length body + length more = omega (arith, sizes) in
    let still =
      offset_kept proto a r pid (length body) recv body (noticed a g) ∙ noticed_offset a g in
    command_dealt proto a pid roomid r body (b ∷ more) g read off hp hr e₁ (omega arith)
    ∙ rw
        (shift_more a (length recv) (length body) (commanded proto a r pid recv body g)
          (still ∙ off) (omega arith) (omega arith))
        refl
