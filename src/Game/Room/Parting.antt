-- ===== src/Game/Room/Parting.antt =====
-- core/room.cpp: a room that the gate has ended; what RawOver says to its players, and whom it takes
-- out of the player manager.
use kcpserver_cpp.Common.{
  ℕ, ◌-◌, ◌^◌, ◌≡◌, refl, sym, ap, ◌∙◌, true, false, ◌&&◌, Option, none, some, List, [], ◌∷◌, ◌++◌,
  ◌==◌, ltb, if◌then◌else◌, arith, Bytes, codes, append_assoc, append-nil, Map, lookup, ok, Bool,
}
use kcpserver_cpp.Game.State.{
  Game, Player, PlayerMgr, RoomMgr, Proto, Out, call_net, emit, packet, match_over,
}
use kcpserver_cpp.Game.Kcp.Parting.{AreCloses, OnlyCloses, OnlyCloses-same, OnlyCloses-trans}
use kcpserver_cpp.Game.Player.{player, int_to_u64, send_msg, get_p_by_rid, remove_p}
use kcpserver_cpp.Game.Player.Parting.{remove_p-OnlyCloses, remove_p-by_rid, get_p_by_rid-same}
use kcpserver_cpp.Game.Room.{room, set_room, broadcast_to, broadcast, remove_all, raw_over, update}
use kcpserver_cpp.Game.Room.Ending.{raw_over-rooms, broadcast_to-rooms}

remove_all-OnlyCloses : (m : Map ℕ) (g : Game) → OnlyCloses g (remove_all m g)
unfolding remove_all
remove_all-OnlyCloses [] g = OnlyCloses-same g g refl
remove_all-OnlyCloses ((rid, p) ∷ m) g =
    OnlyCloses-trans g (remove_p rid g) (remove_all m (remove_p rid g)) (remove_p-OnlyCloses rid g)
      (remove_all-OnlyCloses m (remove_p rid g))

-- Who is found by a rid once the players of a room are gone.
abbrev pub unless_in : Map ℕ → ℕ → Option ℕ → Option ℕ
unless_in m j o = elim (lookup j m) [ none ↦ o | some p ↦ none ]

remove_all-by_rid :
    (m : Map ℕ) (j : ℕ) (g : Game)
    → get_p_by_rid (remove_all m g) j ≡ unless_in m j (get_p_by_rid g j)
unfolding remove_all lookup
remove_all-by_rid [] j g = refl
remove_all-by_rid ((rid, p) ∷ m) j g =
    remove_all-by_rid m j (remove_p rid g) ∙ ground (arith, remove_p-by_rid rid j g)

-- The calls by which the players of a room are told, in the order of their rids; those that are
-- offline are not.
abbrev pub told : (ℕ → Player) → Bytes → ℕ → Map ℕ → List Out
told players buf msgid [] = []
told players buf msgid ((rid, p) ∷ m) =
    let rest = told players buf msgid m in
    let call = call_net (codes "PushMsg2Client") (int_to_u64 (players p).pid) msgid buf in
    if (players p).off then rest else call ∷ rest

-- One player is told or passed over, and `h` says what the others are told.
told_next :
    (off : Bool) (buf : Bytes) (msgid p : ℕ) (m : Map ℕ) (rest : List Out) (g : Game)
    → ((h : Game)
        → h.players ≡ g.players
        → ((broadcast_to buf msgid m h).trace ≡ h.trace ++ rest)
          × ((broadcast_to buf msgid m h).players ≡ h.players))
    → let call = call_net (codes "PushMsg2Client") (int_to_u64 (player g p).pid) msgid buf in
      let g' = broadcast_to buf msgid m (if off then g else send_msg p buf msgid g) in
      (g'.trace ≡ g.trace ++ (if off then rest else call ∷ rest)) × (g'.players ≡ g.players)
unfolding send_msg emit
told_next true buf msgid p m rest g h = h g refl
told_next false buf msgid p m rest g h =
    let call = call_net (codes "PushMsg2Client") (int_to_u64 (player g p).pid) msgid buf in
    let (trace, players) = h (send_msg p buf msgid g) refl in
    (trace ∙ append_assoc g.trace (call ∷ []) rest, players)

broadcast_to-told :
    (buf : Bytes) (msgid : ℕ) (m : Map ℕ) (g : Game)
    → ((broadcast_to buf msgid m g).trace ≡ g.trace ++ told g.players.players.cell buf msgid m)
      × ((broadcast_to buf msgid m g).players ≡ g.players)
unfolding broadcast_to
broadcast_to-told buf msgid [] g = (sym (append-nil g.trace), refl)
broadcast_to-told buf msgid ((rid, p) ∷ m) g =
    told_next (player g p).off buf msgid p m (told g.players.players.cell buf msgid m) g (λ h e.
      let (trace, players) = broadcast_to-told buf msgid m h in
      (trace ∙ ap (λ (x : PlayerMgr). h.trace ++ told x.players.cell buf msgid m) e, players))

-- The number of the last frame that the room has made, which RawOver tells.
abbrev pub last_frame : ℕ → ℕ
last_frame n = if ltb 0 n && ltb n (2 ^ 31) then n - 1 else n

-- The game when the players of a room have been told, and what RawOver does then.
abbrev informed : Proto → ℕ → Game → Game
informed proto a g =
    let over = packet proto 213 (match_over (last_frame (room g a).frame_id)) in
    broadcast_to over 213 (room g a).rid_p_map g

raw_over-removes :
    (proto : Proto) (a : ℕ) (g : Game)
    → let g₁ = informed proto a g in
      raw_over proto a g
      ≡ remove_all (room g a).rid_p_map (set_room a (record (room g₁ a) { brun = false }) g₁)
unfolding raw_over broadcast
raw_over-removes proto a g =
    let over = packet proto 213 (match_over (last_frame (room g a).frame_id)) in
    let map =
      ap (λ (x : RoomMgr). (x.rooms.cell a).rid_p_map)
        (broadcast_to-rooms over 213 (room g a).rid_p_map g) in
    let g₁ = informed proto a g in
    ap (λ (x : Map ℕ). remove_all x (set_room a (record (room g₁ a) { brun = false }) g₁)) map

-- If the gate has ended a room, then Update of that room returns 1; the room has stopped and is
-- otherwise as it was, and so are every other room and the map of the rooms. Every player of the room
-- that is not offline is told the last frame through the net server, once for each entry of the
-- room's map and in its order, and after these calls nothing is put into the trace but the closing of
-- sockets; by the rids in the room's map no player is found any more, and by every other rid the same
-- player as before.
pub update_gate_over :
    (proto : Proto) (a ms : ℕ) (g : Game)
    → (room g a).gate_over ≡ true
    → let m = (room g a).rid_p_map in
      let over = packet proto 213 (match_over (last_frame (room g a).frame_id)) in
      (g' : Game) × (update proto a ms g ≡ ok (g', 1))
      × ((b : ℕ) → room g' b ≡ (if a == b then record (room g a) { brun = false } else room g b))
      × (g'.rooms.id_map ≡ g.rooms.id_map)
      × ((closing : List Out) × AreCloses closing
          × (g'.trace ≡ g.trace ++ (told g.players.players.cell over 213 m ++ closing)))
      × ((rid : ℕ) → get_p_by_rid g' rid ≡ unless_in m rid (get_p_by_rid g rid))
unfolding update
update_gate_over proto a ms g t =
    let m = (room g a).rid_p_map in
    let over = packet proto 213 (match_over (last_frame (room g a).frame_id)) in
    let g₁ = informed proto a g in
    let g₂ = set_room a (record (room g₁ a) { brun = false }) g₁ in
    let (trace, players) = broadcast_to-told over 213 m g in
    let removes = raw_over-removes proto a g in
    let (closing, closes, rest) = remove_all-OnlyCloses m g₂ in
    let told_all = told g.players.players.cell over 213 m in
    (
      raw_over proto a g,
      rw (t, update),
      λ b. ap (λ (x : RoomMgr). x.rooms.cell b) (raw_over-rooms proto a g),
      ap (λ (x : RoomMgr). x.id_map) (raw_over-rooms proto a g),
      (
        closing,
        closes,
        ap (λ (x : Game). x.trace) removes
            ∙ (rest
                ∙ (ap (λ (x : List Out). x ++ closing) trace
                    ∙ append_assoc g.trace told_all closing)),
      ),
      λ rid.
          ap (λ (x : Game). get_p_by_rid x rid) removes
          ∙ (remove_all-by_rid m rid g₂
              ∙ ap (unless_in m rid) (get_p_by_rid-same g₂ g rid players)),
    )
