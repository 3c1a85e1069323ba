-- ===== src/Game/Room/Manager/Recycling.antt =====
-- core/room.cpp: roomMgr::UpdateFinnal and the rooms that have ended.
use kcpserver_cpp.Common.{
  ne_of_neq, ℕ, ◌≡◌, ◌⊎◌, inl, inr, refl, sym, ap, ◌∙◌, List, [], ◌∷◌, ◌++◌, ◌==◌, codes,
  append_assoc, append-nil, IsIn, Bool-cases,
}
use kcpserver_cpp.Game.State.{Frame, Room, Heap, Game, Proto, call_gate, all_room_frames, emit}
use kcpserver_cpp.Game.Room.{room, set_room, recycle_pt2001, recycle_all, frames, finnal}
use kcpserver_cpp.Game.Room.Manager.{push_room, finnal_rooms, update_finnal}

-- What stays as it is, whatever goes back to the pools of messages.
recycle_all_keeps :
    (fs : List Frame) (g : Game)
    → ((recycle_all fs g).rooms.finnal_room_que ≡ g.rooms.finnal_room_que)
      × ((recycle_all fs g).rooms.pool_room ≡ g.rooms.pool_room)
      × ((recycle_all fs g).rooms.id_map ≡ g.rooms.id_map)
      × ((recycle_all fs g).rooms.rooms ≡ g.rooms.rooms)
unfolding recycle_all recycle_pt2001
recycle_all_keeps [] g = (refl, refl, refl, refl)
recycle_all_keeps (f ∷ fs) g = recycle_all_keeps fs (recycle_pt2001 f g)

emptied :
    (a b : ℕ) (h : Game)
    → (a ≡ b) ⊎ ((room h b).all_oper_map ≡ [])
    → (room (set_room a (record (room h a) { all_oper_map = [] }) h) b).all_oper_map ≡ []
emptied a b h c = elim (Bool-cases (a == b)) [
  | inl t ↦ rw t refl
  | inr f ↦ rw f (elim c [ inl q ↦ absurd (ne_of_neq a b f q) | inr e ↦ e ])
]

finnal_keeps :
    (proto : Proto) (a : ℕ) (g : Game)
    → ((finnal proto a g).rooms.finnal_room_que ≡ g.rooms.finnal_room_que)
      × ((finnal proto a g).rooms.pool_room ≡ g.rooms.pool_room)
      × ((finnal proto a g).rooms.id_map ≡ g.rooms.id_map)
      × ((b : ℕ)
          → (a ≡ b) ⊎ ((room g b).all_oper_map ≡ [])
          → (room (finnal proto a g) b).all_oper_map ≡ [])
unfolding finnal emit
finnal_keeps proto a g =
    let kept = frames (room g a).all_oper_map in
    let bytes = proto.encode (all_room_frames (room g a).frame_tick kept) in
    let o = call_gate (codes "UpdateFrameData") (room g a).roomid 0 bytes in
    let (h₁, h₂, h₃, h₄) = recycle_all_keeps kept (record g { trace = g.trace ++ (o ∷ []) }) in
    (
      h₁,
      h₂,
      h₃,
      λ b c. emptied a b (recycle_all kept (record g { trace = g.trace ++ (o ∷ []) })) (elim c [
        | inl q ↦ inl q
        | inr e ↦ inr (ap (λ (x : Heap Room). (x.cell b).all_oper_map) h₄ ∙ e)
      ]),
    )

finnal_rooms_recycle :
    (proto : Proto) (que : List ℕ) (g : Game)
    → g.rooms.finnal_room_que ≡ que
    → ((finnal_rooms proto que g).rooms.finnal_room_que ≡ [])
      × ((finnal_rooms proto que g).rooms.pool_room ≡ g.rooms.pool_room ++ que)
      × ((finnal_rooms proto que g).rooms.id_map ≡ g.rooms.id_map)
      × ((b : ℕ)
          → IsIn b que ⊎ ((room g b).all_oper_map ≡ [])
          → (room (finnal_rooms proto que g) b).all_oper_map ≡ [])
unfolding finnal_rooms push_room
finnal_rooms_recycle proto [] g e =
    (e, sym (append-nil g.rooms.pool_room), refl, λ b c. elim c [ inl i ↦ absurd i | inr h ↦ h ])
finnal_rooms_recycle proto (a ∷ rest) g e =
    let g₁ = record g { rooms = record (g.rooms) { finnal_room_que = rest } } in
    let (k₁, k₂, k₃, k₄) = finnal_keeps proto a g₁ in
    let (h₁, h₂, h₃, h₄) = finnal_rooms_recycle proto rest (push_room a (finnal proto a g₁)) k₁ in
    (
      h₁,
      h₂
          ∙ (ap (λ (x : List ℕ). (x ++ (a ∷ [])) ++ rest) k₂
              ∙ append_assoc g.rooms.pool_room (a ∷ []) rest),
      h₃ ∙ k₃,
      λ b c. h₄ b (elim c [
        | inl i ↦ elim i [ inl q ↦ inr (k₄ b (inl (sym q))) | inr i ↦ inl i ]
        | inr e ↦ inr (k₄ b (inr e))
      ]),
    )

-- UpdateFinnal empties the queue of the rooms that have ended: every one of them goes to the end of
-- the pool, in the order of the queue, and its record of frames is empty; the map of the rooms that run is as before.
pub update_finnal_recycles :
    (proto : Proto) (g : Game)
    → let g' = update_finnal proto g in
      (g'.rooms.finnal_room_que ≡ [])
      × (g'.rooms.pool_room ≡ g.rooms.pool_room ++ g.rooms.finnal_room_que)
      × (g'.rooms.id_map ≡ g.rooms.id_map)
      × ((b : ℕ) → IsIn b g.rooms.finnal_room_que → (room g' b).all_oper_map ≡ [])
unfolding update_finnal
update_finnal_recycles proto g =
    let (h₁, h₂, h₃, h₄) = finnal_rooms_recycle proto g.rooms.finnal_room_que g refl in
    (h₁, h₂, h₃, λ b i. h₄ b (inl i))
