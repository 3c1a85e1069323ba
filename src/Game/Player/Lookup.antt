-- ===== src/Game/Player/Lookup.antt =====
-- The two maps of playerMgr: which player is found by a pid and by a rid.
use kcpserver_cpp.Common.{
  eq_same, ℕ, ◌≡◌, refl, ap, ◌∙◌, Option, none, some, ◌==◌, if◌then◌else◌, arith, lookup, erase,
  lookup-erase, lookup-insert_by,
}
use kcpserver_cpp.Game.State.{Game, insert_int, insert_u64}
use kcpserver_cpp.Game.Player.{player, append_p, update_player, get_p, get_p_by_rid}

update_player-maps :
    (p pid : ℕ) (g : Game)
    → ((update_player p pid g).players.pid_p_map
        ≡ insert_int pid p (erase (player g p).pid g.players.pid_p_map))
      × ((update_player p pid g).players.rid_p_map
          ≡ insert_u64 (player g p).rid p g.players.rid_p_map)
unfolding update_player append_p
update_player-maps p pid g = rw (eq_same p) (refl, refl)

-- After UpdatePlayer a player is found under its new pid, no player under its old one unless that
-- is the new one, and under every other pid the same player as before; it is found under its rid,
-- and under every other rid the same player as before; and of the player itself nothing but the
-- pid has changed.
pub update_player_moves :
    (p pid : ℕ) (g : Game)
    → let g' = update_player p pid g in
      ((j : ℕ)
        → get_p g' j
          ≡ (if pid == j then some p else (if (player g p).pid == j then none else get_p g j)))
      × ((j : ℕ) → get_p_by_rid g' j ≡ (if (player g p).rid == j then some p else get_p_by_rid g j))
      × (player g' p ≡ record (player g p) { pid = pid })
unfolding update_player append_p get_p get_p_by_rid
update_player_moves p pid g =
    let (m, n) = update_player-maps p pid g in
    let old = (player g p).pid in
    (
      λ j.
          ap (lookup j) m
          ∙ (lookup-insert_by _ pid j p (erase old g.players.pid_p_map)
              ∙ ap (λ (x : Option ℕ). if pid == j then some p else x)
                  (lookup-erase old j g.players.pid_p_map)),
      λ j. ap (lookup j) n ∙ lookup-insert_by _ (player g p).rid j p g.players.rid_p_map,
      ground arith,
    )
