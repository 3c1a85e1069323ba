-- ===== src/Game/Sound.antt =====
-- The sessions and the rooms of the game server: what holds between its operations.
use kcpserver_cpp.Common.{ℕ, Each, Each-map, Outcome}
use kcpserver_cpp.Game.State.{Game}
use kcpserver_cpp.Game.Kcp.Living.{IsAlive}
use kcpserver_cpp.Game.Room.Manager.Owners.{IsOwned, SameRooms-IsOwned}
use kcpserver_cpp.Game.Keeps.{Keeps}

-- The maps and the pool of the KCP server agree, and its sessions have control blocks; each room
-- has one owner and is found by its number.
pub record IsSound (g : Game) : Type 0 where
  pub alive : IsAlive g.kcp
  pub owned : IsOwned g.rooms

pub Keeps-IsSound : {g : Game} (h : Game) → IsSound g → Keeps g h → IsSound h
Keeps-IsSound {g} h w k = record {
  alive = k.alive w.alive;
  owned = SameRooms-IsOwned g.rooms h.rooms k.rooms w.owned;
}

pub Each-IsSound :
    {g : Game} {o : Outcome Game} → IsSound g → Each (λ (h : Game). Keeps g h) o → Each IsSound o
Each-IsSound w e = Each-map (λ h k. Keeps-IsSound h w k) e

pub pair-IsSound :
    {g : Game} {o : Outcome (Game × ℕ)}
    → IsSound g
    → Each (λ (r : Game × ℕ). Keeps g r.0) o
    → Each (λ (r : Game × ℕ). IsSound r.0) o
pair-IsSound w e = Each-map (λ r k. Keeps-IsSound r.0 w k) e
