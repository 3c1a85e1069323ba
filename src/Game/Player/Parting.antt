-- ===== src/Game/Player/Parting.antt =====
-- core/player.cpp: a player that leaves the player manager.
use kcpserver_cpp.Common.{
  ℕ, ◌≡◌, refl, sym, ap, ◌∙◌, inl, inr, none, ◌==◌, if◌then◌else◌, lookup, erase, lookup-erase, Map,
  Option-cases, Bool-cases, eq_of_==,
}
use kcpserver_cpp.Game.State.{Game, PlayerMgr}
use kcpserver_cpp.Game.Kcp.Parting.{
  OnlyCloses, OnlyCloses-same, close_conn-OnlyCloses, close_conn-players,
}
use kcpserver_cpp.Game.Player.{player, offline, get_p_by_rid, push_player, remove_p}

offline-OnlyCloses : (p : ℕ) (g : Game) → OnlyCloses g (offline p g)
unfolding offline
offline-OnlyCloses p g = close_conn-OnlyCloses (player g p).sessid _

pub remove_p-OnlyCloses : (rid : ℕ) (g : Game) → OnlyCloses g (remove_p rid g)
unfolding remove_p push_player
remove_p-OnlyCloses rid g = elim (Option-cases (get_p_by_rid g rid)) [
  | inl e ↦ rw (e, remove_p) (OnlyCloses-same g g refl)
  | inr (p, e) ↦ rw (e, remove_p) (offline-OnlyCloses p g)
]

offline-rid_p_map : (p : ℕ) (g : Game) → (offline p g).players.rid_p_map ≡ g.players.rid_p_map
unfolding offline
offline-rid_p_map p g =
    ap (λ (x : PlayerMgr). x.rid_p_map) (close_conn-players (player g p).sessid _)

pub remove_p-by_rid :
    (rid j : ℕ) (g : Game)
    → get_p_by_rid (remove_p rid g) j ≡ (if rid == j then none else get_p_by_rid g j)
unfolding remove_p push_player get_p_by_rid
remove_p-by_rid rid j g = elim (Option-cases (lookup rid g.players.rid_p_map)) [
  | inl e ↦
      rw (e, remove_p)
        (elim (Bool-cases (rid == j)) [
          | inl t ↦ rw t (ap (λ (k : ℕ). lookup k g.players.rid_p_map) (sym (eq_of_== rid j t)) ∙ e)
          | inr f ↦ rw f refl
        ])
  | inr (p, e) ↦
      rw (e, remove_p)
        (ap (λ (m : Map ℕ). lookup j (erase rid m)) (offline-rid_p_map p g)
          ∙ lookup-erase rid j g.players.rid_p_map)
]

pub get_p_by_rid-same :
    (g h : Game) (rid : ℕ) → g.players ≡ h.players → get_p_by_rid g rid ≡ get_p_by_rid h rid
unfolding get_p_by_rid
get_p_by_rid-same g h rid e = ap (λ (x : PlayerMgr). lookup rid x.rid_p_map) e
