-- ===== src/Game/Session/Keeping.antt =====
-- kcpsess/sessServer.cpp: what the sessions receive takes no room and makes no session.
use kcpserver_cpp.Common.{
  ℕ, refl, inl, inr, false, Bytes, Option, none, some, [], ◌∷◌, Option-cases, length, lookup, Map,
  Each, Each-ok, Each-abort, Each-if, Each-bind, Each-map,
}
use kcpserver_cpp.Game.State.{Game, Proto}
use kcpserver_cpp.Game.Keeps.{Keeps, Keeps-refl, Keeps-trans, emit-Keeps}
use kcpserver_cpp.Game.Kcp.Keeping.{set_conn-Keeps}
use kcpserver_cpp.Game.Rpc.Keeping.{process_kcp-Keeps}
use kcpserver_cpp.Game.Session.{conn, shift_cache, deal_bytes, on_deal_msg, update_conns, update}

shift_cache-Keeps :
    (a nread bodylen : ℕ) (g : Game)
    → Each (λ (k : Game). Keeps g k) (shift_cache a nread bodylen g)
unfolding shift_cache
shift_cache-Keeps a nread bodylen g =
    Each-if _ Each-abort (Each-if _ (Each-ok (set_conn-Keeps a _ g refl refl refl)) Each-abort)

deal_bytes-Keeps :
    (proto : Proto) (a : ℕ) (recv : Bytes) (g : Game)
    → Each (λ (r : Game × ℕ). Keeps g r.0) (deal_bytes proto a recv g)
unfolding deal_bytes
deal_bytes-Keeps proto a recv g =
    let cached = set_conn-Keeps a _ g refl refl refl in
    Each-if _ Each-abort (
      Each-if _ (Each-ok cached) (
        Each-bind (process_kcp-Keeps proto _ _ _ _ _ _) (λ g₂ k.
          Each-bind (shift_cache-Keeps a (length recv) _ _) (λ g₃ k'.
            Each-ok
              (Keeps-trans g₃ (Keeps-trans _ (Keeps-trans g₂ cached k) (emit-Keeps _ g₂)) k')))))

on_deal_msg-Keeps :
    (proto : Proto) (a : ℕ) (inbox : Option Bytes) (g : Game)
    → Each (λ (r : Game × ℕ). Keeps g r.0) (on_deal_msg proto a inbox g)
unfolding on_deal_msg
on_deal_msg-Keeps proto a none g =
    Each-if _ (Each-ok (Keeps-refl g)) (Each-ok (set_conn-Keeps a _ g refl refl refl))
on_deal_msg-Keeps proto a (some recv) g =
    let seen = set_conn-Keeps a (record (conn g a) { bread = false }) g refl refl refl in
    Each-if _ (Each-ok (Keeps-refl g)) (
      Each-if _ (Each-ok seen)
        (Each-map (λ r k. Keeps-trans r.0 seen k) (deal_bytes-Keeps proto a recv _)))

update_conns-Keeps :
    (proto : Proto) (inbox : ℕ → Option Bytes) (m : Map ℕ) (g : Game)
    → Each (λ (h : Game). Keeps g h) (update_conns proto inbox m g)
unfolding update_conns
update_conns-Keeps proto inbox [] g = Each-ok (Keeps-refl g)
update_conns-Keeps proto inbox ((fd, b) ∷ m) g = elim (Option-cases (lookup fd g.kcp.map_conn)) [
  | inl e ↦ rw (e, update_conns) (update_conns-Keeps proto inbox m g)
  | inr (a, e) ↦
      rw (e, update_conns)
        (Each-bind (on_deal_msg-Keeps proto a (inbox a) g)
          (λ r k. Each-map (λ h k'. Keeps-trans h k k') (update_conns-Keeps proto inbox m r.0)))
]

-- KCPServer::Update.
pub update-Keeps :
    (proto : Proto) (inbox : ℕ → Option Bytes) (g : Game)
    → Each (λ (h : Game). Keeps g h) (update proto inbox g)
unfolding update
update-Keeps proto inbox g = update_conns-Keeps proto inbox g.kcp.map_conn g
