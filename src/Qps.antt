-- ===== src/Qps.antt =====
-- qps.h and qps.cpp: the counters of messages and bytes that go to the log once in a second.
pub mod Counting
use kcpserver_cpp.Common.{
  ℕ, suc, ◌+◌, ◌-◌, ◌*◌, ◌/◌, ◌%◌, ◌^◌, Bool, ◌&&◌, none, some, [], ◌∷◌, ◌++◌, ◌==◌, ltb, leb,
  if◌then◌else◌, Bytes, codes, Map, lookup, insert_by, int_ltb, u32, u64,
}
use kcpserver_cpp.Text.{decimal_from, decimal}

pub record QpsObj : Type 0 where
  pub info : Bytes
  pub count : ℕ
  pub size : ℕ

pub record QpsMgr : Type 0 where
  pub qps_map : Map QpsObj
  pub last_ms : ℕ
  pub debug_info : Bytes

abbrev pub insert_int {ℓ} : {V : Type ℓ} → ℕ → V → Map V → Map V
insert_int = insert_by int_ltb

unfoldable pub reset : QpsObj → QpsObj
reset o = record o { count = 0; size = 0 }

unfoldable pub add_qps : ℕ → Bytes → QpsMgr → QpsMgr
add_qps id val m = record m {
  qps_map = insert_int id (reset (record { info = val; count = 0; size = 0 })) m.qps_map;
}

-- The constructor: the counters of a net server and of a game server.
unfoldable pub new_mgr : Bool → QpsMgr
new_mgr net =
    let m : QpsMgr = record { qps_map = []; last_ms = 0; debug_info = [] } in
    if net
    then add_qps 4 (codes "cliRecv")
        (add_qps 3 (codes "cliSend") (add_qps 2 (codes "rpcSend") (add_qps 1 (codes "rpcRecv") m)))
    else add_qps 4 (codes "kcpRecv")
        (add_qps 3 (codes "kcpSend") (add_qps 2 (codes "rpcTps") (add_qps 1 (codes "mainCt") m)))

-- An `int` that is added to an `unsigned long long`.
abbrev pub widen : ℕ → ℕ
widen n = if ltb n (2 ^ 31) then n else n + (2 ^ 64 - 2 ^ 32)

-- What updateQps does to the counter that it finds.
pub bump : ℕ → QpsObj → QpsObj
bump size o = record o { count = u32 (suc o.count); size = u64 (o.size + widen size) }

pub update_qps : ℕ → ℕ → QpsMgr → QpsMgr
update_qps id size m = if size == 0 then m else elim (lookup id m.qps_map) [
  | none ↦ m
  | some o ↦ record m { qps_map = insert_int id (bump size o) m.qps_map }
]

-- "%.2f" of n / d for a power of two `d`: the quotient is exact as a double below 2 ^ 53, and the
-- C library rounds it to hundredths, a half to the even one.
unfoldable pub hundredths : ℕ → ℕ → ℕ
hundredths n d =
    let q = 100 * n / d in
    let r = 2 * (100 * n % d) in
    if ltb d r then suc q else (if (r == d) && (q % 2 == 1) then suc q else q)

unfoldable pub fixed : ℕ → ℕ → Bytes
fixed n d =
    let h = hundredths n d in
    decimal_from 20 (h / 100) ++ (b'.' ∷ (b'0' + h % 100 / 10) ∷ (b'0' + h % 10) ∷ [])

-- getNumStr of an `int`. A negative one is printed as it is.
unfoldable pub get_num_str : ℕ → Bytes
get_num_str n =
    if leb 1024 n && ltb n (1024 * 1024)
    then fixed n 1024 ++ codes "k"
    else (if ltb (1024 * 1024) n && ltb n (2 ^ 31)
        then fixed n (1024 * 1024) ++ codes "M"
        else decimal n)

-- getNumStr of an `unsigned long long`.
unfoldable pub get_num_str_long : ℕ → Bytes
get_num_str_long n =
    if leb 1024 n && ltb n (1024 * 1024)
    then fixed n 1024 ++ codes "k"
    else (if leb (1024 * 1024) n then fixed n (1024 * 1024) ++ codes "M" else decimal n)

-- The loop of dumpQpsInfo: the text of each counter, and the counters cleared.
pub dump_text : Map QpsObj → Bytes
dump_text [] = []
dump_text ((id, o) ∷ m) =
    codes "[t:"
    ++ (o.info
        ++ (codes " c:"
            ++ (get_num_str o.count
                ++ (codes " s:" ++ (get_num_str_long o.size ++ (codes "]" ++ dump_text m))))))

pub reset_all : Map QpsObj → Map QpsObj
reset_all [] = []
reset_all ((id, o) ∷ m) = (id, reset o) ∷ reset_all m

-- What ends the line: the clients of a net server, or the sessions, players and rooms of a game.
pub data Summary : Type 0 where
  of_net : ℕ → Summary
  of_game : ℕ → ℕ → ℕ → Summary

pub summary_text : Summary → Bytes
summary_text (of_net online) = codes " [online: " ++ (decimal online ++ codes "]")
summary_text (of_game con p room) =
    codes " [con:"
    ++ (decimal con
        ++ (codes " p:" ++ (decimal p ++ (codes " room:" ++ (decimal room ++ codes "]")))))

-- dumpQpsInfo, at most once in a second. `now` is the clock in milliseconds.
pub dump_qps_info : ℕ → Summary → QpsMgr → QpsMgr
dump_qps_info now summary m = if ltb now (m.last_ms + 1000) then m else record {
  qps_map = reset_all m.qps_map;
  last_ms = now;
  debug_info = dump_text m.qps_map ++ summary_text summary;
}
