-- ===== src/Qps/Counting.antt =====
-- qps.cpp: what the counters hold after any number of calls, and the two versions of getNumStr.
use kcpserver_cpp.Common.{
  ℕ, suc, ◌+◌, ◌*◌, ◌^◌, ◌<◌, ◌≡◌, ◌≢◌, ◌↔◌, inl, inr, sym, ap, ◌∙◌, some, List, [], ◌∷◌, ◌==◌,
  if◌then◌else◌, arith, lookup, Map, Bool-cases, Option-cases, lookup-insert_by, int_ltb, ltb_of_le,
  ◌≤◌, not, u32, u64, Bool, ◌&&◌,
}
use kcpserver_cpp.Text.{decimal, decimal_from}
use kcpserver_cpp.Qps.{
  QpsObj, QpsMgr, reset, bump, widen, update_qps, get_num_str, get_num_str_long, fixed, hundredths,
  reset_all, dump_qps_info, Summary,
}

differ : get_num_str (1024 * 1024) ≢ get_num_str_long (1024 * 1024)
unfolding get_num_str get_num_str_long fixed hundredths decimal decimal_from
differ e = cc

-- A size that is not negative as an `int` prints the same as an `int` and as an
-- `unsigned long long` if, and only if, it is not exactly 1024 * 1024.
pub get_num_str_agrees :
    (n : ℕ) → n < 2 ^ 31 → (get_num_str n ≡ get_num_str_long n) ↔ (n ≢ 1024 * 1024)
unfolding get_num_str get_num_str_long
get_num_str_agrees n h =
    ((λ e p. differ (ap get_num_str (sym p) ∙ (e ∙ ap get_num_str_long p))), (λ ne. ground arith))

-- A run of calls of updateQps, each with the number of the counter and the size.
abbrev pub updates : List (ℕ × ℕ) → QpsMgr → QpsMgr
updates [] m = m
updates ((j, size) ∷ us) m = updates us (update_qps j size m)

-- The calls for one counter that are not for no bytes, and the bytes that they count.
abbrev counts : ℕ → ℕ × ℕ → Bool
counts id u = (u.0 == id) && not (u.1 == 0)

abbrev pub times : ℕ → List (ℕ × ℕ) → ℕ
times id [] = 0
times id (u ∷ us) = let rest = times id us in if counts id u then suc rest else rest

abbrev pub total : ℕ → List (ℕ × ℕ) → ℕ
total id [] = 0
total id (u ∷ us) = let rest = total id us in if counts id u then widen u.1 + rest else rest

-- A counter after `n` further calls with `size` bytes in all.
abbrev pub after : ℕ → ℕ → QpsObj → QpsObj
after n size o = record o { count = u32 (o.count + n); size = u64 (o.size + size) }

update_qps-lookup :
    (id j size : ℕ) (m : QpsMgr) (o : QpsObj)
    → lookup id m.qps_map ≡ some o
    → lookup id (update_qps j size m).qps_map
      ≡ some (if counts id (j, size) then bump size o else o)
unfolding update_qps
update_qps-lookup id j size m o e = elim (Option-cases (lookup j m.qps_map)) [
  | inl n ↦ ground (arith, n)
  | inr (p, h) ↦ ground (arith, h, lookup-insert_by int_ltb j id (bump size p) m.qps_map)
]

after-bump :
    (n size more : ℕ) (o : QpsObj)
    → after n more (bump size o) ≡ after (suc n) (widen size + more) o
unfolding bump
after-bump n size more o =
    let c : u32 (u32 (suc o.count) + n) ≡ u32 (o.count + suc n) = omega arith in
    let z : u64 (u64 (o.size + widen size) + more) ≡ u64 (o.size + (widen size + more)) =
      omega arith in
    rw (c, z)

after-none : (o : QpsObj) → o.count < 2 ^ 32 → o.size < 2 ^ 64 → after 0 0 o ≡ o
after-none o c s =
    let p : u32 (o.count + 0) ≡ o.count = omega arith in
    let q : u64 (o.size + 0) ≡ o.size = omega arith in rw (p, q)

updates-after :
    (id : ℕ) (us : List (ℕ × ℕ)) (m : QpsMgr) (o : QpsObj)
    → lookup id m.qps_map ≡ some o
    → o.count < 2 ^ 32
    → o.size < 2 ^ 64
    → lookup id (updates us m).qps_map ≡ some (after (times id us) (total id us) o)
unfolding bump
updates-after id [] m o e c s = e ∙ ap some (sym (after-none o c s))
updates-after id ((j, size) ∷ us) m o e c s = elim (Bool-cases (counts id (j, size))) [
  | inl t ↦
      updates-after id us (update_qps j size m) (bump size o)
        (update_qps-lookup id j size m o e ∙ rw t) (omega arith) (omega arith)
      ∙ rw t (ap some (after-bump (times id us) size (total id us) o))
  | inr f ↦
      updates-after id us (update_qps j size m) o (update_qps-lookup id j size m o e ∙ rw f) c s
      ∙ rw f
]

reset_all-lookup :
    (id : ℕ) (m : Map QpsObj) (o : QpsObj)
    → lookup id m ≡ some o
    → lookup id (reset_all m) ≡ some (reset o)
unfolding reset_all lookup
reset_all-lookup id [] o e = cc
reset_all-lookup id ((j, p) ∷ m) o e = ground (arith, reset_all-lookup id m o)

-- A counter that exists counts from zero after a dump: once a dump that is due is followed by any
-- calls of updateQps, it holds the number of the calls for it with a size other than 0, modulo
-- 2 ^ 32, and the sum of their sizes, modulo 2 ^ 64, and keeps its name.
pub counted_since_dump :
    (id now : ℕ) (summary : Summary) (us : List (ℕ × ℕ)) (m : QpsMgr) (o : QpsObj)
    → lookup id m.qps_map ≡ some o
    → m.last_ms + 1000 ≤ now
    → lookup id (updates us (dump_qps_info now summary m)).qps_map
      ≡ some (record o { count = u32 (times id us); size = u64 (total id us) })
unfolding dump_qps_info reset
counted_since_dump id now summary us m o e due =
    let p : 0 + times id us ≡ times id us = omega arith in
    let q : 0 + total id us ≡ total id us = omega arith in
    updates-after id us (dump_qps_info now summary m) (reset o)
      (rw (dump_qps_info, ltb_of_le now (m.last_ms + 1000) due) (reset_all-lookup id m.qps_map o e))
      (omega arith) (omega arith)
    ∙ rw (p, q)
