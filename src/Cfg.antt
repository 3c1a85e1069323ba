-- ===== src/Cfg.antt =====
-- cfg.h and cfg.cpp: the configuration file, conf/cfg.ini.
pub mod Reading
use kcpserver_cpp.Common.{
  ℕ, zero, suc, Bool, true, false, ◌&&◌, ◌||◌, not, List, [], ◌∷◌, ◌++◌, ◌==◌, ltb, if◌then◌else◌,
  Bytes, codes, length, is_empty, take, drop, Outcome, ok, abort, ◌>>=◌,
}
use kcpserver_cpp.Text.{strtok, strstr}

pub record NodeCfg : Type 0 where
  pub node_name : Bytes
  pub ip : Bytes
  pub port : Bytes

pub record ServerCfg : Type 0 where
  pub listen_port : Bytes
  pub node_lst : List NodeCfg

-- The first byte of a line.
abbrev pub begins : ℕ → Bytes → Bool
begins b [] = false
begins b (c ∷ cs) = c == b

-- The loop over the lines: those of the enabled sections behind the tag of this server are kept.
-- A line with "start" that has the tag is kept as well, since it is no head of a section.
unfoldable pub select : Bytes → Bool → Bool → List Bytes → List Bytes
select tag bstart bskip [] = []
select tag bstart bskip (l ∷ ls) =
    let comment = begins b'#' l in
    let bstart' = if not comment && strstr l (codes "start") then strstr l tag else bstart in
    let bskip' =
      if not comment && bstart' && begins b'[' l then not (strstr l (codes "true")) else bskip in
    let rest = select tag bstart' bskip' ls in
    if not comment && bstart' && not bskip' && not (begins b'[' l) then l ∷ rest else rest

-- strcpy into 32 bytes.
unfoldable pub fits : Bytes → Bool
fits s = ltb (length s) 32

-- A line of a node: name, ip and port. What is missing leaves no node, and what is more is ignored.
unfoldable pub add_node : List Bytes → ServerCfg → Outcome ServerCfg
add_node [] c = ok c
add_node (name ∷ []) c = if fits name then ok c else abort
add_node (name ∷ ip ∷ []) c = if fits name && fits ip then ok c else abort
add_node (name ∷ ip ∷ port ∷ more) c =
    if fits name && fits ip && fits port
    then ok (record c {
      node_lst = c.node_lst ++ (record { node_name = name; ip = ip; port = port } ∷ []);
    })
    else abort

unfoldable pub read_line : Bytes → ServerCfg → Outcome ServerCfg
read_line s c =
    if begins b'g' s || begins b'k' s
    then add_node (strtok b',' s) c
    else (if fits s then ok (record c { listen_port = s }) else abort)

unfoldable pub read_lines : List Bytes → ServerCfg → Outcome ServerCfg
read_lines [] c = ok c
read_lines (s ∷ ss) c = read_line s c >>= λ c'. read_lines ss c'

-- Is there a 0, where strtok stops?
unfoldable pub has_end : Bytes → Bool
has_end [] = false
has_end (b ∷ bs) = b == 0 || has_end bs

-- serverCfg::init. fread takes up to 4096 bytes of the file, `content`; the buffer is not cleared, and
-- `stack` is what stood in its 4096 bytes before. Without a 0 in it strtok leaves the buffer. An
-- empty file changes nothing.
unfoldable pub init : Bytes → Bytes → Bytes → ServerCfg → Outcome ServerCfg
init stack name content c =
    let tag = codes "start_" ++ (name ++ codes "_cfg") in
    let text = take 4096 content in
    let buf = text ++ drop (length text) stack in
    let read = read_lines (select tag false false (strtok b'\n' buf)) c in
    if is_empty content then ok c else (if has_end buf then read else abort)
