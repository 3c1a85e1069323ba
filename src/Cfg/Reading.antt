-- ===== src/Cfg/Reading.antt =====
-- cfg.cpp: what a configuration file says is what the server reads from it.
use kcpserver_cpp.Common.{
  ℕ, ◌≡◌, refl, ap, ◌∙◌, Bool, true, false, List, [], ◌∷◌, ◌++◌, ◌==◌, ◌||◌, arith, Bytes, codes,
  length, take, take_all, if◌then◌else◌, abort, ◌≤◌, drop, append-nil, append_assoc, map, ok,
}
use kcpserver_cpp.Text.{strtok, strstr}
use kcpserver_cpp.Text.Tokens.{
  IsToken, AllTokens, Lacks, Lacks-append, lacks-Lacks, unlines, strtok-unlines, strtok_three,
  strstr_refl,
}
use kcpserver_cpp.Cfg.{
  NodeCfg, ServerCfg, begins, select, fits, add_node, read_line, read_lines, init, has_end,
}

abbrev pub tag_of : Bytes → Bytes
tag_of name = codes "start_" ++ (name ++ codes "_cfg")

abbrev pub node_text : NodeCfg → Bytes
node_text n = n.node_name ++ (b',' ∷ n.ip ++ (b',' ∷ n.port))

-- A file with one enabled section for the server `name`: the port that it listens to, and the nodes.
abbrev pub file_text : Bytes → Bytes → List NodeCfg → Bytes
file_text name port nodes =
    unlines b'\n' (tag_of name ∷ codes "[1]true" ∷ port ∷ map node_text nodes)

-- A word that fits and that has neither a 0 nor a comma nor a newline.
abbrev pub IsWord : Bytes → Type 0
IsWord w = (fits w ≡ true) × IsToken b',' w × Lacks b'\n' w

-- A line that select keeps in an enabled section.
abbrev pub IsKept : Bytes → Type 0
IsKept l = (begins b'#' l ≡ false) × (begins b'[' l ≡ false) × (strstr l (codes "start") ≡ false)

-- A node is a line that begins with `g` or `k`, and the port one that does not.
abbrev pub is_node : Bytes → Bool
is_node l = begins b'g' l || begins b'k' l

pub record IsNode (n : NodeCfg) : Type 0 where
  pub named : IsWord n.node_name
  pub addressed : IsWord n.ip
  pub ported : IsWord n.port
  pub marked : is_node n.node_name ≡ true
  pub kept : strstr (node_text n) (codes "start") ≡ false

abbrev pub AllNodes : List NodeCfg → Type 0
AllNodes [] = Unit {0}
AllNodes (n ∷ ns) = IsNode n × AllNodes ns

abbrev AllKept : List Bytes → Type 0
AllKept [] = Unit {0}
AllKept (l ∷ ls) = IsKept l × AllKept ls

select-AllKept : (tag : Bytes) (ls : List Bytes) → AllKept ls → select tag true false ls ≡ ls
unfolding select
select-AllKept tag [] h = refl
select-AllKept tag (l ∷ ls) ((c, b, s), h) = rw (c, b, s) (ap (◌∷◌ l) (select-AllKept tag ls h))

select_tag :
    (tag t : Bytes) (ls : List Bytes)
    → (begins b'#' t ≡ false) × (begins b'[' t ≡ false)
    → strstr t (codes "start") ≡ true
    → strstr t tag ≡ true
    → select tag false false (t ∷ ls) ≡ t ∷ select tag true false ls
unfolding select
select_tag tag t ls (c, b) s g = rw (c, b, s, g)

select_section :
    (tag l : Bytes) (ls : List Bytes)
    → (begins b'#' l ≡ false) × (begins b'[' l ≡ true)
    → strstr l (codes "start") ≡ false
    → strstr l (codes "true") ≡ true
    → select tag true false (l ∷ ls) ≡ select tag true false ls
unfolding select
select_section tag l ls (c, b) s g = rw (c, b, s, g)

-- The first two lines: the tag is kept, the head of the section is not.
select_file :
    (name : Bytes) (ls : List Bytes)
    → AllKept ls
    → select (tag_of name) false false (tag_of name ∷ codes "[1]true" ∷ ls) ≡ tag_of name ∷ ls
unfolding strstr
select_file name ls h =
    select_tag (tag_of name) (tag_of name) _ (refl, refl) refl (strstr_refl (tag_of name))
    ∙ ap (◌∷◌ (tag_of name)) (
        select_section (tag_of name) (codes "[1]true") ls (refl, refl) refl refl
        ∙ select-AllKept (tag_of name) ls h)

begins-append : (sep b : ℕ) (w rest : Bytes) → IsToken sep w → begins b (w ++ rest) ≡ begins b w
begins-append sep b [] rest h = absurd h
begins-append sep b (x ∷ xs) rest h = refl

-- A line that begins with `g` or `k` begins with nothing else.
begins_other :
    (b : ℕ) (w : Bytes)
    → is_node w ≡ true
    → (b == b'g') ≡ false
    → (b == b'k') ≡ false
    → begins b w ≡ false
begins_other b [] m g k = refl
begins_other b (x ∷ xs) m g k = ground arith

IsToken-append :
    (sep sep' : ℕ) (w rest : Bytes)
    → IsToken sep w
    → Lacks sep' (w ++ rest)
    → IsToken sep' (w ++ rest)
IsToken-append sep sep' [] rest h l = absurd h
IsToken-append sep sep' (x ∷ xs) rest h l = l

module _ (n : NodeCfg) (h : IsNode n) where
  node_text-is_node : is_node (node_text n) ≡ true
  node_text-is_node =
      rw
        (
          begins-append b',' b'g' n.node_name (b',' ∷ n.ip ++ (b',' ∷ n.port)) h.named.1,
          begins-append b',' b'k' n.node_name (b',' ∷ n.ip ++ (b',' ∷ n.port)) h.named.1,
        )
        h.marked

  node_text-IsKept : IsKept (node_text n)
  node_text-IsKept = (
    begins_other b'#' (node_text n) node_text-is_node refl refl,
    begins_other b'[' (node_text n) node_text-is_node refl refl,
    h.kept,
  )

  node_text-IsToken : IsToken b'\n' (node_text n)
  node_text-IsToken = IsToken-append b',' b'\n' n.node_name _ h.named.1 (
      Lacks-append b'\n' n.node_name _ h.named.2
        (refl, refl, Lacks-append b'\n' n.ip _ h.addressed.2 (refl, refl, h.ported.2)))

  read_line-node :
      (c : ServerCfg)
      → read_line (node_text n) c ≡ ok (record c { node_lst = c.node_lst ++ (n ∷ []) })
  unfolding read_line add_node
  read_line-node c =
      let three =
        strtok_three b',' n.node_name n.ip n.port refl h.named.1 h.addressed.1 h.ported.1 in
      rw (read_line, node_text-is_node, three, add_node, h.named.0, h.addressed.0, h.ported.0)

nodes-AllKept : (ns : List NodeCfg) → AllNodes ns → AllKept (map node_text ns)
nodes-AllKept [] h = tt
nodes-AllKept (n ∷ ns) (h, hs) = (node_text-IsKept n h, nodes-AllKept ns hs)

nodes-AllTokens : (ns : List NodeCfg) → AllNodes ns → AllTokens b'\n' (map node_text ns)
nodes-AllTokens [] h = tt
nodes-AllTokens (n ∷ ns) (h, hs) = (node_text-IsToken n h, nodes-AllTokens ns hs)

read_lines-nodes :
    (ns : List NodeCfg) (c : ServerCfg)
    → AllNodes ns
    → read_lines (map node_text ns) c ≡ ok (record c { node_lst = c.node_lst ++ ns })
unfolding read_lines
read_lines-nodes [] c h = rw append-nil
read_lines-nodes (n ∷ ns) c (h, hs) =
    rw (read_lines, read_line-node n h c)
      (read_lines-nodes ns (record c { node_lst = c.node_lst ++ (n ∷ []) }) hs ∙ rw append_assoc)

-- A line that is no node is a port.
read_line-port :
    (l : Bytes) (c : ServerCfg)
    → is_node l ≡ false
    → fits l ≡ true
    → read_line l c ≡ ok (record c { listen_port = l })
unfolding read_line
read_line-port l c n f = rw (read_line, n, f)

tag_of-IsToken : (name : Bytes) → Lacks b'\n' name → IsToken b'\n' (tag_of name)
tag_of-IsToken name h =
    Lacks-append b'\n' (codes "start_") _ (lacks-Lacks b'\n' (codes "start_") refl)
      (Lacks-append b'\n' name (codes "_cfg") h (lacks-Lacks b'\n' (codes "_cfg") refl))

has_end-append : (xs more : Bytes) → has_end (xs ++ (0 ∷ more)) ≡ true
unfolding has_end
has_end-append [] more = refl
has_end-append (x ∷ xs) more = ground (arith, has_end-append xs more)

-- What a configuration file says is what the server reads. If the file consists of the tag line of
-- this server, an enabled section "[1]true", a port and nodes, each port and part of a node is a
-- word of less than 32 bytes without 0, comma and newline, each node begins with `g` or `k`, the
-- port with neither, nor with `#` or `[`, no line but the tag has "start" in it, and the tag fits
-- as well, and the file has at most 4096 bytes, then init sets the port and adds the nodes in their
-- order, provided that the byte behind the text in the buffer, which is not cleared, is 0.
pub init_reads :
    (stack more name port : Bytes) (nodes : List NodeCfg) (c : ServerCfg)
    → (let content = file_text name port nodes in drop (length content) stack ≡ 0 ∷ more)
    → length (file_text name port nodes) ≤ 4096
    → Lacks b'\n' name
    → fits (tag_of name) ≡ true
    → IsToken b'\n' port
    → fits port ≡ true
    → is_node port ≡ false
    → IsKept port
    → AllNodes nodes
    → init stack name (file_text name port nodes) c
      ≡ ok (record c { listen_port = port; node_lst = c.node_lst ++ nodes })
unfolding init read_lines
init_reads stack more name port nodes c ended short plain_name tag_fits token port_fits no_node kept
      hs =
    let lines = tag_of name ∷ codes "[1]true" ∷ port ∷ map node_text nodes in
    let section = lacks-Lacks b'\n' (codes "[1]true") refl in
    let tokens : AllTokens b'\n' lines =
      (tag_of-IsToken name plain_name, (section, (token, nodes-AllTokens nodes hs))) in
    let split = strtok-unlines b'\n' lines more refl tokens in
    let chosen = select_file name (port ∷ map node_text nodes) (kept, nodes-AllKept nodes hs) in
    let content = file_text name port nodes in
    let tag = tag_of name in
    let by_tag = record c { listen_port = tag } in
    let all = take_all 4096 content short in
    let buf : take 4096 content ++ drop (length (take 4096 content)) stack ≡ content ++ (0 ∷ more) =
      ap (λ (t : Bytes). t ++ drop (length t) stack) all ∙ ap (λ (b : Bytes). content ++ b) ended in
    let run = λ (b : Bytes).
      if has_end b then read_lines (select tag false false (strtok b'\n' b)) c else abort in
    ap run buf
    ∙ (rw (has_end-append content more) refl
        ∙ (ap (λ (ls : List Bytes). read_lines (select tag false false ls) c) split
            ∙ (ap (λ (ls : List Bytes). read_lines ls c) chosen
                ∙ rw (read_lines, read_line-port tag c refl tag_fits)
                    (rw (read_lines, read_line-port port by_tag no_node port_fits)
                      (read_lines-nodes nodes (record c { listen_port = port }) hs)))))
