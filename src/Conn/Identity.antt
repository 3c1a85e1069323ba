-- ===== src/Conn/Identity.antt =====
-- conn.cpp: a connection keeps its descriptor and its number whatever it receives and sends.
use kcpserver_cpp.Common.{
  ℕ, arith, Option-cases, inl, inr, zero, suc, ◌+◌, ◌-◌, ◌≡◌, refl, ◌∙◌, Bool, true, Option, none,
  some, List, [], ◌∷◌, ◌++◌, ◌==◌, ltb, leb, min, if◌then◌else◌, Bytes, le_value, take, drop, ok,
  Each, Each-ok, Each-hang, Each-abort, Each-if, Each-bind,
}
use kcpserver_cpp.Wire.{decode_buffer}
use kcpserver_cpp.SendQueue.{Answer, wrote, eagain, failed, send_size}
use kcpserver_cpp.Tcp.{ReadAnswer}
use kcpserver_cpp.Conn.{
  Conn, Event, Sending, Parsed, enqueue, send_loop, send, raw_on_read, reset_buffer, deal_msg,
  deal_rpc_msg, keep_partial, net_loop, rpc_loop, parse_buff, on_read, and_then, max_message, qps,
}

-- The same descriptor, number and kind.
pub record Keeps (c c' : Conn) : Type 0 where
  pub fd_kept : c'.fd ≡ c.fd
  pub pid_kept : c'.pid ≡ c.pid
  pub rpc_kept : c'.rpc ≡ c.rpc

kept : (c c' : Conn) → c'.fd ≡ c.fd → c'.pid ≡ c.pid → c'.rpc ≡ c.rpc → Keeps c c'
kept c c' f p r = record { fd_kept = f; pid_kept = p; rpc_kept = r }

same : (c : Conn) → Keeps c c
same c = kept c c refl refl refl

enqueue-Keeps : (buf : Option Bytes) (c : Conn) → Keeps c (enqueue buf c)
unfolding enqueue
enqueue-Keeps none c = same c
enqueue-Keeps (some buf) c = ground arith

send_loop-Keeps :
    (net : Bool) (answers : List Answer) (c : Conn)
    → Each (λ (s : Sending). Keeps c s.conn) (send_loop net answers c)
unfolding send_loop
send_loop-Keeps net [] c = Each-hang
send_loop-Keeps net (eagain ∷ answers) c = Each-ok (same c)
send_loop-Keeps net (failed ∷ answers) c = Each-ok (same c)
send_loop-Keeps net (wrote n ∷ answers) c =
    let c' = record c {
      send_buf_offset =
          c.send_buf_offset + min n (min send_size (c.send_buf_len - c.send_buf_offset));
    } in
    Each-if _ Each-abort (
      Each-if _ (Each-ok (kept c _ refl refl refl)) (
        Each-bind (send_loop-Keeps net answers c')
          (λ s k. Each-ok (kept c _ k.fd_kept k.pid_kept k.rpc_kept))))

then_Keeps : {c c' c'' : Conn} → Keeps c c' → Keeps c' c'' → Keeps c c''
then_Keeps k l = record {
  fd_kept = l.fd_kept ∙ k.fd_kept;
  pid_kept = l.pid_kept ∙ k.pid_kept;
  rpc_kept = l.rpc_kept ∙ k.rpc_kept;
}

pub send-Keeps :
    (net : Bool) (answers : List Answer) (buf : Option Bytes) (c : Conn)
    → Each (λ (s : Sending). Keeps c s.conn) (send net answers buf c)
unfolding send
send-Keeps net answers buf c = Each-if _ (Each-ok (same c)) (record {
  holds = λ s e.
      then_Keeps (enqueue-Keeps buf c) ((send_loop-Keeps net answers (enqueue buf c)).holds s e);
})

raw_on_read-Keeps : (answer : ReadAnswer) (c : Conn) → Keeps c (raw_on_read answer c).0
unfolding raw_on_read
raw_on_read-Keeps answer c = ground arith

reset_buffer-Keeps : (c : Conn) → Keeps c (reset_buffer c)
unfolding reset_buffer
reset_buffer-Keeps c = ground arith

net_loop-Keeps :
    (net : Bool) (fuel : ℕ) (c : Conn) → Each (λ (r : Parsed). Keeps c r.0) (net_loop net fuel c)
unfolding net_loop keep_partial
net_loop-Keeps net zero c = Each-hang
net_loop-Keeps net (suc fuel) c =
    let size = le_value 4 (drop c.read_offset c.net_buffer) in
    let msgid = le_value 4 (drop (c.read_offset + 4) c.net_buffer) in
    let body = take size (drop (c.read_offset + 8) c.net_buffer) in
    let c' = record c { read_offset = c.read_offset + size + 8 } in
    let counted = if net then qps 4 (size + 8) ∷ [] else [] in
    Each-if (ltb (c.net_offset - c.read_offset) 8)
      (Each-ok (kept c (keep_partial c) refl refl refl))
      (Each-if (ltb (c.net_offset - c.read_offset - 8) size) (Each-ok (same c)) (
        Each-if (leb max_message size) (Each-ok (same c)) (
          Each-bind {P = λ (e : Event). Unit {0}} {m = deal_msg c.pid msgid body}
            (record { holds = λ e h. tt })
            (λ e u.
              Each-bind {f = λ r. ok (and_then (counted ++ (e ∷ [])) r)}
                (net_loop-Keeps net fuel c')
                (λ r k. Each-ok (kept c _ k.fd_kept k.pid_kept k.rpc_kept))))))

rpc_loop-Keeps : (fuel : ℕ) (c : Conn) → Each (λ (r : Parsed). Keeps c r.0) (rpc_loop fuel c)
unfolding rpc_loop keep_partial
rpc_loop-Keeps zero c = Each-hang
rpc_loop-Keeps (suc fuel) c =
    let c' = record c {
      read_offset = c.read_offset + le_value 4 (drop c.read_offset c.net_buffer) + 4;
    } in
    Each-if (ltb (c.net_offset - c.read_offset) 4)
      (Each-ok (kept c (keep_partial c) refl refl refl))
      (Each-if
        (ltb (c.net_offset - c.read_offset - 4) (le_value 4 (drop c.read_offset c.net_buffer)))
        (Each-ok (same c))
        (Each-if (leb max_message (le_value 4 (drop c.read_offset c.net_buffer))) (Each-ok (same c))
          (elim (Option-cases (decode_buffer (drop c.read_offset c.net_buffer))) [
            | inl n ↦ rw n Each-abort
            | inr (obj, e) ↦ rw e (
                Each-bind {f = λ r. ok (and_then (deal_rpc_msg obj) r)} (rpc_loop-Keeps fuel c')
                  (λ r k. Each-ok (kept c _ k.fd_kept k.pid_kept k.rpc_kept)))
          ])))

parse_buff-Keeps :
    (game net : Bool) (now : ℕ) (c : Conn)
    → Each (λ (r : Bool × Conn × List Event). Keeps c r.1) (parse_buff game net now c)
unfolding parse_buff
parse_buff-Keeps game net now c =
    let c' = record c { last_sec = now; read_offset = 0 } in
    let run : Each (λ (r : Parsed). Keeps c' r.0)
        (if game then rpc_loop (suc c.net_offset) c' else net_loop net (suc c.net_offset) c') =
      Each-if game (rpc_loop-Keeps (suc c.net_offset) c')
        (net_loop-Keeps net (suc c.net_offset) c') in
    Each-if (c.net_offset == 0) (Each-ok (same c)) (
      Each-bind {f = λ r. ok (true, r.0, r.1)} run
        (λ r k. Each-ok (kept c r.0 k.fd_kept k.pid_kept k.rpc_kept)))

pub on_read-Keeps :
    (game net : Bool) (now : ℕ) (answer : ReadAnswer) (c : Conn)
    → Each (λ (r : ℕ × Conn × List Event). Keeps c r.1) (on_read game net now answer c)
unfolding on_read
on_read-Keeps game net now answer c = Each-if _ (Each-ok (same c)) (
    Each-bind (parse_buff-Keeps game net now (raw_on_read answer c).0) (λ r k.
      Each-ok (then_Keeps (raw_on_read-Keeps answer c) (then_Keeps k (reset_buffer-Keeps r.1)))))
