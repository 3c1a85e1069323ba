-- ===== src/Tcp/Clients/Threads/Reconnecting.antt =====
-- tcpclient.cpp, OnRead with DelConn and OnClose: what a client is after its connection was lost.
use kcpserver_cpp.Common.{
  ℕ, ◌≡◌, refl, sym, ap, ◌∙◌, Bool, true, false, Option, none, some, List, [], ◌∷◌, leb, Bytes,
  codes, int_ltb, lookup_new, lookup_old, none_ne_some, ok, Each, Each-ok, Each-hang, Each-bind,
}
use kcpserver_cpp.SendQueue.{Sender, rpc_buff_size, append_send}
use kcpserver_cpp.Tcp.{Receiver, closed, on_read}
use kcpserver_cpp.Tcp.Clients.{
  Client, ClientMgr, insert_int, sender_of, with_sender, get_tcp_client_by_fd, do_connect, on_close,
  del_conn,
}
use kcpserver_cpp.Tcp.Clients.Threads.{Inputs, read_client}

-- The socket and the receiving half, which connecting leaves alone.
record IsSame (c : Client) (r : ℕ × Client) : Type 0 where
  sock_kept : r.1.sock ≡ c.sock
  receiver_kept : r.1.receiver ≡ c.receiver

do_connect-IsSame :
    (self : Bytes) (tries : List Bool) (pool : ℕ) (c : Client)
    → Each (IsSame c) (do_connect self tries pool c)
unfolding do_connect
do_connect-IsSame self [] pool c = Each-hang
do_connect-IsSame self (false ∷ tries) pool c = do_connect-IsSame self tries pool c
do_connect-IsSame self (true ∷ tries) pool c =
    Each-bind {P = λ (s : Sender). Unit {0}}
      {m = append_send self (codes "TakeProxy") 0 0 [] (sender_of pool c)}
      {f = λ s. ok (s.pool, with_sender s c)} (record { holds = λ s e. tt })
      (λ s u. Each-ok (record { sock_kept = refl; receiver_kept = refl }))

-- The end of the stream, while there is room in the buffer.
on_read-closed :
    (r : Receiver) → leb rpc_buff_size r.recv_offset ≡ false → on_read closed r ≡ (r, none)
unfolding on_read
on_read-closed r room = rw (on_read, room)

abbrev put : ℕ → Client → ClientMgr → ClientMgr
put fd c m = record m { map_fd_tcp_client = insert_int fd c m.map_fd_tcp_client }

get-put : (fd : ℕ) (c : Client) (m : ClientMgr) → get_tcp_client_by_fd (put fd c m) fd ≡ some c
unfolding get_tcp_client_by_fd
get-put fd c m = lookup_new int_ltb fd c m.map_fd_tcp_client

get-put_other :
    (fd j : ℕ) (c : Client) (m : ClientMgr)
    → (fd ≡ j → ⊥)
    → get_tcp_client_by_fd (put fd c m) j ≡ get_tcp_client_by_fd m j
unfolding get_tcp_client_by_fd
get-put_other fd j c m n = lookup_old int_ltb fd j c m.map_fd_tcp_client n

read_client-closed :
    (self : Bytes) (inputs : Inputs) (fd : ℕ) (c : Client) (m : ClientMgr)
    → inputs.read c.sock ≡ closed
    → leb rpc_buff_size c.receiver.recv_offset ≡ false
    → read_client self inputs fd c m
      ≡ del_conn false self (inputs.new_sock c.sock) (inputs.tries c.sock) c.sock (put fd c m)
unfolding read_client
read_client-closed self inputs fd c m e room =
    let both : on_read (inputs.read c.sock) c.receiver ≡ (c.receiver, none) =
      rw e (on_read-closed c.receiver room) in
    rw (read_client, both)
      (ap
        (λ (x : Receiver × Option ℕ).
          del_conn false self (inputs.new_sock c.sock) (inputs.tries c.sock) c.sock
            (put fd (record c { receiver = x.0 }) m))
        both)

del_conn-found :
    (self : Bytes) (sock : ℕ) (tries : List Bool) (fd : ℕ) (c c' : Client) (m : ClientMgr)
    (pool : ℕ)
    → get_tcp_client_by_fd m fd ≡ some c
    → do_connect self tries m.pool (record c { sock = sock }) ≡ ok (pool, c')
    → del_conn false self sock tries fd m ≡ ok (record (put fd c' m) { pool = pool })
unfolding del_conn on_close
del_conn-found self sock tries fd c c' m pool e f = rw (del_conn, e, on_close, f)

del_conn-none :
    (self : Bytes) (sock : ℕ) (tries : List Bool) (fd : ℕ) (m : ClientMgr)
    → get_tcp_client_by_fd m fd ≡ none
    → del_conn false self sock tries fd m ≡ ok m
unfolding del_conn
del_conn-none self sock tries fd m e = rw (del_conn, e)

-- A client is connected again only once, and then out of step. Take a client that stands in the map
-- under its own socket, has room in its buffer, and reads the end of its stream. If the new socket
-- is no key of the map and connecting returns, then the client has the new socket, but still all
-- that it had received, so that an incomplete frame of the old stream stands in front of the new one;
-- and when it reads the end of the new stream, DelConn does not find it, and it stays as it is.
pub reconnected_once :
    (self : Bytes) (first second : Inputs) (c c' : Client) (m : ClientMgr) (pool : ℕ)
    → get_tcp_client_by_fd m c.sock ≡ some c
    → leb rpc_buff_size c.receiver.recv_offset ≡ false
    → first.read c.sock ≡ closed
    → get_tcp_client_by_fd m (first.new_sock c.sock) ≡ none
    → do_connect self (first.tries c.sock) m.pool (record c { sock = first.new_sock c.sock })
      ≡ ok (pool, c')
    → second.read c'.sock ≡ closed
    → (m₁ m₂ : ClientMgr) × (read_client self first c.sock c m ≡ ok m₁)
      × (get_tcp_client_by_fd m₁ c.sock ≡ some c')
      × (c'.sock ≡ first.new_sock c.sock)
      × (c'.receiver ≡ c.receiver)
      × (read_client self second c.sock c' m₁ ≡ ok m₂)
      × (get_tcp_client_by_fd m₂ c.sock ≡ some c')
unfolding get_tcp_client_by_fd
reconnected_once self first second c c' m pool there room end free connected end' =
    let fd = c.sock in
    let new = first.new_sock fd in
    let same =
      (do_connect-IsSame self (first.tries fd) m.pool (record c { sock = new })).holds (pool, c')
        connected in
    let m₀ = put fd c m in
    let m₁ = record (put fd c' m₀) { pool = pool } in
    let m₂ = put fd c' m₁ in
    let other : fd ≡ new → ⊥ =
      λ p. none_ne_some (sym free ∙ (ap (get_tcp_client_by_fd m) (sym p) ∙ there)) in
    let lost : get_tcp_client_by_fd m₂ c'.sock ≡ none =
      ap (get_tcp_client_by_fd m₂) same.sock_kept
      ∙ (get-put_other fd new c' m₁ other
          ∙ (get-put_other fd new c' m₀ other ∙ (get-put_other fd new c m other ∙ free))) in
    let room' : leb rpc_buff_size c'.receiver.recv_offset ≡ false =
      ap (λ (r : Receiver). leb rpc_buff_size r.recv_offset) same.receiver_kept ∙ room in
    (
      m₁,
      m₂,
      read_client-closed self first fd c m end room
          ∙ del_conn-found self new (first.tries fd) fd c c' m₀ pool (get-put fd c m) connected,
      get-put fd c' m₀,
      same.sock_kept,
      same.receiver_kept,
      read_client-closed self second fd c' m₁ end' room' ∙ del_conn-none self _ _ c'.sock m₂ lost,
      get-put fd c' m₁,
    )
