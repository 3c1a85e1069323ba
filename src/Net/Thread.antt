-- ===== src/Net/Thread.antt =====
-- net.cpp: the listening socket, and netServer::netThreadFun, the thread that turns what epoll
-- reports into entries of the queue of events.
use kcpserver_cpp.Common.{
  ℕ, Bool, ◌||◌, not, Option, none, some, List, [], ◌∷◌, ◌++◌, ◌==◌, ltb, if◌then◌else◌, Bytes,
  codes, length, Outcome, ok, abort, ◌>>=◌, ◌-◌, ◌^◌,
}
use kcpserver_cpp.Text.{strstr}
use kcpserver_cpp.Net.{Server, NetOp, new_conn, data_in, quit_conn}

-- setName: a server whose name has "net" in it is a net server.
unfoldable pub set_name : Bytes → Server → Server
set_name name s = record s { is_net = strstr name (codes "net") }

-- An address of getaddrinfo, with how `socket`, `setsockopt` and `bind` do there; the number is the
-- descriptor.
pub data Candidate : Type 0 where
  no_socket : Candidate
  no_option : ℕ → Candidate
  not_bound : ℕ → Candidate
  bound : ℕ → Candidate

-- The loop of create_and_bind; `none` is -1.
unfoldable pub bind_first : List Candidate → Option ℕ
bind_first [] = none
bind_first (no_socket ∷ more) = bind_first more
bind_first (no_option fd ∷ more) = none
bind_first (not_bound fd ∷ more) = bind_first more
bind_first (bound fd ∷ more) = some fd

-- create_and_bind; `none` for the addresses is an error of getaddrinfo.
unfoldable pub create_and_bind : Option (List Candidate) → Option ℕ
create_and_bind addrs = elim addrs [ none ↦ none | some infos ↦ bind_first infos ]

-- initSock, with how fcntl and listen do: what it returns, and the descriptor that it listens to.
unfoldable pub init_sock : Option (List Candidate) → Bool → Bool → ℕ × Option ℕ
init_sock addrs nonblocking listening = elim (create_and_bind addrs) [
  | none ↦ (2 ^ 32 - 1, none)
  | some fd ↦
      if not nonblocking
      then (2 ^ 32 - 2, none)
      else (if not listening then (2 ^ 32 - 3, some fd) else (0, some fd))
]

unfoldable pub append_st : NetOp → Server → Server
append_st op s = record s { net_queue = s.net_queue ++ (op ∷ []) }

unfoldable pub append_data_in : ℕ → Server → Server
append_data_in fd s = append_st (data_in fd) s

-- The address is printed into 64 bytes.
unfoldable pub append_conn_new : ℕ → Bytes → Bytes → Server → Outcome Server
append_conn_new fd host port s =
    let addr = host ++ (b':' ∷ port) in
    if ltb (length addr) 64 then ok (append_st (new_conn fd addr) s) else abort

unfoldable pub append_conn_close : ℕ → Server → Server
append_conn_close fd s = append_st (quit_conn fd) s

-- A connection that accept gives: its descriptor, whether it can be made non-blocking, and what
-- getnameinfo finds.
pub record Accepted : Type 0 where
  pub fd : ℕ
  pub nonblocking : Bool
  pub host : Bytes
  pub port : Bytes

-- The loop around accept, up to the call that fails. A connection that stays blocking ends the
-- program.
unfoldable pub accept_all : List Accepted → Server → Outcome Server
accept_all [] s = ok s
accept_all (a ∷ more) s =
    let next = append_conn_new a.fd a.host a.port s >>= λ s'. accept_all more s' in
    if a.nonblocking then next else abort

-- What epoll_wait reports of a descriptor.
pub record EpollEvent : Type 0 where
  pub fd : ℕ
  pub err : Bool
  pub hup : Bool
  pub readable : Bool

-- The loop over the events of one epoll_wait. The listening socket is reported once at most in it,
-- so the connections that wait, `backlog`, are taken at once.
unfoldable pub thread_events : ℕ → List Accepted → List EpollEvent → Server → Outcome Server
thread_events sockfd backlog [] s = ok s
thread_events sockfd backlog (e ∷ es) s =
    let closed = thread_events sockfd backlog es (append_conn_close e.fd s) in
    let accepted = accept_all backlog s >>= λ s'. thread_events sockfd [] es s' in
    let data_come = thread_events sockfd backlog es (append_data_in e.fd s) in
    if e.err || e.hup || not e.readable
    then closed
    else (if e.fd == sockfd then accepted else data_come)
