-- ===== src/Tcp/Delivery.antt =====
-- recvBuff.cpp, conn.cpp and tcpclient.cpp: calls on their way from a game server, whose rpcCallNet and
-- connRpcObj::dealSend have the code of AppendSend and dealSend, to the queue of the tcpclient that a
-- net server has for it.
use kcpserver_cpp.Common.{
  ◌≡◌, refl, sym, ap, ◌∙◌, true, List, [], ◌∷◌, ◌++◌, map, arith, Bytes, length, length-append,
  append_assoc, append-nil, Outcome, ok, ◌>>=◌, both_return, ok-injective,
}
use kcpserver_cpp.Wire.{RpcObj}
use kcpserver_cpp.Wire.RoundTrip.{length-encode_buffer}
use kcpserver_cpp.SendQueue.{Answer, Sender, append_send, Dealt, deal_send}
use kcpserver_cpp.SendQueue.Append.{append_send_in_order, append_send_fits}
use kcpserver_cpp.SendQueue.Order.{waiting, deal_send_in_order}
use kcpserver_cpp.Tcp.{Receiver, ReadAnswer}
use kcpserver_cpp.Tcp.Stream.{Call, bytes_of, object_of, AreFrames, stream}
use kcpserver_cpp.Tcp.Fragments.{
  receive, arrived, StaysOpen, AreShort, IsBegun, holding, receive-Received,
}

-- AppendSend, or rpcCallNet, for each of some calls.
unfoldable pub send_calls : List Call → Sender → Outcome Sender
send_calls [] s = ok s
send_calls (c ∷ cs) s =
    append_send c.name c.target c.pid c.msgid c.body s >>= λ s'. send_calls cs s'

send_calls-waiting :
    (cs : List Call) (s s' : Sender)
    → send_calls cs s ≡ ok s'
    → (waiting s' ≡ waiting s ++ stream cs) × AreShort cs
unfolding send_calls
send_calls-waiting [] s s' e =
    (ap waiting (sym (ok-injective e)) ∙ sym (append-nil (waiting s)), tt)
send_calls-waiting (c ∷ cs) s s' e =
    let (s₁, e₁, e₂) = both_return (append_send c.name c.target c.pid c.msgid c.body s) _ e in
    let (more, short) = send_calls-waiting cs s₁ s' e₂ in
    (
      more
          ∙ (ap (λ (x : Bytes). x ++ stream cs)
                (append_send_in_order c.name c.target c.pid c.msgid c.body s s₁ e₁)
              ∙ append_assoc (waiting s) (bytes_of c) (stream cs)),
      (append_send_fits c.name c.target c.pid c.msgid c.body s s₁ e₁, short),
    )

-- Where nothing is on its way any more, no call is left.
nothing_left :
    (rest : List Call) (begun : Bytes)
    → stream rest ≡ begun ++ []
    → IsBegun begun rest
    → (rest ≡ []) × (begun ≡ [])
nothing_left [] begun e b = (refl, b)
nothing_left (c ∷ cs) begun e b =
    let size = ap (λ (x : Bytes). length x) (e ∙ append-nil begun) in
    absurd (omega (arith, b, size, length-append (bytes_of c) (stream cs)))

begins_nothing : (cs : List Call) → AreFrames cs → IsBegun [] cs
begins_nothing [] f = refl
begins_nothing (c ∷ cs) f =
    omega (arith, length-encode_buffer c.name c.target c.pid c.msgid c.body f.0.0)

-- Calls that one server sends arrive at the other whole, once and in their order, however the
-- network cuts them. If nothing waits in the queue, AppendSend takes calls whose texts are shorter
-- than 256 bytes and whose numbers and sizes fit their fields, dealSend returns, and of the bytes
-- that it gave to the socket some have arrived, all but `future`, in any pieces, with any waits, at
-- an empty buffer whose connection stays open, then the reading thread has put the first of the
-- calls into the queue behind those that were there, in their order, and a part of the next one at
-- most is in the buffer; and if dealSend reported success and all has arrived, these are all of the
-- calls and the buffer is empty.
pub calls_arrive :
    (cs : List Call) (s s₁ : Sender) (answers : List Answer) (r : Dealt) (reads : List ReadAnswer)
    (mem future : Bytes) (que : List RpcObj)
    → AreFrames cs
    → waiting s ≡ []
    → send_calls cs s ≡ ok s₁
    → deal_send answers s₁ ≡ ok r
    → StaysOpen reads
    → arrived reads ++ future ≡ r.bytes
    → (whole rest : List Call) × (r' : Receiver) × (receive reads
          (record { recv_buffer = mem; recv_offset = 0; que_rpc_obj = que })
        ≡ ok r')
      × (cs ≡ whole ++ rest)
      × (r'.que_rpc_obj ≡ que ++ map object_of whole)
      × (r.succ ≡ true → future ≡ [] → (rest ≡ []) × (r'.recv_offset ≡ 0))
calls_arrive cs s s₁ answers r reads mem future que f idle e d o n =
    let (full, short) = send_calls-waiting cs s s₁ e in
    let (lost, parts, clear) = deal_send_in_order answers s₁ r d in
    let later = future ++ (lost ++ waiting r.sender) in
    let all : stream cs ≡ arrived reads ++ later =
      sym (full ∙ ap (λ (x : Bytes). x ++ stream cs) idle)
      ∙ (parts
          ∙ (ap (λ (x : Bytes). x ++ (lost ++ waiting r.sender)) (sym n)
              ∙ append_assoc (arrived reads) future (lost ++ waiting r.sender))) in
    let got = receive-Received reads cs [] mem later que f short (begins_nothing cs f) o all in
    (
      got.whole,
      got.rest,
      holding got.begun got.behind (que ++ map object_of got.whole),
      got.returns,
      got.calls,
      refl,
      λ t u.
          let none_later : later ≡ [] =
            ap (λ (x : Bytes). x ++ (lost ++ waiting r.sender)) u
            ∙ (ap (λ (x : Bytes). x ++ waiting r.sender) (clear t).0 ∙ (clear t).1) in
          let (p, q) =
            nothing_left got.rest got.begun
              (got.ahead ∙ ap (λ (x : Bytes). got.begun ++ x) none_later) got.is_begun in
          (p, ap (λ (x : Bytes). length x) q),
    )
