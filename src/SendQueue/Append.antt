-- ===== src/SendQueue/Append.antt =====
-- AppendSend: where a frame goes, and when it is refused.
use kcpserver_cpp.Common.{
  abort-ne-ok, ok-injective, ℕ, ◌+◌, ◌-◌, ◌≤◌, ◌<◌, ◌≡◌, ◌↔◌, inl, inr, sym, ap, ◌∙◌, ◌&&◌, ◌++◌,
  ltb, leb, arith, Bytes, length, append_assoc, append-nil, ok, abort, Bool-cases,
}
use kcpserver_cpp.Wire.{get_rpc_size, encode_buffer}
use kcpserver_cpp.Wire.RoundTrip.{IsFrame, length-encode_buffer}
use kcpserver_cpp.SendQueue.{
  rpc_buff_size, Sender, pop_sendcache, current, make_room, put_frame, append_send,
}
use kcpserver_cpp.SendQueue.Order.{joined, joined-append, cached, waiting}

module _ (name target : Bytes) (pid msgid : ℕ) (body : Bytes) where
  frame : Bytes
  frame = encode_buffer name target pid msgid body

  put_frame_waits :
      (need : ℕ) (s : Sender) (c : Bytes) (s' : Sender)
      → put_frame need frame s c ≡ ok s'
      → waiting s' ≡ (joined s.send_cache_queue ++ c) ++ frame
  unfolding put_frame
  put_frame_waits need s c s' e =
      elim (Bool-cases
        (ltb need (rpc_buff_size - length c) && leb (length c + length frame) rpc_buff_size)) [
          | inl t ↦
              ap waiting (sym (ok-injective (rw t at e)))
              ∙ sym (append_assoc (joined s.send_cache_queue) c frame)
          | inr f ↦ absurd (abort-ne-ok (rw f at e))
        ]

  make_room_keeps :
      (need : ℕ) (s : Sender) (c : Bytes)
      → let (s', c') = make_room need s c in
        joined s'.send_cache_queue ++ c' ≡ joined s.send_cache_queue ++ c
  unfolding make_room pop_sendcache
  make_room_keeps need s c = elim (Bool-cases (ltb (rpc_buff_size - length c) need)) [
    | inl t ↦ rw (t, append-nil) (joined-append s.send_cache_queue c)
    | inr f ↦ rw f
  ]

  current_keeps :
      (s : Sender) → let (s', c) = current s in joined s'.send_cache_queue ++ c ≡ waiting s
  unfolding current pop_sendcache
  current_keeps s = ground arith

  -- A call of AppendSend that returns has put its frame, whole, behind everything that waited to
  -- be sent, which is unchanged.
  pub append_send_in_order :
      (s s' : Sender)
      → append_send name target pid msgid body s ≡ ok s'
      → waiting s' ≡ waiting s ++ encode_buffer name target pid msgid body
  unfolding append_send frame
  append_send_in_order s s' e =
      let need = get_rpc_size name target body in
      let (s₁, c₁) = current s in
      let (s₂, c₂) = make_room need s₁ c₁ in
      put_frame_waits need s₂ c₂ s' e
      ∙ ap (λ (x : Bytes). x ++ frame) (make_room_keeps need s₁ c₁ ∙ current_keeps s)

  put_frame_fits :
      (need : ℕ) (s : Sender) (c : Bytes) (s' : Sender)
      → put_frame need frame s c ≡ ok s'
      → length frame ≤ rpc_buff_size
  unfolding put_frame
  put_frame_fits need s c s' e =
      elim (Bool-cases
        (ltb need (rpc_buff_size - length c) && leb (length c + length frame) rpc_buff_size)) [
          | inl t ↦ ground arith
          | inr f ↦ absurd (abort-ne-ok (rw f at e))
        ]

  -- A frame that is taken fits an empty cache.
  pub append_send_fits :
      (s s' : Sender)
      → append_send name target pid msgid body s ≡ ok s'
      → length (encode_buffer name target pid msgid body) ≤ rpc_buff_size
  unfolding append_send frame
  append_send_fits s s' e =
      let need = get_rpc_size name target body in
      let (s₁, c₁) = current s in
      let (s₂, c₂) = make_room need s₁ c₁ in put_frame_fits need s₂ c₂ s' e

  -- For a frame whose fields fit and which is not longer than an empty cache, AppendSend fails
  -- (the assertion, or a write past the end of the cache) exactly if the room that is left in the
  -- current cache, or in an empty one where there is none, is at least the size that is compared
  -- but less than four bytes more.
  pub append_send_fails_iff :
      (s : Sender)
      → IsFrame name target pid msgid body
      → length (encode_buffer name target pid msgid body) ≤ rpc_buff_size
      → let left = rpc_buff_size - length (cached s.send_cache) in
        let need = get_rpc_size name target body in
        (append_send name target pid msgid body s ≡ abort) ↔ ((need ≤ left) × (left < need + 4))
  unfolding append_send current make_room put_frame pop_sendcache frame
  append_send_fails_iff s f fits = grind (arith, length-encode_buffer name target pid msgid body f)
