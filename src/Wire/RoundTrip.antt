-- ===== src/Wire/RoundTrip.antt =====
-- What decodeBuffer reads back of what encodeBuffer wrote.
use kcpserver_cpp.Common.{
  ℕ, append_assoc, ◌+◌, ◌%◌, ◌^◌, ◌<◌, ◌≡◌, ap, some, [], ◌++◌, arith, Bytes, le_bytes, le_value,
  length, take, length-append, take_all, take-length_append, drop-length_append,
}
use kcpserver_cpp.Wire.{
  RpcObj, default_result, get_rpc_size, put_text, encode_buffer, get_text, decode_buffer, read_tail,
  read_texts,
}

-- A text of at most 255 bytes is read back, and what follows it is left.
pub get_text-put_text :
    (s rest : Bytes) → length s < 256 → get_text (put_text s ++ rest) ≡ (s, rest)
unfolding get_text put_text
get_text-put_text s rest h =
    let e : length s % 256 ≡ length s = omega arith in
    rw
      (e, take_all (length s) s (omega arith), take-length_append s rest, drop-length_append s rest)

pub length-put_text : (s : Bytes) → length s < 256 → length (put_text s) ≡ 1 + length s
unfolding put_text
length-put_text s h =
    let e : length s % 256 ≡ length s = omega arith in
    rw (e, take_all (length s) s (omega arith)) (omega arith)

read_texts-put_text :
    (k t p r rest : Bytes)
    → length k < 256
    → length t < 256
    → length p < 256
    → length r < 256
    → read_texts (put_text k ++ (put_text t ++ (put_text p ++ (put_text r ++ rest))))
      ≡ read_tail k t p r rest
unfolding read_texts
read_texts-put_text k t p r rest hk ht hp hr = rw (
  get_text-put_text k _ hk,
  get_text-put_text t _ ht,
  get_text-put_text p _ hp,
  get_text-put_text r _ hr,
)

-- What a frame carries, for texts that fit their length byte and numbers that fit their fields.
pub record IsFrame (name target : Bytes) (pid msgid : ℕ) (body : Bytes) : Type 0 where
  pub name_fits : length name < 256
  pub target_fits : length target < 256
  pub pid_fits : pid < 2 ^ 64
  pub msgid_fits : msgid < 2 ^ 32
  pub size_fits : length body + 1024 < 2 ^ 32

-- The object that a frame stands for.
abbrev pub sent : Bytes → Bytes → ℕ → ℕ → Bytes → RpcObj
sent name target pid msgid body = record {
  target = target;
  key = [];
  param = name;
  result = default_result;
  pid = pid;
  msgid = msgid;
  body = body;
}

module _ (name target : Bytes) (pid msgid : ℕ) (body : Bytes) where
  tail : Bytes
  tail = le_bytes 8 pid ++ (le_bytes 4 msgid ++ (le_bytes 4 (length body) ++ body))

  read_tail-tail :
      (k t p r rest : Bytes)
      → IsFrame name target pid msgid body
      → read_tail k t p r (tail ++ rest) ≡ record {
        target = t;
        key = k;
        param = p;
        result = r;
        pid = pid;
        msgid = msgid;
        body = body;
      }
  unfolding read_tail tail
  read_tail-tail k t p r rest f =
      let e : le_value 4 (le_bytes 4 (length body)) ≡ length body = omega arith in
      let b : take (le_value 4 (le_bytes 4 (length body))) (body ++ rest) ≡ body =
        rw e (take-length_append body rest) in
      ground (arith, b)

  length-tail : length tail ≡ 16 + length body
  unfolding tail
  length-tail = omega arith

  pub get_rpc_size_fits :
      IsFrame name target pid msgid body
      → get_rpc_size name target body ≡ 27 + length target + length name + length body
  unfolding get_rpc_size
  get_rpc_size_fits f = omega arith

  pub length-encode_buffer :
      IsFrame name target pid msgid body
      → (length (encode_buffer name target pid msgid body) ≡ get_rpc_size name target body + 4)
  unfolding encode_buffer tail
  length-encode_buffer f =
      rw
        (
          length-append (put_text []),
          length-append (put_text target),
          length-append (put_text name),
          length-append (put_text default_result),
        )
        (omega (
          arith,
          length-put_text [] (omega arith),
          length-put_text target f.target_fits,
          length-put_text name f.name_fits,
          length-put_text default_result (omega arith),
          get_rpc_size_fits f,
        ))

  -- If the name and the target are shorter than 256 bytes, the player's number is below 2 ^ 64,
  -- the message's below 2 ^ 32 and the body at least 1024 bytes shorter than 2 ^ 32, then decoding
  -- the frame gives back what was encoded, whatever bytes follow the frame: the name as the
  -- parameter, an empty key and the default result.
  pub decode-encode :
      (rest : Bytes)
      → IsFrame name target pid msgid body
      → decode_buffer (encode_buffer name target pid msgid body ++ rest)
        ≡ some (sent name target pid msgid body)
  unfolding decode_buffer encode_buffer tail
  decode-encode rest f = ap some (
      rw
        (
          append_assoc (put_text []),
          append_assoc (put_text target),
          append_assoc (put_text name),
          append_assoc (put_text default_result),
          read_texts-put_text [] target name default_result (tail ++ rest) (omega arith)
              f.target_fits f.name_fits (omega arith),
        )
        (read_tail-tail [] target name default_result rest f))

  -- A frame begins with the number of the bytes that follow.
  pub le_value-encode :
      (rest : Bytes)
      → le_value 4 (encode_buffer name target pid msgid body ++ rest)
        ≡ get_rpc_size name target body
  unfolding encode_buffer get_rpc_size
  le_value-encode rest = omega arith
