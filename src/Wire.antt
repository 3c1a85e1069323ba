-- ===== src/Wire.antt =====
-- recvBuff.h and recvBuff.cpp, rpcObj: the frames that the servers exchange.
pub mod RoundTrip
use kcpserver_cpp.Common.{
  ℕ, zero, suc, ◌+◌, ◌*◌, ◌%◌, ◌^◌, Bool, true, false, ◌||◌, ◌&&◌, Option, none, some, List, [],
  ◌∷◌, ◌++◌, ◌==◌, ltb, leb, if◌then◌else◌, Bytes, codes, le_bytes, le_value, c_str, length, get_or,
  take, drop, u32,
}

-- A decoded frame. The buffers are read as C strings.
pub record RpcObj : Type 0 where
  pub target : Bytes
  pub key : Bytes
  pub param : Bytes
  pub result : Bytes
  pub pid : ℕ
  pub msgid : ℕ
  pub body : Bytes

-- The message numbers that chkPt accepts.
abbrev pub known_pts : List ℕ
known_pts =
    0 ∷ 503 ∷ 98 ∷ 99 ∷ 100 ∷ 101 ∷ 102 ∷ 103 ∷ 104 ∷ 105 ∷ 106 ∷ 107 ∷ 108 ∷ 109 ∷ 110 ∷ 111 ∷ 113
    ∷ 114 ∷ 115 ∷ 116 ∷ 117 ∷ 118 ∷ 119 ∷ 120 ∷ 121 ∷ 122 ∷ 123 ∷ 124 ∷ 125 ∷ 126 ∷ 127 ∷ 128 ∷ 129
    ∷ 130 ∷ 131 ∷ 132 ∷ 133 ∷ 134 ∷ 135 ∷ 140 ∷ 141 ∷ 142 ∷ 150 ∷ 151 ∷ 152 ∷ 153 ∷ 154 ∷ 155 ∷ 158
    ∷ 160 ∷ 161 ∷ 162 ∷ 163 ∷ 164 ∷ 170 ∷ 171 ∷ 173 ∷ 180 ∷ 181 ∷ 182 ∷ 183 ∷ 184 ∷ 190 ∷ 191 ∷ 192
    ∷ 193 ∷ 2000 ∷ 2001 ∷ 2002 ∷ 2003 ∷ 2004 ∷ 2005 ∷ 210 ∷ 211 ∷ 212 ∷ 213 ∷ 214 ∷ 215 ∷ 216 ∷ 217
    ∷ 218 ∷ 219 ∷ 220 ∷ 221 ∷ 222 ∷ 223 ∷ 251 ∷ 252 ∷ 253 ∷ 254 ∷ 255 ∷ 256 ∷ 257 ∷ 259 ∷ 260 ∷ 280
    ∷ 281 ∷ 282 ∷ 283 ∷ 284 ∷ 285 ∷ 286 ∷ 287 ∷ 288 ∷ 289 ∷ 290 ∷ 291 ∷ 292 ∷ 293 ∷ 294 ∷ 258 ∷ 300
    ∷ 311 ∷ 312 ∷ 313 ∷ 314 ∷ 320 ∷ 321 ∷ 322 ∷ 323 ∷ 400 ∷ 401 ∷ 402 ∷ 403 ∷ 404 ∷ 413 ∷ 406 ∷ 407
    ∷ 408 ∷ 409 ∷ 410 ∷ 412 ∷ 415 ∷ 414 ∷ 416 ∷ 417 ∷ 418 ∷ 419 ∷ 420 ∷ 421 ∷ 422 ∷ 423 ∷ 424 ∷ 426
    ∷ 427 ∷ 500 ∷ 501 ∷ 502 ∷ 520 ∷ 522 ∷ 540 ∷ 542 ∷ 600 ∷ 601 ∷ 602 ∷ 603 ∷ 604 ∷ 1000 ∷ 1001 ∷ []

pub is_one_of : ℕ → List ℕ → Bool
is_one_of n [] = false
is_one_of n (x ∷ xs) = x == n || is_one_of n xs

pub chk_pt : ℕ → Bool
unfolding is_one_of
chk_pt val = is_one_of val known_pts

abbrev pub default_result : Bytes
default_result = codes "defres"

-- getRpcSize: the size of a frame without its first four bytes, an `int`. `name` is the server's
-- name, which goes out as the parameter; the key is empty.
unfoldable pub get_rpc_size : Bytes → Bytes → Bytes → ℕ
get_rpc_size name target body = u32 (
    1
    + (1 + 0)
    + (1 + length target)
    + (1 + length name)
    + (1 + length default_result)
    + 8
    + 4
    + 4
    + length body)

-- A text behind its length, which is cut to one byte; `memcpy` copies what the byte says.
unfoldable pub put_text : Bytes → Bytes
put_text s = (length s % 256) ∷ take (length s % 256) s

-- encodeBuffer: the bytes that are written at `p`.
unfoldable pub encode_buffer : Bytes → Bytes → ℕ → ℕ → Bytes → Bytes
encode_buffer name target pid msgid body =
    le_bytes 4 (get_rpc_size name target body)
    ++ (0
        ∷ (put_text []
            ++ (put_text target
                ++ (put_text name
                    ++ (put_text default_result
                        ++ (le_bytes 8 pid
                            ++ (le_bytes 4 msgid ++ (le_bytes 4 (length body) ++ body))))))))

-- A text behind its length: what is copied into a zeroed buffer, and what follows.
pub get_text : Bytes → Bytes × Bytes
get_text p = (take (get_or p 0 0) (drop 1 p), drop (get_or p 0 0) (drop 1 p))

-- The numbers and the body, behind the four texts.
pub read_tail : Bytes → Bytes → Bytes → Bytes → Bytes → RpcObj
read_tail key target param result p = record {
  target = target;
  key = key;
  param = param;
  result = result;
  pid = le_value 8 p;
  msgid = le_value 4 (drop 8 p);
  body = take (le_value 4 (drop 12 p)) (drop 16 p);
}

-- The texts stand in the order key, target, param, result.
pub read_texts : Bytes → RpcObj
read_texts p =
    let key = get_text p in
    let target = get_text key.1 in
    let param = get_text target.1 in
    let result = get_text param.1 in read_tail key.0 target.0 param.0 result.0 result.1

-- decodeBuffer, on the bytes from `p` on. `none` is the failed assertion on the message type.
pub decode_buffer : Bytes → Option RpcObj
decode_buffer p = if get_or (drop 4 p) 0 0 == 0 then some (read_texts (drop 5 p)) else none

-- The texts as the handlers read them.
unfoldable pub get_target : RpcObj → Bytes
get_target o = c_str o.target

pub get_param : RpcObj → Bytes
get_param o = c_str o.param
