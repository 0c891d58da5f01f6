-- ===== src/Common/Proto.antt =====
-- src/common/proto.hpp and proto.cpp: the messages between client and daemon, and their encoding.
-- Each `put_*` is modelled by the bytes that it appends; a size is cut to the width of its cast.
pub mod Reader
pub mod Decoder
use sshos.Base.{ℕ, ◌+◌, ◌*◌, ◌/◌, ◌%◌, ◌^◌, Bool, List, [], ◌∷◌, ◌++◌, Bytes, length, if◌then◌else◌}

abbrev pub build_id : ℕ
build_id = 1

abbrev pub max_message_bytes : ℕ
max_message_bytes = 32 * 1024 * 1024

abbrev pub header_size : ℕ
header_size = 5

abbrev pub max_buffer_bytes : ℕ
max_buffer_bytes = max_message_bytes + header_size + 1024 * 1024

pub record Hello : Type 0 where
  pub build_id : ℕ
  pub cols : ℕ
  pub rows : ℕ
  pub term : Bytes
  pub colorterm : Bytes
  pub utf8 : Bool
  pub env : List (Bytes × Bytes)

pub data Msg : Type 0 where
  hello : Hello → Msg
  welcome : Msg
  incompatible : Bytes → Msg
  detached : Bytes → Msg
  input : Bytes → Msg
  resize : ℕ → ℕ → Msg
  frame : Bytes → Msg

unfoldable pub put_u8 : ℕ → Bytes
put_u8 v = (v % 256) ∷ []

unfoldable pub put_u16 : ℕ → Bytes
unfolding put_u8
put_u16 v = put_u8 (v / 256) ++ put_u8 (v % 256)

unfoldable pub put_u32 : ℕ → Bytes
unfolding put_u16
put_u32 v = put_u16 (v / 65536 % 65536) ++ put_u16 (v % 65536)

unfoldable pub put_str : Bytes → Bytes
put_str s = put_u32 (length s % 2 ^ 32) ++ s

unfoldable pub put_env : List (Bytes × Bytes) → Bytes
put_env [] = []
put_env ((k, v) ∷ env) = put_str k ++ (put_str v ++ put_env env)

-- The tag and the body, as the chain of `std::get_if`s picks them.
unfoldable pub body_of : Msg → ℕ × Bytes
body_of (hello h) = (
  1,
  put_u32 h.build_id
      ++ (put_u16 h.cols
          ++ (put_u16 h.rows
              ++ (put_str h.term
                  ++ (put_str h.colorterm
                      ++ (put_u8 (if h.utf8 then 1 else 0)
                          ++ (put_u32 (length h.env % 2 ^ 32) ++ put_env h.env)))))),
)
body_of welcome = (2, [])
body_of (incompatible reason) = (3, put_str reason)
body_of (detached reason) = (4, put_str reason)
body_of (input bytes) = (5, put_str bytes)
body_of (resize cols rows) = (6, put_u16 cols ++ put_u16 rows)
body_of (frame ansi) = (7, put_str ansi)

unfoldable pub encode : Msg → Bytes
encode m = put_u8 (body_of m).0 ++ (put_u32 (length (body_of m).1 % 2 ^ 32) ++ (body_of m).1)
