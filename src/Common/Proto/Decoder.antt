-- ===== src/Common/Proto/Decoder.antt =====
-- The incremental `Decoder` of proto.cpp. How a `std::string` manages its capacity is the standard
-- library's: the parameter `a` says what it becomes. `next`'s loop takes fuel, and a turn that
-- does not return consumes a header, so the buffer's length is enough.
pub mod Step
pub mod Safety
pub mod Stream
use sshos.Base.{
  ℕ, zero, suc, ◌+◌, ◌-◌, ◌*◌, ◌||◌, Bool, true, false, not, List, [], ◌∷◌, ◌++◌, Option, none,
  some, Bytes, length, take, drop, ltb, leb, ◌==◌, ◌&&◌, if◌then◌else◌,
}
use sshos.Common.Proto.{Msg, max_message_bytes, max_buffer_bytes, header_size}
use sshos.Common.Proto.Reader.{Reader, u8, u32, read_body}

-- What a string's capacity becomes as it grows, is shrunk, or is replaced by a fresh one.
pub record Allocator : Type 0 where
  pub grow : ℕ → ℕ → ℕ
  pub shrink : ℕ → ℕ
  pub fresh : ℕ

pub record Decoder : Type 0 where
  pub buf : Bytes
  pub pos : ℕ
  pub failed : Bool
  pub capacity : ℕ

abbrev pub new_decoder : Allocator → Decoder
new_decoder a = record { buf = []; pos = 0; failed = false; capacity = a.fresh }

abbrev pub release_threshold : ℕ
release_threshold = max_buffer_bytes

abbrev pub compact_min_size : ℕ
compact_min_size = 4096

-- The bytes not consumed yet.
abbrev pub unread : Decoder → Bytes
unread d = drop d.pos d.buf

pub data Turn : Type 0 where
  returned : Option Msg → Decoder → Turn
  continued : Decoder → Turn

abbrev pub body_reader : ℕ → Decoder → Reader
body_reader len d = record { s = take len (drop (d.pos + header_size) d.buf); i = 0; ok = true }

abbrev pub head_reader : Decoder → Reader
head_reader d = record { s = unread d; i = 0; ok = true }

module _ (a : Allocator) where
  unfoldable pub fail : Decoder → Decoder
  fail d = record { buf = []; pos = 0; failed = true; capacity = a.shrink d.capacity }

  unfoldable pub compact : Decoder → Decoder
  compact d =
      if d.pos == 0
      then d
      else if d.pos == length d.buf && leb release_threshold d.capacity
      then record d { buf = []; pos = 0; capacity = a.fresh }
      else if ltb (length d.buf) compact_min_size || ltb (d.pos * 2) (length d.buf)
      then d
      else record d { buf = drop d.pos d.buf; pos = 0 }

  unfoldable pub feed : Bytes → Decoder → Decoder
  feed bytes d =
      if d.failed
      then d
      else if length bytes == 0
      then d
      else if ltb max_buffer_bytes (length d.buf - d.pos + length bytes)
      then fail d
      else record d {
        buf = d.buf ++ bytes;
        capacity =
            if leb (length (d.buf ++ bytes)) d.capacity
            then d.capacity
            else a.grow d.capacity (length (d.buf ++ bytes));
      }

  -- Behind the `switch`: the message, if the tag is known, and the reader it was read with.
  unfoldable pub close_turn : ℕ → Decoder → Option Msg → Reader → Turn
  close_turn len d none r = continued (compact d)
  close_turn len d (some m) r =
      if not r.ok || not (r.i == len) then returned none (fail d) else returned (some m) (compact d)

  -- A turn behind the header, with its tag and length.
  unfoldable pub take_body : ℕ → ℕ → Decoder → Turn
  unfolding close_turn
  take_body tag len d =
      if ltb max_message_bytes len
      then returned none (fail d)
      else if ltb (length d.buf - d.pos) (header_size + len)
      then returned none d
      else close_turn len (record d { pos = d.pos + (header_size + len) })
          (read_body tag (body_reader len d)).0 (read_body tag (body_reader len d)).1

  -- One turn of the loop.
  unfoldable pub turn : Decoder → Turn
  unfolding take_body
  turn d =
      if ltb (length d.buf - d.pos) header_size
      then returned none d
      else take_body (u8 (head_reader d)).0 (u32 (u8 (head_reader d)).1).0 d

  unfoldable pub next_loop : ℕ → Decoder → Option Msg × Decoder
  next_loop zero d = (none, d)
  next_loop (suc fuel) d = elim (turn d) [
    | returned m d' ↦ (m, d')
    | continued d' ↦ next_loop fuel d'
  ]

  unfoldable pub next : Decoder → Option Msg × Decoder
  next d = if d.failed then (none, d) else next_loop (suc (length d.buf)) d

  -- `while (auto m = dec.next())`, up to the first `next` that has none: the messages that are
  -- there; `fuel` bounds their number. The body of the client's loop, which is not modelled, can
  -- leave it before: at a `Detached`, at an `Incompatible` and where a frame cannot be written.
  unfoldable pub drain : ℕ → Decoder → List Msg × Decoder
  unfolding next
  drain zero d = ([], d)
  drain (suc fuel) d = elim (next d).0 [
    | none ↦ ([], (next d).1)
    | some m ↦ (m ∷ (drain fuel (next d).1).0, (drain fuel (next d).1).1)
  ]

  -- One `read` of the client, one `feed`, and the messages that it completes.
  unfoldable pub receive : Bytes → Decoder → List Msg × Decoder
  unfolding feed drain
  receive bytes d = drain (suc (length (feed bytes d).buf)) (feed bytes d)

  unfoldable pub receive_all : List Bytes → Decoder → List Msg × Decoder
  receive_all [] d = ([], d)
  receive_all (c ∷ cs) d =
      ((receive c d).0 ++ (receive_all cs (receive c d).1).0, (receive_all cs (receive c d).1).1)
