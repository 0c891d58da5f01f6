-- ===== src/Common/Proto/Reader.antt =====
-- The `Reader` of proto.cpp: bounded reads of a body, with a flag that stays down once a read
-- has failed, and the reading of each message's body.
pub mod Reads
pub mod Bodies
use sshos.Base.{
  ℕ, zero, suc, ◌+◌, ◌*◌, ◌%◌, ◌^◌, ◌||◌, Bool, true, false, not, List, [], ◌∷◌, ◌++◌, Option, none,
  some, Bytes, length, get_or, take, drop, ltb, ◌==◌, if◌then◌else◌,
}
use sshos.Common.Proto.{Hello, Msg, hello, welcome, incompatible, detached, input, resize, frame}

pub record Reader : Type 0 where
  pub s : Bytes
  pub i : ℕ
  pub ok : Bool

abbrev pub Read : Type 0 → Type 0
Read A = Reader → A × Reader

infixl 5 ◌>>=◌
abbrev pub ◌>>=◌ : {A B : Type 0} → Read A → (A → Read B) → Read B
◌>>=◌ m f r = f (m r).0 (m r).1

abbrev pub pure : {A : Type 0} → A → Read A
pure a r = (a, r)

unfoldable pub u8 : Read ℕ
u8 r =
    if ltb (length r.s) (r.i + 1)
    then (0, record r { ok = false })
    else (get_or r.s r.i 0, record r { i = r.i + 1 })

unfoldable pub u16 : Read ℕ
u16 = do hi ← u8; lo ← u8; pure ((hi * 256 + lo) % 2 ^ 16)

unfoldable pub u32 : Read ℕ
u32 = do hi ← u16; lo ← u16; pure ((hi * 65536 + lo) % 2 ^ 32)

-- `!ok || i + n > s.size()`, and the substring.
unfoldable pub take_str : ℕ → Read Bytes
take_str n r =
    if not r.ok || ltb (length r.s) (r.i + n)
    then ([], record r { ok = false })
    else (take n (drop r.i r.s), record r { i = r.i + n })

unfoldable pub str : Read Bytes
str = do n ← u32; take_str n

-- `for (uint32_t k = 0; k < n && r.ok; ++k)`, on the rounds left.
unfoldable pub read_env : ℕ → List (Bytes × Bytes) → Read (List (Bytes × Bytes))
read_env zero env r = (env, r)
read_env (suc n) env r =
    let rest = (do key ← str; value ← str; read_env n (env ++ (key, value) ∷ [])) r in
    if r.ok then rest else (env, r)

unfoldable pub read_hello : Read Hello
read_hello = do
  id ← u32
  cols ← u16
  rows ← u16
  term ← str
  colorterm ← str
  flag ← u8
  n ← u32
  env ← read_env n []
  pure (record {
    build_id = id;
    cols = cols;
    rows = rows;
    term = term;
    colorterm = colorterm;
    utf8 = not (flag == 0);
    env = env;
  })

unfoldable pub read_resize : Read Msg
read_resize = do cols ← u16; rows ← u16; pure (resize cols rows)

-- The `switch` on the tag; `none` is a tag that the decoder does not know.
unfoldable pub read_body : ℕ → Read (Option Msg)
read_body tag =
    if tag == 1
    then (do h ← read_hello; pure (some (hello h)))
    else if tag == 2
    then pure (some welcome)
    else if tag == 3
    then (do reason ← str; pure (some (incompatible reason)))
    else if tag == 4
    then (do reason ← str; pure (some (detached reason)))
    else if tag == 5
    then (do bytes ← str; pure (some (input bytes)))
    else if tag == 6
    then (do z ← read_resize; pure (some z))
    else if tag == 7
    then (do ansi ← str; pure (some (frame ansi)))
    else pure none
