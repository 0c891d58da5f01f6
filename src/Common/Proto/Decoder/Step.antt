-- ===== src/Common/Proto/Decoder/Step.antt =====
-- One call of each operation of the decoder, by what it does to the bytes not consumed yet.
use sshos.Base.{
  ℕ, ◌+◌, ◌-◌, ◌%◌, ◌^◌, ◌≤◌, ◌<◌, ◌≡◌, ◌≢◌, refl, ap, sym, subst, ◌∙◌, inl, inr, true, false, [],
  ◌∷◌, ◌++◌, arith, Option, some, none, Bytes, length, take, drop, length-append, length-drop,
  append-nil, ltb, le→ltb, le_of_ltb, drop_all, drop-drop, drop-append_le, take-length-append,
  drop-length-append, Bool-cases,
}
use sshos.Common.Proto.{
  Msg, hello, max_message_bytes, max_buffer_bytes, header_size, put_u8, put_u32, body_of, encode,
}
use sshos.Common.Proto.Reader.{Reader, u8, u32, read_body}
use sshos.Common.Proto.Reader.Reads.{At, Gives, Gives-u8, Gives-u32}
use sshos.Common.Proto.Reader.Bodies.{IsTyped, Gives-read_body}
use sshos.Common.Proto.Decoder.{
  Allocator, Decoder, unread, returned, fail, compact, feed, close_turn, take_body, head_reader,
  turn,
}

-- The decoder has not failed, and its position lies in its buffer.
pub record IsOpen (d : Decoder) : Type 0 where
  pub live : d.failed ≡ false
  pub within : d.pos ≤ length d.buf

-- A message that the protocol carries: its fields have their types, its body is not too long.
pub record IsSendable (m : Msg) : Type 0 where
  pub typed : IsTyped m
  pub fits : length (body_of m).1 ≤ max_message_bytes

pub length-encode : (m : Msg) → length (encode m) ≡ header_size + length (body_of m).1
unfolding encode put_u8 put_u32
length-encode m = omega arith

append-split :
    (xs ys zs ws : Bytes)
    → xs ++ ys ≡ zs ++ ws
    → length zs ≤ length xs
    → (v : Bytes) × (xs ≡ zs ++ v) × (v ++ ys ≡ ws)
append-split xs ys [] ws e l = (xs, refl, e)
append-split [] ys (z ∷ zs) ws e l = absurd (omega arith)
append-split (x ∷ xs) ys (z ∷ zs) ws e l =
    let (v, p, q) = append-split xs ys zs ws (cc) (omega arith) in (v, cc, q)

pub length-unread : (d : Decoder) → length (unread d) ≡ length d.buf - d.pos
length-unread d = length-drop d.pos d.buf

At-head : (d : Decoder) → At (head_reader d) (unread d)
At-head d = record { sound = refl; inside = omega arith; ahead = refl }

module _ (a : Allocator) where
  -- Compacting changes no byte that is still to be read.
  pub compact-unread :
      (d : Decoder) → IsOpen d → IsOpen (compact a d) × (unread (compact a d) ≡ unread d)
  unfolding compact
  compact-unread d o = ground (arith, drop_all d.pos d.buf)

  -- Feeding an open decoder what stays within the ceiling of its buffer appends to what is to be
  -- read, and keeps it open.
  pub feed-unread :
      (d : Decoder) (bytes : Bytes)
      → IsOpen d
      → length (unread d) + length bytes ≤ max_buffer_bytes
      → IsOpen (feed a bytes d) × (unread (feed a bytes d) ≡ unread d ++ bytes)
  unfolding feed
  feed-unread d [] o l = ground (arith, append-nil (unread d))
  feed-unread d (b ∷ bytes) o l = ground (
    arith,
    length-unread d,
    drop-append_le d.pos d.buf (b ∷ bytes),
    length-append d.buf (b ∷ bytes),
  )

  -- Beyond the ceiling the connection is lost, and nothing is kept.
  pub feed_beyond :
      (d : Decoder) (bytes : Bytes)
      → IsOpen d
      → bytes ≢ []
      → max_buffer_bytes < length (unread d) + length bytes
      → ((feed a bytes d).failed ≡ true) × ((feed a bytes d).buf ≡ [])
  unfolding feed fail
  feed_beyond d [] o ne l = absurd (ne refl)
  feed_beyond d (b ∷ bytes) o ne l = ground (arith, length-unread d)

-- A reader over just the body of a message reads the message, and reads all of it.
read_body_lem :
    (m : Msg) (t : Bytes)
    → IsSendable m
    → t ≡ (body_of m).1
    → let read = read_body (body_of m).0 (record { s = t; i = 0; ok = true }) in
      (read.0 ≡ some m) × (read.1.ok ≡ true) × (read.1.i ≡ length (body_of m).1)
read_body_lem m t s e = rw e (g.value, g.then_at.sound, consumed)
  where
    body : Bytes
    body = (body_of m).1

    g : Gives (read_body (body_of m).0 (record { s = body; i = 0; ok = true })) body (some m) []
    g =
        Gives-read_body m s.typed (let f = s.fits in omega arith)
          (record { sound = refl; inside = omega arith; ahead = refl })

    end : Reader
    end = (read_body (body_of m).0 (record { s = body; i = 0; ok = true })).1

    consumed : end.i ≡ length body
    consumed =
        let w = g.then_at.inside in
        omega (arith, length-drop end.i end.s, ap length g.then_at.ahead, ap length g.same)

tag-lt : (m : Msg) → (body_of m).0 % 256 ≡ (body_of m).0
unfolding body_of
tag-lt (hello _) = refl
tag-lt _ = refl

behind_header : (m : Msg) (v : Bytes) → drop header_size (encode m ++ v) ≡ (body_of m).1 ++ v
unfolding encode put_u8 put_u32
behind_header m v = refl

module _ (a : Allocator) (d : Decoder) (m : Msg) (o : IsOpen d) (s : IsSendable m) where
  close_turn_consumed :
      (len : ℕ) (e : Decoder) (got : Option Msg) (r : Reader)
      → got ≡ some m
      → r.ok ≡ true
      → r.i ≡ len
      → close_turn a len e got r ≡ returned (some m) (compact a e)
  unfolding close_turn
  close_turn_consumed len e got r g k c = rw (g, close_turn) (rw (k, c) (ground arith))

  take_body-waits :
      (tag : ℕ)
      → length (unread d) < header_size + length (body_of m).1
      → take_body a tag (length (body_of m).1) d ≡ returned none d
  unfolding take_body
  take_body-waits tag l = let f = s.fits in let w = o.within in ground (arith, length-unread d)

  take_body-gives :
      (v : Bytes)
      → unread d ≡ encode m ++ v
      → (d' : Decoder) × (take_body a (body_of m).0 (length (body_of m).1) d ≡ returned (some m) d')
        × IsOpen d'
        × (unread d' ≡ v)
  unfolding take_body
  take_body-gives v e = (compact a d', taken, kept.0, kept.1 ∙ rest)
    where
      size : ℕ
      size = length (body_of m).1

      d' : Decoder
      d' = record d { pos = d.pos + (header_size + size) }

      sizes : length d.buf - d.pos ≡ header_size + size + length v
      sizes =
          omega (arith, length-unread d, ap length e, length-append (encode m) v, length-encode m)

      rest : unread d' ≡ v
      rest =
          sym (drop-drop (header_size + size) d.pos _ d.buf refl)
          ∙ rw e (drop-length-append (encode m) v (header_size + size) (sym (length-encode m)))

      kept : IsOpen (compact a d') × (unread (compact a d') ≡ unread d')
      kept = compact-unread a d' (record { live = o.live; within = omega (arith, sizes) })

      text : take size (drop (d.pos + header_size) d.buf) ≡ (body_of m).1
      text =
          rw (← drop-drop header_size d.pos _ d.buf refl, e, behind_header m v)
            (take-length-append (body_of m).1 v size refl)

      taken : take_body a (body_of m).0 size d ≡ returned (some m) (compact a d')
      taken =
          let (g, k, c) = read_body_lem m _ s text in
          rw
            (
              le→ltb max_message_bytes size s.fits,
              le→ltb (length d.buf - d.pos) (header_size + size) (omega (arith, sizes)),
            )
            (close_turn_consumed size d' _ _ g k c)

  -- The header is read back as it was written, if it is there.
  header_lem :
      (v : Bytes)
      → unread d ≡ put_u8 (body_of m).0 ++ (put_u32 (length (body_of m).1 % 2 ^ 32) ++ v)
      → ((u8 (head_reader d)).0 ≡ (body_of m).0)
        × ((u32 (u8 (head_reader d)).1).0 ≡ length (body_of m).1)
  unfolding put_u8
  header_lem v e = (first.value ∙ tag-lt m, second.value ∙ (let f = s.fits in omega arith))
    where
      first :
          Gives
            (u8 (head_reader d))
            (unread d)
            ((body_of m).0 % 256)
            (put_u32 (length (body_of m).1 % 2 ^ 32) ++ v)
      first = Gives-u8 _ _ (subst (At (head_reader d)) e (At-head d))

      second :
          Gives
            (u32 (u8 (head_reader d)).1)
            (u8 (head_reader d)).1.s
            (length (body_of m).1 % 2 ^ 32)
            v
      second = Gives-u32 _ v (omega arith) first.then_at

  -- Too few bytes for the message that begins here: nothing is returned, nothing is consumed.
  pub turn-waits :
      (more rest : Bytes)
      → unread d ++ more ≡ encode m ++ rest
      → length (unread d) < length (encode m)
      → turn a d ≡ returned none d
  unfolding turn encode put_u8 put_u32
  turn-waits more rest e l = elim (Bool-cases (ltb (length d.buf - d.pos) header_size)) [
    | inl short ↦ rw short
    | inr long ↦
        let (v, p, q) =
          append-split (unread d) more header ((body_of m).1 ++ rest) e
            (omega (arith, length-unread d, le_of_ltb _ _ long)) in
        let (t, n) = header_lem v p in
        rw (long, t, n) (take_body-waits _ (omega (arith, length-encode m)))
  ]
    where
      header : Bytes
      header = put_u8 (body_of m).0 ++ put_u32 (length (body_of m).1 % 2 ^ 32)

  -- The whole message is there: it is returned, and the bytes behind it are left to be read.
  pub turn-gives :
      (more rest : Bytes)
      → unread d ++ more ≡ encode m ++ rest
      → length (encode m) ≤ length (unread d)
      → (d' : Decoder) × (turn a d ≡ returned (some m) d') × IsOpen d' × (unread d' ++ more ≡ rest)
  unfolding turn
  turn-gives more rest e l =
      let (v, p, q) = append-split (unread d) more (encode m) rest e l in
      let (t, n) = header_lem ((body_of m).1 ++ v) (p ∙ encode_split v) in
      let (d', b, o', u) = take_body-gives v p in
      (
        d',
        rw
            (
              le→ltb (length d.buf - d.pos) header_size
                  (omega (arith, length-unread d, length-encode m)),
              t,
              n,
            )
            b,
        o',
        rw u q,
      )
    where
      encode_split :
          (v : Bytes)
          → encode m ++ v
            ≡ put_u8 (body_of m).0
              ++ (put_u32 (length (body_of m).1 % 2 ^ 32) ++ ((body_of m).1 ++ v))
      encode_split v = unfold encode put_u8 put_u32 in refl
