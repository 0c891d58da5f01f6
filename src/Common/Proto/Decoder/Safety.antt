-- ===== src/Common/Proto/Decoder/Safety.antt =====
-- The decoder on bytes that nobody vouches for: `next`'s loop ends, and its state stays sound.
use sshos.Base.{
  ℕ, zero, suc, ◌+◌, ◌-◌, ◌≤◌, ◌<◌, ◌≡◌, refl, ap, inl, inr, ◌⊎◌, true, false, not, ◌||◌, [], arith,
  Option, none, some, length, ltb, le_of_ltb, ◌==◌, Bool-cases,
}
use sshos.Common.Proto.{Msg, max_message_bytes, max_buffer_bytes, header_size}
use sshos.Common.Proto.Reader.{Reader, read_body}
use sshos.Common.Proto.Decoder.{
  Allocator, Decoder, unread, Turn, returned, continued, fail, compact, close_turn, body_reader,
  take_body, turn, next_loop, next,
}
use sshos.Common.Proto.Decoder.Step.{IsOpen, length-unread, compact-unread}

-- Open with a bounded backlog, or failed for good with nothing kept.
pub data IsSound (d : Decoder) : Type 0 where
  working : IsOpen d → length (unread d) ≤ max_buffer_bytes → IsSound d
  dead : d.failed ≡ true → d.buf ≡ [] → d.pos ≡ 0 → IsSound d

module _ (a : Allocator) where
  -- A turn leaves a sound state, and goes on only with fewer bytes to read.
  abbrev TurnIsSound : Decoder → Turn → Type 0
  TurnIsSound d (returned m d') = IsSound d'
  TurnIsSound d (continued d') = IsOpen d' × (length (unread d') < length (unread d))

  -- The run of `for (;;)` from a state to its return.
  pub data Runs : Decoder → Option Msg × Decoder → Type 0 where
    returns : {d d' : Decoder} {m : Option Msg} → turn a d ≡ returned m d' → Runs d (m, d')
    continues :
        {d d' : Decoder} {r : Option Msg × Decoder} → turn a d ≡ continued d' → Runs d' r → Runs d r

  fail-IsSound : (d : Decoder) → IsSound (fail a d)
  unfolding fail
  fail-IsSound d = dead refl refl refl

  compact-IsSound :
      (d : Decoder) → IsOpen d → length (unread d) ≤ max_buffer_bytes → IsSound (compact a d)
  compact-IsSound d o l =
      let (o', u) = compact-unread a d o in working o' (omega (arith, ap length u))

  close_turn-IsSound :
      (d : Decoder) (len : ℕ) (d' : Decoder) (m : Option Msg) (r : Reader)
      → IsOpen d'
      → length (unread d') < length (unread d)
      → length (unread d) ≤ max_buffer_bytes
      → TurnIsSound d (close_turn a len d' m r)
  unfolding close_turn
  close_turn-IsSound d len d' none r o l b =
      let (o', u) = compact-unread a d' o in (o', omega (arith, ap length u))
  close_turn-IsSound d len d' (some m) r o l b = elim (Bool-cases (not r.ok || not (r.i == len))) [
    | inl bad ↦ rw bad (fail-IsSound d')
    | inr good ↦ rw good (compact-IsSound d' o (omega arith))
  ]

  take_body-IsSound :
      (tag len : ℕ) (d : Decoder)
      → IsOpen d
      → length (unread d) ≤ max_buffer_bytes
      → TurnIsSound d (take_body a tag len d)
  unfolding take_body
  take_body-IsSound tag len d o b = elim (Bool-cases (ltb max_message_bytes len)) [
    | inl long ↦ rw long (fail-IsSound d)
    | inr fits ↦ elim (Bool-cases (ltb (length d.buf - d.pos) (header_size + len))) [
      | inl short ↦ rw (fits, short) (working o b)
      | inr whole ↦
          rw (fits, whole)
            (close_turn-IsSound d len (moved len) (read_body tag (body_reader len d)).0
              (read_body tag (body_reader len d)).1
              (record { live = o.live; within = inside (le_of_ltb _ _ whole) })
              (shorter (le_of_ltb _ _ whole)) b)
    ]
  ]
    where
      moved : ℕ → Decoder
      moved n = record d { pos = d.pos + (header_size + n) }

      inside : header_size + len ≤ length d.buf - d.pos → d.pos + (header_size + len) ≤ length d.buf
      inside h = omega arith

      shorter :
          header_size + len ≤ length d.buf - d.pos → length (unread (moved len)) < length (unread d)
      shorter h = omega (arith, length-unread d, length-unread (moved len))

  turn-IsSound :
      (d : Decoder) → IsOpen d → length (unread d) ≤ max_buffer_bytes → TurnIsSound d (turn a d)
  unfolding turn
  turn-IsSound d o b = elim (Bool-cases (ltb (length d.buf - d.pos) header_size)) [
    | inl short ↦ rw short (working o b)
    | inr long ↦ rw long (take_body-IsSound _ _ d o b)
  ]

  Turn-cases :
      (t : Turn)
      → ((m : Option Msg) × (d' : Decoder) × (t ≡ returned m d'))
        ⊎ ((d' : Decoder) × (t ≡ continued d'))
  Turn-cases (returned m d') = inl (m, d', refl)
  Turn-cases (continued d') = inr (d', refl)

  next_loop-Runs :
      (fuel : ℕ) (d : Decoder)
      → IsOpen d
      → length (unread d) ≤ max_buffer_bytes
      → length (unread d) < fuel
      → Runs d (next_loop a fuel d) × IsSound (next_loop a fuel d).1
  unfolding next_loop
  next_loop-Runs zero d o b l = absurd (omega arith)
  next_loop-Runs (suc fuel) d o b l = elim (Turn-cases (turn a d)) [
    | inl (m, d', t) ↦ rw (t, next_loop) (returns t, rw t at (turn-IsSound d o b))
    | inr (d', t) ↦
        let (o', s) = rw t at (turn-IsSound d o b) in
        let (run, sound) = next_loop-Runs fuel d' o' (omega arith) (omega arith) in
        rw (t, next_loop) (continues t run, sound)
  ]

  next_open : (d : Decoder) → d.failed ≡ false → next a d ≡ next_loop a (suc (length d.buf)) d
  unfolding next
  next_open d o = ground arith

  -- On an open decoder with any bytes to read, not more than the ceiling, `next` ends by a turn that
  -- returns, never for lack of fuel, and leaves a sound state: open with a bounded backlog, or
  -- failed with nothing kept.
  pub next-Runs :
      (d : Decoder)
      → IsOpen d
      → length (unread d) ≤ max_buffer_bytes
      → Runs d (next a d) × IsSound (next a d).1
  next-Runs d o b =
      rw (next_open d o.live)
        (next_loop-Runs (suc (length d.buf)) d o b (omega (arith, length-unread d)))
