-- ===== src/Common/Proto/Decoder/Stream.antt =====
-- A stream of messages, however the kernel cuts it into reads.
use sshos.Base.{
  ℕ, zero, suc, ◌+◌, ◌-◌, ◌*◌, ◌≤◌, ◌<◌, ◌≡◌, refl, ap, sym, ◌∙◌, inl, inr, false, List, [], ◌∷◌,
  ◌++◌, arith, Option, none, some, Bytes, All, All-append_right, subst, length, length-append,
  append_assoc, append-nil, ltb, lt→ltb, le_of_ltb, ltb→lt, Bool-cases,
}
use sshos.Common.Proto.{Msg, encode, header_size, max_message_bytes}
use sshos.Common.Proto.Decoder.{
  Allocator, Decoder, unread, returned, feed, turn, next_loop, next, drain, receive, receive_all,
  new_decoder,
}
use sshos.Common.Proto.Decoder.Step.{
  IsOpen, IsSendable, length-encode, length-unread, feed-unread, turn-waits, turn-gives,
}

abbrev pub encode_all : List Msg → Bytes
encode_all [] = []
encode_all (m ∷ ms) = encode m ++ encode_all ms

abbrev pub concat : List Bytes → Bytes
concat [] = []
concat (c ∷ cs) = c ++ concat cs

-- The next message, if any, is not there in full.
abbrev Waits : Decoder → List Msg → Type 0
Waits d [] = Unit
Waits d (m ∷ ms) = length (unread d) < length (encode m)

module _ (a : Allocator) where
  next_returned :
      (d d' : Decoder) (r : Option Msg)
      → d.failed ≡ false
      → turn a d ≡ returned r d'
      → next a d ≡ (r, d')
  unfolding next next_loop
  next_returned d d' r o t = ground arith

  drain_stop :
      (fuel : ℕ) (d : Decoder)
      → d.failed ≡ false
      → turn a d ≡ returned none d
      → drain a (suc fuel) d ≡ ([], d)
  unfolding drain
  drain_stop fuel d o t = ground (arith, next_returned d d none o t)

  drain_more :
      (fuel : ℕ) (d d' : Decoder) (m : Msg)
      → d.failed ≡ false
      → turn a d ≡ returned (some m) d'
      → drain a (suc fuel) d ≡ (m ∷ (drain a fuel d').0, (drain a fuel d').1)
  unfolding drain
  drain_more fuel d d' m o t = ground (arith, next_returned d d' (some m) o t)

  -- What draining leaves of the messages still to come.
  record Drained (d : Decoder) (ms : List Msg) (more : Bytes) (r : List Msg × Decoder)
      : Type 0 where
    later : List Msg
    splits : ms ≡ r.0 ++ later
    open' : IsOpen r.1
    ahead : unread r.1 ++ more ≡ encode_all later
    waits : Waits r.1 later

  empty_waits : (d : Decoder) (more : Bytes) → unread d ++ more ≡ [] → turn a d ≡ returned none d
  unfolding turn
  empty_waits d more e = rw (
      lt→ltb (length d.buf - d.pos) header_size
        (omega (arith, length-unread d, ap length e, length-append (unread d) more)))

  drain-Drained :
      (fuel : ℕ) (d : Decoder) (ms : List Msg) (more : Bytes)
      → IsOpen d
      → All IsSendable ms
      → unread d ++ more ≡ encode_all ms
      → length (unread d) < fuel
      → Drained d ms more (drain a fuel d)
  drain-Drained zero d ms more o s e l = absurd (omega arith)
  drain-Drained (suc fuel) d [] more o s e l =
      rw (drain_stop fuel d o.live (empty_waits d more e))
        (record { later = []; splits = refl; open' = o; ahead = e; waits = tt })
  drain-Drained (suc fuel) d (m ∷ ms) more o s e l =
      elim (Bool-cases (ltb (length (unread d)) (length (encode m)))) [
        | inl short ↦
            rw
              (drain_stop fuel d o.live
                (turn-waits a d m o s.0 more (encode_all ms) e (ltb→lt _ _ short)))
              (record {
                later = m ∷ ms;
                splits = refl;
                open' = o;
                ahead = e;
                waits = ltb→lt _ _ short;
              })
        | inr whole ↦
            let (d', t, o', u) =
              turn-gives a d m o s.0 more (encode_all ms) e (le_of_ltb _ _ whole) in
            let rest = drain-Drained fuel d' ms more o' s.1 u (
              omega (
                arith,
                ap length u,
                ap length e,
                length-append (unread d) more,
                length-append (unread d') more,
                length-append (encode m) (encode_all ms),
                length-encode m,
              )) in
            rw (drain_more fuel d d' m o.live t) (record {
              later = rest.later;
              splits = ap (◌∷◌ m) rest.splits;
              open' = rest.open';
              ahead = rest.ahead;
              waits = rest.waits;
            })
      ]

  -- A read of at most 1 MiB never hits the ceiling of a decoder that waits for a message's rest.
  Waits-bound :
      (d : Decoder) (ms : List Msg) (more : Bytes)
      → All IsSendable ms
      → unread d ++ more ≡ encode_all ms
      → Waits d ms
      → length (unread d) ≤ header_size + max_message_bytes
  Waits-bound d [] more s e w = omega (arith, ap length e, length-append (unread d) more)
  Waits-bound d (m ∷ ms) more s e w = let f = s.0.fits in omega (arith, length-encode m)

  receive_all-run :
      (cs : List Bytes) (d : Decoder) (ms : List Msg)
      → IsOpen d
      → All IsSendable ms
      → All (λ c. length c ≤ 1024 * 1024) cs
      → unread d ++ concat cs ≡ encode_all ms
      → Waits d ms
      → ((receive_all a cs d).0 ≡ ms)
        × IsOpen (receive_all a cs d).1
        × (unread (receive_all a cs d).1 ≡ [])
  unfolding receive_all receive
  receive_all-run [] d [] o s b e w = (refl, o, sym (append-nil (unread d)) ∙ e)
  receive_all-run [] d (m ∷ ms) o s b e w = absurd (
      omega
        (arith, ap length e, length-append (unread d) [], length-append (encode m) (encode_all ms)))
  receive_all-run (c ∷ cs) d ms o s b e w =
      let (o', u) =
        feed-unread a d c o (omega (arith, b.0, Waits-bound d ms (concat (c ∷ cs)) s e w)) in
      let drained =
        drain-Drained (suc (length (feed a c d).buf)) (feed a c d) ms (concat cs) o' s
          (rw (u, append_assoc) e) (omega (arith, length-unread (feed a c d))) in
      let (got, o'', u'') =
        receive_all-run cs (receive a c d).1 drained.later drained.open'
          (All-append_right IsSendable _ drained.later (subst (All IsSendable) drained.splits s))
          b.1 drained.ahead drained.waits in
      (ap (◌++◌ (receive a c d).0) got ∙ sym drained.splits, o'', u'')

  -- Whatever way a stream of messages that the protocol can carry is cut into reads of at most
  -- 1 MiB, the decoder hands out exactly these messages, in their order, has not failed, and has
  -- nothing left to read.
  pub receive_all-encode_all :
      (ms : List Msg) (cs : List Bytes)
      → All IsSendable ms
      → All (λ c. length c ≤ 1024 * 1024) cs
      → concat cs ≡ encode_all ms
      → ((receive_all a cs (new_decoder a)).0 ≡ ms)
        × ((receive_all a cs (new_decoder a)).1.failed ≡ false)
        × (unread (receive_all a cs (new_decoder a)).1 ≡ [])
  receive_all-encode_all ms cs s b e =
      let (got, o, u) =
        receive_all-run cs (new_decoder a) ms (record { live = refl; within = omega arith }) s b e
          (fresh_waits ms) in
      (got, o.live, u)
    where
      fresh_waits : (ms : List Msg) → Waits (new_decoder a) ms
      fresh_waits [] = tt
      fresh_waits (m ∷ ms) = omega (arith, length-encode m)
