-- ===== src/Vt/Parser/Text.antt =====
-- Plain text through the machine: it decodes what `encode_utf8` encodes, whole characters at a time.
use sshos.Base.{
  ℕ, ◌+◌, ◌*◌, ◌/◌, ◌%◌, ◌^◌, ◌≤◌, ◌<◌, ◌≡◌, ◌≢◌, refl, ap, sym, ◌∙◌, List, [], ◌∷◌, ◌++◌, map,
  arith, Bytes, All, append_assoc,
}
use sshos.Common.Utf8.{IsScalar, encode_utf8}
use sshos.Common.Utf8.Fold.{encode_all}
use sshos.Vt.Parser.{Parser, Event, print, ground_state, clear_utf8, go}
use sshos.Vt.Parser.Step.{
  in_ground, ground_byte, ground_fresh, utf8_lead, utf8_pending, complete,
  flush_utf8_as_replacement,
}
use sshos.Vt.Parser.Machine.{dispatch, step, feed}

-- On the ground, with no UTF-8 sequence pending.
abbrev pub at_rest : Parser → Parser
at_rest q = clear_utf8 (go ground_state q)

-- A scalar that is neither a control code nor DEL.
abbrev pub IsPrintable : ℕ → Type 0
IsPrintable cp = IsScalar cp × (0x20 ≤ cp) × (cp ≢ 0x7F)

-- Input may be cut anywhere: the machine goes on from the state it was left in.
pub feed-append :
    (xs ys : Bytes) (p : Parser)
    → ((feed (xs ++ ys) p).0 ≡ (feed ys (feed xs p).0).0)
      × ((feed (xs ++ ys) p).1 ≡ (feed xs p).1 ++ (feed ys (feed xs p).0).1)
unfolding feed
feed-append [] ys p = (refl, refl)
feed-append (x ∷ xs) ys p =
    let (s, e) = feed-append xs ys (step x p).0 in
    (s, ap (◌++◌ (step x p).1) e ∙ sym (append_assoc (step x p).1 (feed xs (step x p).0).1 _))

pub feed-through :
    (xs ys : Bytes) (p : Parser) {p' p'' : Parser} {es fs : List Event}
    → feed xs p ≡ (p', es)
    → feed ys p' ≡ (p'', fs)
    → feed (xs ++ ys) p ≡ (p'', es ++ fs)
feed-through xs ys p one two =
    let (s, e) = feed-append xs ys p in (λ i. (s i, e i)) ∙ rw one (rw two refl)

-- On the ground, inside a UTF-8 sequence.
abbrev within : Parser → ℕ → ℕ → ℕ → ℕ → Parser
within q need seen acc least = record q {
  state = ground_state;
  utf8_acc = acc;
  utf8_need = need;
  utf8_seen = seen;
  utf8_min = least;
}

module _ (q : Parser) where
  step_ascii :
      (b : ℕ) → 0x20 ≤ b → b ≢ 0x7F → b < 0x80 → step b (at_rest q) ≡ (at_rest q, print b ∷ [])
  unfolding step dispatch in_ground ground_byte ground_fresh flush_utf8_as_replacement
  step_ascii b lo ne hi = ground arith

  step_lead : (b : ℕ) → 0x80 ≤ b → b < 256 → step b (at_rest q) ≡ utf8_lead b (at_rest q)
  unfolding step dispatch in_ground ground_byte ground_fresh flush_utf8_as_replacement
  step_lead b lo hi = ground arith

  step_more :
      (need seen acc least x : ℕ)
      → x < 64
      → acc < 2 ^ 24
      → seen + 1 < need
      → step (0x80 + x) (within q need seen acc least)
        ≡ (within q need (seen + 1) (acc * 64 + x) least, [])
  unfolding step dispatch in_ground ground_byte flush_utf8_as_replacement utf8_pending
  step_more need seen acc least x a b c = ground arith

  step_last :
      (need seen acc least x : ℕ)
      → x < 64
      → acc < 2 ^ 24
      → need ≡ seen + 1
      → step (0x80 + x) (within q need seen acc least)
        ≡ (at_rest q, complete (acc * 64 + x) least ∷ [])
  unfolding step dispatch in_ground ground_byte flush_utf8_as_replacement utf8_pending
  step_last need seen acc least x a b c = ground arith

module _ (cp : ℕ) (q : Parser) where
  complete_scalar :
      (acc least : ℕ) → IsScalar cp → acc ≡ cp → least ≤ cp → complete acc least ≡ print cp
  unfolding complete
  complete_scalar acc least s e l = ground arith

  feed_one :
      0x20 ≤ cp → cp ≢ 0x7F → cp < 0x80 → feed (cp ∷ []) (at_rest q) ≡ (at_rest q, print cp ∷ [])
  unfolding feed
  feed_one lo ne hi = rw (step_ascii q cp lo ne hi)

  feed_two :
      IsScalar cp
      → 0x80 ≤ cp
      → cp < 0x800
      → feed ((0xC0 + cp / 64) ∷ (0x80 + cp % 64) ∷ []) (at_rest q) ≡ (at_rest q, print cp ∷ [])
  unfolding feed
  feed_two s lo hi =
      rw (step_lead q (0xC0 + cp / 64) (omega arith) (omega arith), lead)
        (rw (step_last q 1 0 (cp / 64) 0x80 (cp % 64) (omega arith) (omega arith) refl)
          (rw (complete_scalar (cp / 64 * 64 + cp % 64) 0x80 s (omega arith) lo)))
    where
      lead : utf8_lead (0xC0 + cp / 64) (at_rest q) ≡ (within q 1 0 (cp / 64) 0x80, [])
      lead = unfold utf8_lead in ground arith

  feed_three :
      IsScalar cp
      → 0x800 ≤ cp
      → cp < 0x10000
      → feed ((0xE0 + cp / 4096) ∷ (0x80 + cp / 64 % 64) ∷ (0x80 + cp % 64) ∷ []) (at_rest q)
        ≡ (at_rest q, print cp ∷ [])
  unfolding feed
  feed_three s lo hi =
      rw (step_lead q (0xE0 + cp / 4096) (omega arith) (omega arith), lead)
        (rw
          (step_more q 2 0 (cp / 4096) 0x800 (cp / 64 % 64) (omega arith) (omega arith)
            (omega arith))
          (rw
            (step_last q 2 (0 + 1) (cp / 4096 * 64 + cp / 64 % 64) 0x800 (cp % 64) (omega arith)
              (omega arith) refl)
            (rw (
              complete_scalar ((cp / 4096 * 64 + cp / 64 % 64) * 64 + cp % 64) 0x800 s (omega arith)
                lo))))
    where
      lead : utf8_lead (0xE0 + cp / 4096) (at_rest q) ≡ (within q 2 0 (cp / 4096) 0x800, [])
      lead = unfold utf8_lead in ground arith

  feed_four :
      IsScalar cp
      → 0x10000 ≤ cp
      → feed
          ((0xF0 + cp / 262144)
            ∷ (0x80 + cp / 4096 % 64)
            ∷ (0x80 + cp / 64 % 64)
            ∷ (0x80 + cp % 64)
            ∷ [])
          (at_rest q)
        ≡ (at_rest q, print cp ∷ [])
  unfolding feed
  feed_four s lo =
      rw (step_lead q (0xF0 + cp / 262144) (omega arith) (omega arith), lead)
        (rw
          (step_more q 3 0 (cp / 262144) 0x10000 (cp / 4096 % 64) (omega arith) (omega arith)
            (omega arith))
          (rw
            (step_more q 3 (0 + 1) (cp / 262144 * 64 + cp / 4096 % 64) 0x10000 (cp / 64 % 64)
              (omega arith) (omega arith) (omega arith))
            (rw
              (step_last q 3 (0 + 1 + 1) ((cp / 262144 * 64 + cp / 4096 % 64) * 64 + cp / 64 % 64)
                0x10000 (cp % 64) (omega arith) (omega arith) refl)
              (rw (
                complete_scalar
                  (((cp / 262144 * 64 + cp / 4096 % 64) * 64 + cp / 64 % 64) * 64 + cp % 64) 0x10000
                  s (omega arith) lo)))))
    where
      lead : utf8_lead (0xF0 + cp / 262144) (at_rest q) ≡ (within q 3 0 (cp / 262144) 0x10000, [])
      lead = unfold utf8_lead in (let h = s.1 in ground arith)

  feed-encode_utf8 : IsPrintable cp → feed (encode_utf8 cp) (at_rest q) ≡ (at_rest q, print cp ∷ [])
  unfolding encode_utf8
  feed-encode_utf8 p = ground (arith, feed_one, feed_two, feed_three, feed_four)

-- Text of printable scalars, encoded in UTF-8, is printed scalar by scalar by a machine at rest,
-- and leaves it as it was.
pub feed-encode_all :
    (cps : List ℕ) (q : Parser)
    → All IsPrintable cps
    → feed (encode_all cps) (at_rest q) ≡ (at_rest q, map print cps)
unfolding feed
feed-encode_all [] q h = refl
feed-encode_all (cp ∷ cps) q h =
    feed-through (encode_utf8 cp) (encode_all cps) (at_rest q) (feed-encode_utf8 cp q h.0)
      (feed-encode_all cps q h.1)
