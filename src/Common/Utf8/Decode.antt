-- ===== src/Common/Utf8/Decode.antt =====
-- utf8_decode: progress, bounds, and the values that it can hand out.
use sshos.Base.{
  max, ℕ, zero, suc, ◌+◌, ◌≤◌, ◌<◌, inl, inr, arith, Bytes, length, Bool-cases, high_bits, get_or,
  low_bits, ◌==◌,
}
use sshos.Common.Utf8.{
  IsScalar, Scan, broken, scanned, continuations, validate, multibyte, utf8_decode,
}

-- What the loop over the continuation bytes can stop at.
abbrev StopsWithin : ℕ → ℕ → Scan → Type 0
StopsWithin lo hi (broken k) = (lo ≤ k) × (k < hi)
StopsWithin lo hi (scanned cp) = Unit

continuations-StopsWithin :
    (s : Bytes) (pos left k cp : ℕ) → StopsWithin k (k + left) (continuations s pos left k cp)
unfolding continuations
continuations-StopsWithin s pos zero k cp = tt
continuations-StopsWithin s pos (suc left) k cp =
    elim (Bool-cases (high_bits (get_or s (pos + k) 0) 6 == 0x80)) [
      | inl e ↦ rw e (
          widen (continuations s pos left (k + 1) _)
            (continuations-StopsWithin s pos left (k + 1) _))
      | inr e ↦ rw e (omega arith)
    ]
  where
    widen : (r : Scan) → StopsWithin (k + 1) (k + 1 + left) r → StopsWithin k (k + suc left) r
    widen (broken j) h = omega arith
    widen (scanned cp') h = tt

-- At least one byte is consumed and at most four, never past the end of a string that has a byte
-- at `pos`, and the value is a scalar.
pub record IsStep (s : Bytes) (pos : ℕ) (r : ℕ × ℕ) : Type 0 where
  pub advances : 1 ≤ r.0
  pub short : r.0 ≤ 4
  pub within : pos + r.0 ≤ max (length s) (pos + 1)
  pub scalar : IsScalar r.1

validate-IsStep :
    (s : Bytes) (pos need : ℕ) (scan : Scan)
    → need ≤ 3
    → pos + need < length s
    → StopsWithin 1 (1 + need) scan
    → IsStep s pos (validate need scan)
unfolding validate
validate-IsStep s pos need (broken k) n l h = ground arith
validate-IsStep s pos need (scanned cp) n l h = ground arith

multibyte-IsStep :
    (s : Bytes) (pos need cp : ℕ)
    → need ≤ 3
    → pos < length s
    → IsStep s pos (multibyte s pos need cp)
unfolding multibyte
multibyte-IsStep s pos need cp n l = ground (
  arith,
  validate-IsStep s pos need (continuations s pos need 1 cp),
  continuations-StopsWithin s pos need 1 cp,
)

-- Decoding always advances, by at most four bytes and never past the end, and gives a scalar.
pub utf8_decode-IsStep : (s : Bytes) (pos : ℕ) → IsStep s pos (utf8_decode s pos)
unfolding utf8_decode
utf8_decode-IsStep s pos = ground (
  arith,
  multibyte-IsStep s pos 1 (low_bits (get_or s pos 0) 5),
  multibyte-IsStep s pos 2 (low_bits (get_or s pos 0) 4),
  multibyte-IsStep s pos 3 (low_bits (get_or s pos 0) 3),
)
