-- ===== src/Common/Utf8/RoundTrip.antt =====
-- The two halves of the codec against each other.
use sshos.Base.{
  ℕ, zero, suc, ◌+◌, ◌/◌, ◌%◌, ◌≤◌, ◌<◌, ◌≡◌, ◌≢◌, refl, ◌⊎◌, [], ◌∷◌, ◌++◌, arith, Bytes, All,
  IsByte, length, get_or, high_bits, low_bits,
}
use sshos.Common.Utf8.{replacement, IsScalar, multibyte, utf8_decode, encode_utf8}

-- The string `s` reads `bs` from `pos` on.
abbrev pub Reads : Bytes → ℕ → Bytes → Type 0
Reads s pos [] = pos ≤ length s
Reads s pos (b ∷ bs) = (pos < length s) × (get_or s pos 0 ≡ b) × Reads s (pos + 1) bs

Reads-cons :
    (x : ℕ) (s : Bytes) (pos q : ℕ) (bs : Bytes) → q ≡ suc pos → Reads s pos bs → Reads (x ∷ s) q bs
Reads-cons x s pos q [] e h = omega arith
Reads-cons x s pos zero (b ∷ bs) e h = absurd (omega arith)
Reads-cons x s pos (suc q) (b ∷ bs) e h =
    (omega arith, at, Reads-cons x s (pos + 1) (suc q + 1) bs (omega arith) h.2)
  where
    same : q ≡ pos
    same = omega arith

    at : get_or s q 0 ≡ b
    at = rw same h.1

Reads-here : (bs rest : Bytes) → Reads (bs ++ rest) 0 bs
Reads-here [] rest = omega arith
Reads-here (b ∷ bs) rest =
    (omega arith, refl, Reads-cons b (bs ++ rest) 0 (0 + 1) bs (omega arith) (Reads-here bs rest))

pub Reads-append : (pre bs rest : Bytes) → Reads (pre ++ (bs ++ rest)) (length pre) bs
Reads-append [] bs rest = Reads-here bs rest
Reads-append (x ∷ pre) bs rest =
    Reads-cons x (pre ++ (bs ++ rest)) (length pre) (suc (length pre)) bs refl
      (Reads-append pre bs rest)

module _ (s : Bytes) (pos cp : ℕ) where
  decode_two :
      0x80 ≤ cp
      → cp < 0x800
      → Reads s pos ((0xC0 + cp / 64) ∷ (0x80 + cp % 64) ∷ [])
      → utf8_decode s pos ≡ (2, cp)
  unfolding utf8_decode multibyte
  decode_two lo hi r = ground arith

  decode_three :
      0x800 ≤ cp
      → cp < 0x10000
      → (cp < 0xD800) ⊎ (0xDFFF < cp)
      → Reads s pos ((0xE0 + cp / 4096) ∷ (0x80 + cp / 64 % 64) ∷ (0x80 + cp % 64) ∷ [])
      → utf8_decode s pos ≡ (3, cp)
  unfolding utf8_decode multibyte
  decode_three lo hi ns r = ground arith

  decode_four :
      0x10000 ≤ cp
      → cp ≤ 0x10FFFF
      → Reads s pos (
          (0xF0 + cp / 262144)
          ∷ (0x80 + cp / 4096 % 64)
          ∷ (0x80 + cp / 64 % 64)
          ∷ (0x80 + cp % 64)
          ∷ [])
      → utf8_decode s pos ≡ (4, cp)
  unfolding utf8_decode multibyte
  decode_four lo hi r = ground arith

  -- Wherever a string holds the encoding of a scalar, decoding there consumes exactly the
  -- encoding and gives the scalar back.
  pub utf8_decode-encode_utf8 :
      IsScalar cp → Reads s pos (encode_utf8 cp) → utf8_decode s pos ≡ (length (encode_utf8 cp), cp)
  unfolding encode_utf8 utf8_decode
  utf8_decode-encode_utf8 sc r = ground (arith, decode_two, decode_three, decode_four)

get_or-IsByte : (s : Bytes) (i : ℕ) → All IsByte s → get_or s i 0 < 256
get_or-IsByte [] i h = omega arith
get_or-IsByte (b ∷ s) zero h = h.0
get_or-IsByte (b ∷ s) (suc i) h = get_or-IsByte s i h.1

module _ (s : Bytes) (pos cp : ℕ) where
  -- The string holds the encoding of `cp` at `pos`, and it is `n` bytes long.
  abbrev pub IsCanonical : ℕ → Type 0
  IsCanonical n = (n ≡ length (encode_utf8 cp)) × Reads s pos (encode_utf8 cp)

module _ (s : Bytes) (pos cp n : ℕ) (bytes : All IsByte s) (valid : cp ≢ replacement)
    (inside : pos < length s) where
  IsCanonical-two :
      high_bits (get_or s pos 0) 5 ≡ 0xC0
      → multibyte s pos 1 (low_bits (get_or s pos 0) 5) ≡ (n, cp)
      → IsCanonical s pos cp n
  unfolding multibyte encode_utf8
  IsCanonical-two e h = ground (arith, get_or-IsByte s pos bytes, get_or-IsByte s (pos + 1) bytes)

  IsCanonical-three :
      high_bits (get_or s pos 0) 4 ≡ 0xE0
      → multibyte s pos 2 (low_bits (get_or s pos 0) 4) ≡ (n, cp)
      → IsCanonical s pos cp n
  unfolding multibyte encode_utf8
  IsCanonical-three e h = ground (
    arith,
    get_or-IsByte s pos bytes,
    get_or-IsByte s (pos + 1) bytes,
    get_or-IsByte s (pos + 1 + 1) bytes,
  )

  IsCanonical-four :
      high_bits (get_or s pos 0) 3 ≡ 0xF0
      → multibyte s pos 3 (low_bits (get_or s pos 0) 3) ≡ (n, cp)
      → IsCanonical s pos cp n
  unfolding multibyte encode_utf8
  IsCanonical-four e h = ground (
    arith,
    get_or-IsByte s pos bytes,
    get_or-IsByte s (pos + 1) bytes,
    get_or-IsByte s (pos + 1 + 1) bytes,
    get_or-IsByte s (pos + 1 + 1 + 1) bytes,
  )

  -- No overlong form, surrogate or truncated sequence decodes to a scalar: behind any value but
  -- the replacement character stands exactly the encoding of that value.
  pub utf8_decode-IsCanonical : utf8_decode s pos ≡ (n, cp) → IsCanonical s pos cp n
  unfolding utf8_decode encode_utf8
  utf8_decode-IsCanonical h = ground (arith, IsCanonical-two, IsCanonical-three, IsCanonical-four)
