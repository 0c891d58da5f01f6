-- ===== src/Common/Utf8.antt =====
-- src/common/utf8.cpp: the UTF-8 codec. A byte string is a list of numbers below 256, and a
-- `char32_t` a number; `x & mask` is written with the quotients and remainders that it stands for.
pub mod Decode
pub mod RoundTrip
pub mod Fold
use sshos.Base.{
  ℕ, zero, suc, ◌+◌, ◌-◌, ◌*◌, ◌/◌, ◌%◌, ◌≤◌, ◌<◌, ◌⊎◌, Bool, true, ◌&&◌, ◌||◌, List, [], ◌∷◌, ◌++◌,
  Bytes, length, get_or, ltb, leb, ◌==◌, if◌then◌else◌, low_bits, high_bits,
}

abbrev pub replacement : ℕ
replacement = 0xFFFD

abbrev pub is_surrogate : ℕ → Bool
is_surrogate cp = leb 0xD800 cp && leb cp 0xDFFF

abbrev pub is_overlong : ℕ → ℕ → Bool
is_overlong need cp =
    (need == 1 && ltb cp 0x80) || (need == 2 && ltb cp 0x800) || (need == 3 && ltb cp 0x10000)

-- A Unicode scalar value.
abbrev pub IsScalar : ℕ → Type 0
IsScalar cp = ((cp < 0xD800) ⊎ (0xDFFF < cp)) × (cp ≤ 0x10FFFF)

-- How the loop over the continuation bytes ends: at the byte `k` that is none, or with the value.
pub data Scan : Type 0 where
  broken : ℕ → Scan
  scanned : ℕ → Scan

-- `for (int k = 1; k <= need; ++k)`, on the number of rounds left.
unfoldable pub continuations : Bytes → ℕ → ℕ → ℕ → ℕ → Scan
continuations s pos zero k cp = scanned cp
continuations s pos (suc left) k cp =
    let bk = get_or s (pos + k) 0 in
    let rest = continuations s pos left (k + 1) (cp * 64 + low_bits bk 6) in
    if high_bits bk 6 == 0x80 then rest else broken k

-- The validation after the loop, with the number of bytes consumed.
unfoldable pub validate : ℕ → Scan → ℕ × ℕ
validate need (broken k) = (k, replacement)
validate need (scanned cp) =
    if is_surrogate cp || ltb 0x10FFFF cp || is_overlong need cp
    then (need + 1, replacement)
    else (need + 1, cp)

-- Behind a lead byte that announces `need` more, with the bits it carries.
unfoldable pub multibyte : Bytes → ℕ → ℕ → ℕ → ℕ × ℕ
unfolding continuations validate
multibyte s pos need cp =
    if leb (length s) (pos + need) && ltb (length s - 1) (pos + need)
    then (length s - pos, replacement)
    else validate need (continuations s pos need 1 cp)

-- The number of bytes consumed, and `out`.
unfoldable pub utf8_decode : Bytes → ℕ → ℕ × ℕ
utf8_decode s pos =
    let b0 = get_or s pos 0 in
    if leb (length s) pos
    then (1, replacement)
    else if ltb b0 0x80
    then (1, b0)
    else if high_bits b0 5 == 0xC0
    then multibyte s pos 1 (low_bits b0 5)
    else if high_bits b0 4 == 0xE0
    then multibyte s pos 2 (low_bits b0 4)
    else if high_bits b0 3 == 0xF0
    then multibyte s pos 3 (low_bits b0 3)
    else (1, replacement)

-- The bytes of a valid scalar; `tag | bits` has disjoint operands, and is their sum.
unfoldable pub encode_scalar : ℕ → Bytes
encode_scalar cp =
    if ltb cp 0x80
    then cp ∷ []
    else if ltb cp 0x800
    then (0xC0 + cp / 64) ∷ (0x80 + cp % 64) ∷ []
    else if ltb cp 0x10000
    then (0xE0 + cp / 4096) ∷ (0x80 + cp / 64 % 64) ∷ (0x80 + cp % 64) ∷ []
    else (0xF0 + cp / 262144)
      ∷ (0x80 + cp / 4096 % 64)
      ∷ (0x80 + cp / 64 % 64)
      ∷ (0x80 + cp % 64)
      ∷ []

unfoldable pub encode_utf8 : ℕ → Bytes
unfolding encode_scalar
encode_utf8 cp = encode_scalar (if is_surrogate cp || ltb 0x10FFFF cp then replacement else cp)
