-- ===== src/Common/Proto/Reader/Reads.antt =====
-- What each read gives when the bytes ahead are those that the writer put there.
use sshos.Base.{
  ℕ, zero, suc, ◌+◌, ◌*◌, ◌/◌, ◌%◌, ◌^◌, ◌≤◌, ◌<◌, ◌≡◌, refl, ap, sym, subst, ◌∙◌, Bool, true,
  false, [], ◌∷◌, ◌++◌, arith, Bytes, length, get_or, take, drop, le→ltb, take-length-append,
  drop-length-append, drop-drop, length-append, length-drop, append_assoc, if◌then◌else◌, not, ◌||◌,
  ltb,
}
use sshos.Common.Proto.{put_u16, put_u32, put_str}
use sshos.Common.Proto.Reader.{Reader, Read, ◌>>=◌, pure, u8, u16, u32, take_str, str}

-- The reader has not failed, and has `bs` ahead of it.
pub record At (r : Reader) (bs : Bytes) : Type 0 where
  pub sound : r.ok ≡ true
  pub inside : r.i ≤ length r.s
  pub ahead : drop r.i r.s ≡ bs

-- A read of the string `s` has given `a`, and has left `bs` ahead.
pub record Gives {A : Type 0} (read : A × Reader) (s : Bytes) (a : A) (bs : Bytes) : Type 0 where
  pub value : read.0 ≡ a
  pub same : read.1.s ≡ s
  pub then_at : At read.1 bs

pub Gives-bind :
    {A B : Type 0} (f : A → Read B) {read : A × Reader} {s : Bytes} {a : A} {b : B} {bs cs : Bytes}
    → Gives read s a bs
    → ((q : Reader) → At q bs → Gives (f a q) q.s b cs)
    → Gives (f read.0 read.1) s b cs
Gives-bind f {read} {s} {a} {b} {bs} {cs} g k =
    rw g.value (record { value = next.value; same = next.same ∙ g.same; then_at = next.then_at })
  where
    next : Gives (f a read.1) read.1.s b cs
    next = k read.1 g.then_at

-- A test that passes.
pub Gives-if :
    {A : Type 0} (b : Bool) {x : A × Reader} (y : A × Reader) {s : Bytes} {a : A} {bs : Bytes}
    → b ≡ true
    → Gives x s a bs
    → Gives (if b then x else y) s a bs
Gives-if b y e g = rw e g

drop-eq-cons :
    (i : ℕ) (s : Bytes) (b : ℕ) (bs : Bytes)
    → drop i s ≡ b ∷ bs
    → (i < length s) × (get_or s i 0 ≡ b) × (drop (i + 1) s ≡ bs)
drop-eq-cons zero [] b bs h = cc
drop-eq-cons zero (x ∷ s) b bs h = ground arith
drop-eq-cons (suc i) [] b bs h = cc
drop-eq-cons (suc i) (x ∷ s) b bs h =
    let ih = drop-eq-cons i s b bs h in
    (omega arith, ih.1, the (i + 1) (suc i + 1) (omega arith) ih.2)
  where
    the : (j k : ℕ) → k ≡ suc j → drop j s ≡ bs → drop k (x ∷ s) ≡ bs
    the j zero e h' = absurd (omega arith)
    the j (suc k) e h' = let same : k ≡ j = omega arith in rw same h'

pub Gives-u8 : {r : Reader} (b : ℕ) (bs : Bytes) → At r (b ∷ bs) → Gives (u8 r) r.s b bs
unfolding u8
Gives-u8 {r} b bs h =
    let (l, g, d) = drop-eq-cons r.i r.s b bs h.ahead in
    rw (le→ltb (length r.s) (r.i + 1) (omega arith)) (record {
      value = g;
      same = refl;
      then_at = record { sound = h.sound; inside = omega arith; ahead = d };
    })

pub Gives-u16 :
    {r : Reader} (v : ℕ) (bs : Bytes) → v < 2 ^ 16 → At r (put_u16 v ++ bs) → Gives (u16 r) r.s v bs
unfolding u16 put_u16
Gives-u16 {r} v bs l h =
    Gives-bind (λ hi. u8 >>= λ lo. pure ((hi * 256 + lo) % 2 ^ 16)) (Gives-u8 _ _ h)
      (λ q h'.
        Gives-bind (λ lo. pure ((v / 256 % 256 * 256 + lo) % 2 ^ 16)) (Gives-u8 _ _ h')
          (λ q' h''. record { value = omega arith; same = refl; then_at = h'' }))

pub Gives-u32 :
    {r : Reader} (v : ℕ) (bs : Bytes) → v < 2 ^ 32 → At r (put_u32 v ++ bs) → Gives (u32 r) r.s v bs
unfolding u32 put_u32
Gives-u32 {r} v bs l h =
    Gives-bind (λ hi. u16 >>= λ lo. pure ((hi * 65536 + lo) % 2 ^ 32))
      (Gives-u16 (v / 65536 % 65536) (put_u16 (v % 65536) ++ bs) (omega arith) ahead)
      (λ q h'.
        Gives-bind (λ lo. pure ((v / 65536 % 65536 * 65536 + lo) % 2 ^ 32))
          (Gives-u16 (v % 65536) bs (omega arith) h')
          (λ q' h''. record { value = omega arith; same = refl; then_at = h'' }))
  where
    ahead : At r (put_u16 (v / 65536 % 65536) ++ (put_u16 (v % 65536) ++ bs))
    ahead = subst (At r) (append_assoc (put_u16 (v / 65536 % 65536)) (put_u16 (v % 65536)) bs) h

Gives-take_str :
    {r : Reader} (s bs : Bytes) → At r (s ++ bs) → Gives (take_str (length s) r) r.s s bs
unfolding take_str
Gives-take_str {r} s bs h =
    subst
      (λ (b : Bool).
        Gives
          (if not b || ltb (length r.s) (r.i + length s)
            then ([], record r { ok = false })
            else (take (length s) (drop r.i r.s), record r { i = r.i + length s }))
          r.s s bs)
      (sym h.sound)
      (rw (le→ltb (length r.s) (r.i + length s) fits) (record {
        value = rw h.ahead (take-length-append s bs (length s) refl);
        same = refl;
        then_at = record {
          sound = h.sound;
          inside = fits;
          ahead =
              sym (drop-drop (length s) r.i _ r.s refl)
              ∙ rw h.ahead (drop-length-append s bs (length s) refl);
        };
      }))
  where
    fits : r.i + length s ≤ length r.s
    fits =
        let e = h.inside in
        omega (arith, length-drop r.i r.s, ap length h.ahead, length-append s bs)

pub Gives-str :
    {r : Reader} (s bs : Bytes)
    → length s < 2 ^ 32
    → At r (put_str s ++ bs)
    → Gives (str r) r.s s bs
unfolding str put_str
Gives-str {r} s bs l h =
    Gives-bind take_str (Gives-u32 (length s) (s ++ bs) l (rw (append_assoc, whole) at h))
      (λ q h'. Gives-take_str s bs h')
  where
    whole : length s % 2 ^ 32 ≡ length s
    whole = omega arith
