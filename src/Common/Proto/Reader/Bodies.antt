-- ===== src/Common/Proto/Reader/Bodies.antt =====
-- Reading back the body of each message.
use sshos.Base.{
  ℕ, ◌+◌, ◌%◌, ◌^◌, ◌≤◌, ◌<◌, ◌≡◌, refl, ap, sym, subst, ◌∙◌, Bool, true, false, List, [], ◌∷◌,
  ◌++◌, arith, some, Bytes, length, length-append, append_assoc, append-nil, if◌then◌else◌, not,
  ◌==◌,
}
use sshos.Common.Proto.{
  Hello, Msg, hello, welcome, incompatible, detached, input, resize, frame, put_u8, put_u16,
  put_u32, put_str, put_env, body_of,
}
use sshos.Common.Proto.Reader.{
  Reader, Read, ◌>>=◌, pure, u8, u16, u32, str, read_env, read_hello, read_resize, read_body,
}
use sshos.Common.Proto.Reader.Reads.{
  At, Gives, Gives-if, Gives-bind, Gives-u8, Gives-u16, Gives-u32, Gives-str,
}

-- The integer fields hold what their C++ types can hold.
abbrev pub IsTyped : Msg → Type 0
IsTyped (hello h) = (h.build_id < 2 ^ 32) × (h.cols < 2 ^ 16) × (h.rows < 2 ^ 16)
IsTyped (resize cols rows) = (cols < 2 ^ 16) × (rows < 2 ^ 16)
IsTyped _ = Unit

length-put_u32 : (n : ℕ) → length (put_u32 n) ≡ 4
unfolding put_u32
length-put_u32 n = refl

length-put_str : (s : Bytes) → length (put_str s) ≡ 4 + length s
unfolding put_str
length-put_str s =
    omega (arith, length-append (put_u32 (length s % 2 ^ 32)) s, length-put_u32 (length s % 2 ^ 32))

Gives-read_env :
    (env seen : List (Bytes × Bytes)) {r : Reader} (bs : Bytes)
    → length (put_env env) < 2 ^ 32
    → At r (put_env env ++ bs)
    → Gives (read_env (length env) seen r) r.s (seen ++ env) bs
unfolding read_env put_env
Gives-read_env [] seen {r} bs l h = record {
  value = sym (append-nil seen);
  same = refl;
  then_at = h;
}
Gives-read_env ((k, v) ∷ env) seen {r} bs l h = Gives-if r.ok _ h.sound (
    Gives-bind (λ key. str >>= λ value. read_env (length env) (seen ++ (key, value) ∷ []))
      (Gives-str k _ (omega (arith, sizes)) ahead)
      (λ q h'.
        Gives-bind (λ value. read_env (length env) (seen ++ (k, value) ∷ []))
          (Gives-str v _ (omega (arith, sizes)) h')
          (λ q' h''.
            rw (append_assoc seen ((k, v) ∷ []) env) at
              (Gives-read_env env (seen ++ (k, v) ∷ []) bs (omega (arith, sizes)) h''))))
  where
    ahead : At r (put_str k ++ (put_str v ++ (put_env env ++ bs)))
    ahead =
        subst (At r)
          (append_assoc (put_str k) (put_str v ++ put_env env) bs
            ∙ ap (◌++◌ (put_str k)) (append_assoc (put_str v) (put_env env) bs))
          h

    sizes : (4 + length k) + ((4 + length v) + length (put_env env)) < 2 ^ 32
    sizes = omega (
      arith,
      length-put_str k,
      length-put_str v,
      length-append (put_str k) (put_str v ++ put_env env),
      length-append (put_str v) (put_env env),
    )

-- The bounds on the parts of a body that fits in a message.
record HelloFits (h : Hello) : Type 0 where
  term : length h.term < 2 ^ 32
  colorterm : length h.colorterm < 2 ^ 32
  env : length (put_env h.env) < 2 ^ 32
  pairs : length h.env < 2 ^ 32

length-le-put_env : (env : List (Bytes × Bytes)) → length env ≤ length (put_env env)
unfolding put_env
length-le-put_env [] = omega arith
length-le-put_env ((k, v) ∷ env) = omega (
  arith,
  length-le-put_env env,
  length-put_str k,
  length-append (put_str k) (put_str v ++ put_env env),
  length-append (put_str v) (put_env env),
)

body_of-HelloFits : (h : Hello) → length (body_of (hello h)).1 < 2 ^ 32 → HelloFits h
unfolding body_of
body_of-HelloFits h l = omega (
  arith,
  length-append (put_u32 h.build_id) (put_u16 h.cols ++ (put_u16 h.rows ++ behind_rows)),
  length-append (put_u16 h.cols) (put_u16 h.rows ++ behind_rows),
  length-append (put_u16 h.rows) behind_rows,
  length-append (put_str h.term) (put_str h.colorterm ++ behind_strings),
  length-append (put_str h.colorterm) behind_strings,
  length-append (put_u8 flag) (put_u32 (length h.env % 2 ^ 32) ++ put_env h.env),
  length-append (put_u32 (length h.env % 2 ^ 32)) (put_env h.env),
  length-put_str h.term,
  length-put_str h.colorterm,
  length-le-put_env h.env,
)
  where
    flag : ℕ
    flag = if h.utf8 then 1 else 0

    behind_strings : Bytes
    behind_strings = put_u8 flag ++ (put_u32 (length h.env % 2 ^ 32) ++ put_env h.env)

    behind_rows : Bytes
    behind_rows = put_str h.term ++ (put_str h.colorterm ++ behind_strings)

not-flag : (b : Bool) → not ((if b then 1 else 0) % 256 == 0) ≡ b
not-flag true = refl
not-flag false = refl

Gives-read_hello :
    (h : Hello) {r : Reader}
    → IsTyped (hello h)
    → length (body_of (hello h)).1 < 2 ^ 32
    → At r (body_of (hello h)).1
    → Gives (read_hello r) r.s h []
unfolding read_hello body_of put_u8
Gives-read_hello h {r} t l a = Gives-bind after_id (Gives-u32 h.build_id _ t.0 a) λ q1 a1.
    Gives-bind (after_cols h.build_id) (Gives-u16 h.cols _ t.1 a1) λ q2 a2.
      Gives-bind (after_rows h.build_id h.cols) (Gives-u16 h.rows _ t.2 a2) λ q3 a3.
        Gives-bind (after_term h.build_id h.cols h.rows) (Gives-str h.term _ fits.term a3) λ q4 a4.
          Gives-bind (after_colorterm h.build_id h.cols h.rows h.term)
            (Gives-str h.colorterm _ fits.colorterm a4)
            λ q5 a5.
              Gives-bind (after_flag h.build_id h.cols h.rows h.term h.colorterm) (Gives-u8 _ _ a5)
                λ q6 a6.
                  Gives-bind (after_n h.build_id h.cols h.rows h.term h.colorterm (flag % 256))
                    (Gives-u32 (length h.env) _ fits.pairs (rw whole at a6))
                    λ q7 a7.
                      Gives-bind
                        (λ env.
                          pure (made h.build_id h.cols h.rows h.term h.colorterm (flag % 256) env))
                        (Gives-read_env h.env [] [] fits.env
                          (subst (At q7) (sym (append-nil _)) a7))
                        λ q8 a8. record {
                          value = λ i. record h { utf8 = not-flag h.utf8 i };
                          same = refl;
                          then_at = a8;
                        }
  where
    flag : ℕ
    flag = if h.utf8 then 1 else 0

    fits : HelloFits h
    fits = body_of-HelloFits h l

    whole : length h.env % 2 ^ 32 ≡ length h.env
    whole = let f = fits.pairs in omega arith

    made : ℕ → ℕ → ℕ → Bytes → Bytes → ℕ → List (Bytes × Bytes) → Hello
    made id cols rows term colorterm flag env = record {
      build_id = id;
      cols = cols;
      rows = rows;
      term = term;
      colorterm = colorterm;
      utf8 = not (flag == 0);
      env = env;
    }

    after_n : ℕ → ℕ → ℕ → Bytes → Bytes → ℕ → ℕ → Read Hello
    after_n id cols rows term colorterm flag n =
        read_env n [] >>= λ env. pure (made id cols rows term colorterm flag env)

    after_flag : ℕ → ℕ → ℕ → Bytes → Bytes → ℕ → Read Hello
    after_flag id cols rows term colorterm flag = u32 >>= after_n id cols rows term colorterm flag

    after_colorterm : ℕ → ℕ → ℕ → Bytes → Bytes → Read Hello
    after_colorterm id cols rows term colorterm = u8 >>= after_flag id cols rows term colorterm

    after_term : ℕ → ℕ → ℕ → Bytes → Read Hello
    after_term id cols rows term = str >>= after_colorterm id cols rows term

    after_rows : ℕ → ℕ → ℕ → Read Hello
    after_rows id cols rows = str >>= after_term id cols rows

    after_cols : ℕ → ℕ → Read Hello
    after_cols id cols = u16 >>= after_rows id cols

    after_id : ℕ → Read Hello
    after_id id = u16 >>= after_cols id

Gives-text :
    (make : Bytes → Msg) (s : Bytes) {r : Reader}
    → length (put_str s) < 2 ^ 32
    → At r (put_str s)
    → Gives ((str >>= λ t. pure (some (make t))) r) r.s (some (make s)) []
Gives-text make s {r} l a =
    Gives-bind (λ t. pure (some (make t)))
      (Gives-str s [] (omega (arith, length-put_str s))
        (subst (At r) (sym (append-nil (put_str s))) a))
      λ q h. record { value = refl; same = refl; then_at = h }

-- The decoder's reading of a body gives back the message whose body it is, and ends at its end.
pub Gives-read_body :
    (m : Msg) {r : Reader}
    → IsTyped m
    → length (body_of m).1 < 2 ^ 32
    → At r (body_of m).1
    → Gives (read_body (body_of m).0 r) r.s (some m) []
unfolding read_body body_of read_resize
Gives-read_body (hello h) t l a =
    Gives-bind (λ h'. pure (some (hello h'))) (Gives-read_hello h t l a)
      λ q a'. record { value = refl; same = refl; then_at = a' }
Gives-read_body welcome t l a = record { value = refl; same = refl; then_at = a }
Gives-read_body (incompatible s) t l a = Gives-text incompatible s l a
Gives-read_body (detached s) t l a = Gives-text detached s l a
Gives-read_body (input s) t l a = Gives-text input s l a
Gives-read_body (resize cols rows) {r} t l a =
    Gives-bind (λ c. u16 >>= λ w. pure (some (resize c w))) (Gives-u16 cols _ t.0 a)
      λ q a'.
        Gives-bind (λ w. pure (some (resize cols w)))
          (Gives-u16 rows [] t.1 (subst (At q) (sym (append-nil _)) a'))
          λ q' a''. record { value = refl; same = refl; then_at = a'' }
Gives-read_body (frame s) t l a = Gives-text frame s l a
