-- ===== src/Vt/Parser/Sequences.antt =====
-- Control sequences through the machine: parameters written in decimal come back as numbers, and
-- a sequence can be cut short from any state.
use sshos.Base.{
  ℕ, zero, suc, ◌+◌, ◌-◌, ◌/◌, ◌%◌, ◌≤◌, ◌<◌, ◌≡◌, refl, ap, sym, ◌∙◌, inl, inr, false, List, [],
  ◌∷◌, ◌++◌, map, arith, Bytes, All, length, append_assoc, ltb, Bool-cases, length-append,
}
use sshos.Base.Int.{pos, negsuc}
use sshos.Base.Decimal.{digits, to_string}
use sshos.Vt.Parser.{
  Parser, Param, Params, csi, ground_state, csi_entry, csi_param, go, absent, max_params,
  max_param_value,
}
use sshos.Vt.Parser.Step.{
  add_digit, digit_last, or_first, push_param_digit, separator, next_param, in_ground, ground_byte,
  ground_fresh, flush_utf8_as_replacement, in_escape,
}
use sshos.Vt.Parser.Machine.{dispatch, step, feed, in_csi_entry, in_csi_param}
use sshos.Vt.Parser.Text.{at_rest, feed-through}

abbrev pub number : ℕ → Param
number n = record { value = pos n; sub = false }

-- `\033[` and `n1;n2;…` and the final byte.
abbrev pub join : ℕ → List ℕ → Bytes
join n [] = to_string n
join n (m ∷ ms) = to_string n ++ (b';' ∷ join m ms)

abbrev pub csi_bytes : ℕ → List ℕ → ℕ → Bytes
csi_bytes n ns final = 0x1B ∷ b'[' ∷ (join n ns ++ final ∷ [])

digit_last-concat :
    (ps : Params) (p : Param) (d : ℕ)
    → digit_last (ps ++ p ∷ []) d ≡ ps ++ record p { value = pos (add_digit p.value d) } ∷ []
unfolding digit_last
digit_last-concat [] p d = refl
digit_last-concat (x ∷ []) p d = refl
digit_last-concat (x ∷ y ∷ ps) p d = ap (◌∷◌ x) (digit_last-concat (y ∷ ps) p d)

or_first-concat : (ps : Params) (p : Param) → or_first (ps ++ p ∷ []) ≡ ps ++ p ∷ []
or_first-concat [] p = refl
or_first-concat (x ∷ ps) p = refl

-- Inside the parameters, with `ps` read and one more begun.
abbrev inside : Parser → Params → Param → Parser
inside q ps p = record q { state = csi_param; params = ps ++ p ∷ [] }

push_digit :
    (q : Parser) (ps : Params) (p : Param) (d : ℕ)
    → push_param_digit (b'0' + d) (inside q ps p)
      ≡ inside q ps (record p { value = pos (add_digit p.value d) })
unfolding push_param_digit
push_digit q ps p d =
    rw (or_first-concat ps p, minus)
      (ap (λ qs. record q { state = csi_param; params = qs }) (digit_last-concat ps p d))
  where
    minus : b'0' + d - b'0' ≡ d
    minus = omega arith

step_digit :
    (q : Parser) (ps : Params) (p : Param) (d : ℕ)
    → d ≤ 9
    → step (b'0' + d) (inside q ps p)
      ≡ (inside q ps (record p { value = pos (add_digit p.value d) }), [])
unfolding step dispatch in_csi_param
step_digit q ps p d h = let e = push_digit q ps p d in ground arith

-- `[` opens the parameters, with none read and none begun.
abbrev pub opened : Parser → Parser
opened q = record q { state = csi_entry; params = []; intermediates = []; osc_data = [] }

feed_opening : (q : Parser) → feed (0x1B ∷ b'[' ∷ []) (at_rest q) ≡ (opened (at_rest q), [])
unfolding feed step dispatch in_ground ground_byte ground_fresh flush_utf8_as_replacement in_escape
feed_opening q = refl

step_first :
    (q : Parser) (d : ℕ)
    → d ≤ 9
    → step (b'0' + d) (opened q)
      ≡ (inside (opened q) [] (record { value = pos (add_digit (negsuc 0) d); sub = false }), [])
unfolding step dispatch in_csi_entry push_param_digit digit_last
step_first q d h = ground arith

step_separator :
    (q : Parser) (ps : Params) (p : Param)
    → length (ps ++ p ∷ []) < max_params
    → step b';' (inside q ps p) ≡ (inside q (ps ++ p ∷ []) (absent false), [])
unfolding step dispatch in_csi_param separator next_param
step_separator q ps p h = rw (or_first-concat ps p) (ground arith)

step_final :
    (q : Parser) (ps : Params) (p : Param) (b : ℕ)
    → 0x40 ≤ b
    → b ≤ 0x7E
    → step b (inside q ps p)
      ≡ (go ground_state (inside q ps p), csi (ps ++ p ∷ []) q.intermediates b ∷ [])
unfolding step dispatch in_csi_param
step_final q ps p b lo hi = ground arith

add_digit_next : (n : ℕ) → n ≤ max_param_value → add_digit (pos (n / 10)) (n % 10) ≡ n
unfolding add_digit
add_digit_next n h = ground arith

-- Where a first digit begins the parameter behind `ps`, a number's digits give the number.
run_digits :
    (q s : Parser) (ps : Params)
    → ((d : ℕ) → d ≤ 9 → step (b'0' + d) s ≡ (inside q ps (number d), []))
    → (fuel n : ℕ) → n < fuel
    → n ≤ max_param_value
    → feed (digits fuel n) s ≡ (inside q ps (number n), [])
unfolding digits feed
run_digits q s ps first zero n lo hi = absurd (omega arith)
run_digits q s ps first (suc fuel) n lo hi = elim (Bool-cases (ltb n 10)) [
  | inl e ↦ rw e (rw (first n (ground arith)) refl)
  | inr e ↦ rw e (
      feed-through (digits fuel (n / 10)) ((b'0' + n % 10) ∷ []) s
        (run_digits q s ps first fuel (n / 10) (ground arith) (omega arith))
        (rw (step_digit q ps (number (n / 10)) (n % 10) (omega arith), add_digit_next n hi) refl))
]

later_digit :
    (q : Parser) (ps : Params) (d : ℕ)
    → d ≤ 9
    → step (b'0' + d) (inside q ps (absent false)) ≡ (inside q ps (number d), [])
later_digit q ps d h = step_digit q ps (absent false) d h ∙ unfold add_digit in ground arith

first_digit :
    (q : Parser) (d : ℕ)
    → d ≤ 9
    → step (b'0' + d) (opened q) ≡ (inside (opened q) [] (number d), [])
first_digit q d h = step_first q d h ∙ unfold add_digit in ground arith

abbrev pub all_numbers : ℕ → List ℕ → Params
all_numbers n ns = map number (n ∷ ns)

abbrev pub IsValue : ℕ → Type 0
IsValue n = n ≤ max_param_value

-- On the ground, `ps` the parameters read last.
abbrev pub done : Parser → Params → Parser
done q ps = record q { state = ground_state; params = ps }

run_numbers :
    (q s : Parser) (ps : Params) (n : ℕ) (ns : List ℕ) (b : ℕ)
    → ((d : ℕ) → d ≤ 9 → step (b'0' + d) s ≡ (inside q ps (number d), []))
    → length ps + suc (length ns) ≤ max_params
    → All IsValue (n ∷ ns)
    → 0x40 ≤ b
    → b ≤ 0x7E
    → feed (join n ns ++ b ∷ []) s
      ≡ (done q (ps ++ all_numbers n ns), csi (ps ++ all_numbers n ns) q.intermediates b ∷ [])
unfolding to_string feed
run_numbers q s ps n [] b first room vs lo hi =
    feed-through (to_string n) (b ∷ []) s (run_digits q s ps first (suc n) n (omega arith) vs.0)
      (rw (step_final q ps (number n) b lo hi) refl)
run_numbers q s ps n (m ∷ ms) b first room vs lo hi =
    let later = inside q (ps ++ number n ∷ []) (absent false) in
    rw
      (
        append_assoc (to_string n) (b';' ∷ join m ms) (b ∷ []),
        sym (append_assoc ps (number n ∷ []) (all_numbers m ms)),
      )
      (feed-through (to_string n) (b';' ∷ (join m ms ++ b ∷ [])) s
        (run_digits q s ps first (suc n) n (omega arith) vs.0)
        (rw (step_separator q ps (number n) room') (
          run_numbers q later (ps ++ number n ∷ []) m ms b (later_digit q (ps ++ number n ∷ []))
            room'' vs.1 lo hi)))
  where
    room' : length (ps ++ number n ∷ []) < max_params
    room' = omega (arith, length-append ps (number n ∷ []), room)

    room'' : length (ps ++ number n ∷ []) + suc (length ms) ≤ max_params
    room'' = omega (arith, length-append ps (number n ∷ []), room)

-- A control sequence written with decimal parameters, at most 32 of them and each at most 65535,
-- and a final byte, is one call with exactly these numbers, and the machine is on the ground again.
pub feed-csi_bytes :
    (q : Parser) (n : ℕ) (ns : List ℕ) (b : ℕ)
    → suc (length ns) ≤ max_params
    → All IsValue (n ∷ ns)
    → 0x40 ≤ b
    → b ≤ 0x7E
    → feed (csi_bytes n ns b) (at_rest q)
      ≡ (done (opened (at_rest q)) (all_numbers n ns), csi (all_numbers n ns) [] b ∷ [])
feed-csi_bytes q n ns b room vs lo hi =
    feed-through (0x1B ∷ b'[' ∷ []) (join n ns ++ b ∷ []) (at_rest q) (feed_opening q) (
      run_numbers (opened (at_rest q)) (opened (at_rest q)) [] n ns b (first_digit (at_rest q))
        (omega arith) vs lo hi)
