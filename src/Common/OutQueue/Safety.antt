-- ===== src/Common/OutQueue/Safety.antt =====
-- The queue's invariant, and each operation by what it does to the bytes not sent yet.
use sshos.Base.{
  ℕ, ◌+◌, ◌-◌, ◌≤◌, ◌<◌, ◌≡◌, refl, ap, sym, ◌∙◌, inl, inr, List, [], ◌∷◌, ◌++◌, arith, none, subst,
  Bytes, length, take, length-append, length-drop, drop-append_le, drop_all, drop-drop,
  append_assoc, take-append-drop, max, ltb, ◌==◌, Bool-cases, if◌then◌else◌,
}
use sshos.Common.OutQueue.{
  OutQueue, Sent, wrote, would_block, interrupted, failed, Capacity, Flushed, size_mod, severity,
  size, wants_write, unsent, push, compact, finish, give_up, flush,
}

pub record IsValid (q : OutQueue) : Type 0 where
  pub within : q.off ≤ length q.buf
  pub bounded : size q ≤ q.ceiling
  pub machine : q.ceiling < size_mod

-- The results of `send` that its documentation allows, with `left` bytes to send.
abbrev pub Obeys : List Sent → ℕ → Type 0
Obeys [] left = Unit
Obeys (wrote n ∷ sends) left = (n ≤ left) × Obeys sends (left - n)
Obeys (would_block ∷ sends) left = Obeys sends left
Obeys (interrupted ∷ sends) left = Obeys sends left
Obeys (failed ∷ sends) left = Obeys sends left

less : (q : OutQueue) (n : ℕ) → size q - n ≡ size (record q { off = q.off + n })
unfolding size
less q n = omega arith

pub length-unsent : (q : OutQueue) → length (unsent q) ≡ size q
unfolding size
length-unsent q = length-drop q.off q.buf

module _ (c : Capacity) where
  -- A push that fits under the ceiling of a valid queue appends its bytes to those that wait,
  -- keeps the queue valid, and leaves the recorded overflow as it was.
  pub push_within :
      (bytes : Bytes) (q : OutQueue)
      → IsValid q
      → size q + length bytes ≤ q.ceiling
      → IsValid (push c bytes q)
        × (unsent (push c bytes q) ≡ unsent q ++ bytes)
        × ((push c bytes q).overflow ≡ q.overflow)
  unfolding push size
  push_within bytes q v l =
      let m = v.machine in
      let w = v.within in
      ground (arith, drop-append_le q.off q.buf bytes, length-append q.buf bytes)

  -- A push that does not fit under the ceiling of a valid queue drops everything that waits, keeps
  -- the queue valid, and records how bad that is: the worse of what was recorded before and of this
  -- loss, which is `dirty` if the position has left the start and `clean` otherwise.
  pub push_beyond :
      (bytes : Bytes) (q : OutQueue)
      → IsValid q
      → q.ceiling < size q + length bytes
      → IsValid (push c bytes q)
        × (unsent (push c bytes q) ≡ [])
        × (severity (push c bytes q).overflow
            ≡ max (severity q.overflow) (if ltb 0 q.off then 2 else 1))
  unfolding push size
  push_beyond bytes q v l = let m = v.machine in let w = v.within in ground arith

  pub compact-IsValid :
      (q : OutQueue)
      → IsValid q
      → IsValid (compact c q)
        × (unsent (compact c q) ≡ unsent q)
        × ((compact c q).ceiling ≡ q.ceiling)
        × ((compact c q).overflow ≡ q.overflow)
  unfolding compact size
  compact-IsValid q v =
      let m = v.machine in
      let w = v.within in ground (arith, drop_all q.off q.buf, length-drop q.off q.buf)

  -- What a call of `flush` keeps.
  pub record IsFlushed (q : OutQueue) (f : Flushed) : Type 0 where
    pub valid : IsValid f.queue
    pub conserved : f.wire ++ unsent f.queue ≡ unsent q
    pub same_ceiling : f.queue.ceiling ≡ q.ceiling
    pub same_overflow : f.queue.overflow ≡ q.overflow

  finish-IsFlushed : (q : OutQueue) → IsValid q → IsFlushed q (finish c q)
  finish-IsFlushed q v =
      let (v', u, k, o) = compact-IsValid q v in
      record { valid = v'; conserved = u; same_ceiling = k; same_overflow = o }

  give_up-IsFlushed : (q : OutQueue) → IsValid q → IsFlushed q (give_up c q)
  give_up-IsFlushed q v = record {
    valid = v;
    conserved = refl;
    same_ceiling = refl;
    same_overflow = refl;
  }

  pending-IsFlushed :
      (q : OutQueue) → IsValid q → IsFlushed q (record { result = none; wire = []; queue = q })
  pending-IsFlushed q v = record {
    valid = v;
    conserved = refl;
    same_ceiling = refl;
    same_overflow = refl;
  }

  -- One successful `send`.
  advance-IsFlushed :
      (q : OutQueue) (n : ℕ) (f : Flushed)
      → n ≤ size q
      → IsFlushed (record q { off = q.off + n }) f
      → IsFlushed q (record f { wire = take n (unsent q) ++ f.wire })
  advance-IsFlushed q n f l k = record {
    valid = k.valid;
    conserved =
        append_assoc (take n (unsent q)) f.wire (unsent f.queue)
        ∙ ap (◌++◌ (take n (unsent q))) (k.conserved ∙ sym (drop-drop n q.off _ q.buf refl))
        ∙ take-append-drop n (unsent q);
    same_ceiling = k.same_ceiling;
    same_overflow = k.same_overflow;
  }

  advance-IsValid :
      (q : OutQueue) (n : ℕ) → IsValid q → n ≤ size q → IsValid (record q { off = q.off + n })
  unfolding size
  advance-IsValid q n v l =
      let m = v.machine in
      let w = v.within in
      let b = v.bounded in record { within = omega arith; bounded = omega arith; machine = m }

  -- Whatever `send` returns within its contract, `flush` of a valid queue puts on the wire and keeps
  -- what are, in this order, the bytes that were waiting; the queue stays valid, and its ceiling and
  -- the recorded overflow as they were.
  pub flush-IsFlushed :
      (sends : List Sent) (q : OutQueue)
      → IsValid q
      → Obeys sends (size q)
      → IsFlushed q (flush c sends q)
  unfolding flush
  flush-IsFlushed [] q v o = elim (Bool-cases (wants_write q)) [
    | inl e ↦ rw e (pending-IsFlushed q v)
    | inr e ↦ rw e (finish-IsFlushed q v)
  ]
  flush-IsFlushed (wrote n ∷ sends) q v o = elim (Bool-cases (wants_write q)) [
    | inr e ↦ rw e (finish-IsFlushed q v)
    | inl e ↦ elim (Bool-cases (n == 0)) [
      | inl z ↦ rw (e, z) (give_up-IsFlushed q v)
      | inr z ↦
          rw (e, z)
            (advance-IsFlushed q n _ o.0 (
              flush-IsFlushed sends _ (advance-IsValid q n v o.0)
                (subst (Obeys sends) (less q n) o.1)))
    ]
  ]
  flush-IsFlushed (would_block ∷ sends) q v o = finish-IsFlushed q v
  flush-IsFlushed (interrupted ∷ sends) q v o = elim (Bool-cases (wants_write q)) [
    | inl e ↦ rw e (flush-IsFlushed sends q v o)
    | inr e ↦ rw e (finish-IsFlushed q v)
  ]
  flush-IsFlushed (failed ∷ sends) q v o = elim (Bool-cases (wants_write q)) [
    | inl e ↦ rw e (give_up-IsFlushed q v)
    | inr e ↦ rw e (finish-IsFlushed q v)
  ]
