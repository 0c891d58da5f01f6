-- ===== src/Common/OutQueue/Fifo.antt =====
-- Sequences of calls: the queue as a stream of bytes, and what the recorded overflow says of it.
use sshos.Base.{
  ℕ, ◌+◌, ◌-◌, ◌≤◌, ◌<◌, ◌≡◌, ◌≢◌, ap, sym, ◌∙◌, inl, inr, List, [], ◌∷◌, ◌++◌, arith, Bytes,
  length, take, drop, append_assoc, append-nil, leb, leb→le, lt_of_leb, Bool-cases, length-drop,
}
use sshos.Common.OutQueue.{
  OutQueue, none, clean, Sent, wrote, would_block, Capacity, severity, size, unsent, push, compact,
  flush, compact_threshold, size_mod,
}
use sshos.Common.OutQueue.Safety.{
  IsValid, Obeys, push_within, push_beyond, flush-IsFlushed, length-unsent,
}

pub data Op : Type 0 where
  pushes : Bytes → Op
  flushes : List Sent → Op

module _ (c : Capacity) where
  abbrev pub step : Op → OutQueue → OutQueue
  step (pushes bytes) q = push c bytes q
  step (flushes sends) q = (flush c sends q).queue

  abbrev pub out : Op → OutQueue → Bytes
  out (pushes bytes) q = []
  out (flushes sends) q = (flush c sends q).wire

  -- The final state, and all that was put on the wire.
  abbrev pub run : List Op → OutQueue → OutQueue × Bytes
  run [] q = (q, [])
  run (op ∷ ops) q = ((run ops (step op q)).0, out op q ++ (run ops (step op q)).1)

  -- Every `send` of the run keeps its contract.
  abbrev pub AllObey : List Op → OutQueue → Type 0
  AllObey [] q = Unit
  AllObey (pushes bytes ∷ ops) q = AllObey ops (push c bytes q)
  AllObey (flushes sends ∷ ops) q = Obeys sends (size q) × AllObey ops (flush c sends q).queue

abbrev pub pushed : List Op → Bytes
pushed [] = []
pushed (pushes bytes ∷ ops) = bytes ++ pushed ops
pushed (flushes sends ∷ ops) = pushed ops

module _ (c : Capacity) where
  push-severity :
      (bytes : Bytes) (q : OutQueue)
      → IsValid q
      → IsValid (push c bytes q) × (severity q.overflow ≤ severity (push c bytes q).overflow)
  push-severity bytes q v = elim (Bool-cases (leb (size q + length bytes) q.ceiling)) [
    | inl fits ↦
        let (v', u, o) = push_within c bytes q v (leb→le _ _ fits) in
        (v', omega (arith, ap severity o))
    | inr not_fits ↦
        let (v', u, o) = push_beyond c bytes q v (lt_of_leb _ _ not_fits) in (v', omega (arith, o))
  ]

  -- After any run the queue is valid, and the recorded overflow is no less severe.
  pub run-severity :
      (ops : List Op) (q : OutQueue)
      → IsValid q
      → AllObey c ops q
      → IsValid (run c ops q).0 × (severity q.overflow ≤ severity (run c ops q).0.overflow)
  run-severity [] q v h = (v, omega arith)
  run-severity (pushes bytes ∷ ops) q v h =
      let (v', s) = push-severity bytes q v in
      let (v'', s') = run-severity ops _ v' h in (v'', omega arith)
  run-severity (flushes sends ∷ ops) q v (o, h) =
      let f = flush-IsFlushed c sends q v o in
      let (v'', s') = run-severity ops _ f.valid h in
      (v'', omega (arith, ap severity f.same_overflow))

  -- If no overflow is recorded at the end of a run, then what went out on the wire and what is
  -- still queued are together, in order, what was queued at its start and what was pushed.
  pub run-fifo :
      (ops : List Op) (q : OutQueue)
      → IsValid q
      → AllObey c ops q
      → (run c ops q).0.overflow ≡ none
      → (run c ops q).1 ++ unsent (run c ops q).0 ≡ unsent q ++ pushed ops
  run-fifo [] q v h e = sym (append-nil (unsent q))
  run-fifo (pushes bytes ∷ ops) q v h e =
      elim (Bool-cases (leb (size q + length bytes) q.ceiling)) [
        | inl fits ↦
            let (v', u, o) = push_within c bytes q v (leb→le _ _ fits) in
            run-fifo ops _ v' h e
            ∙ ap (λ t. t ++ pushed ops) u
            ∙ append_assoc (unsent q) bytes (pushed ops)
        | inr not_fits ↦
            let (v', u, o) = push_beyond c bytes q v (lt_of_leb _ _ not_fits) in
            let (v'', s) = run-severity ops _ v' h in absurd (ground (arith, s, o, ap severity e))
      ]
  run-fifo (flushes sends ∷ ops) q v (o, h) e =
      let f = flush-IsFlushed c sends q v o in
      append_assoc (flush c sends q).wire (run c ops (flush c sends q).queue).1 _
      ∙ ap (◌++◌ (flush c sends q).wire) (run-fifo ops _ f.valid h e)
      ∙ sym (append_assoc (flush c sends q).wire (unsent (flush c sends q).queue) (pushed ops))
      ∙ ap (λ t. t ++ pushed ops) f.conserved

  -- A flush that is stopped past the threshold: the sent bytes are erased, and the position with them.
  flush_shifts :
      (n : ℕ) (q : OutQueue)
      → IsValid q
      → compact_threshold < n
      → n < size q
      → let f = flush c (wrote n ∷ would_block ∷ []) q in
        (f.wire ≡ take n (unsent q))
        × (f.queue.off ≡ 0)
        × (f.queue.buf ≡ drop (q.off + n) q.buf)
        × (f.queue.overflow ≡ q.overflow)
        × (f.queue.ceiling ≡ q.ceiling)
  unfolding flush size compact
  flush_shifts n q v l m = ground (arith, append-nil (take n (unsent q)))

  push_clean :
      (bytes : Bytes) (q : OutQueue)
      → q.off ≡ 0
      → q.overflow ≡ none
      → q.ceiling < size_mod
      → size q ≤ q.ceiling
      → q.ceiling < size q + length bytes
      → (push c bytes q).overflow ≡ clean
  unfolding push size
  push_clean bytes q z e m b o = ground arith

  -- Once a flush has sent more than 64 KiB of the queue but not all of it, an overflow is recorded
  -- as `clean`, though bytes of the dropped buffer are on the wire.
  pub push-flush_clean :
      (n : ℕ) (bytes : Bytes) (q : OutQueue)
      → IsValid q
      → q.overflow ≡ none
      → compact_threshold < n
      → n < size q
      → q.ceiling < size q - n + length bytes
      → let f = flush c (wrote n ∷ would_block ∷ []) q in
        (f.wire ≡ take n (unsent q))
        × (unsent f.queue ≢ [])
        × ((push c bytes f.queue).overflow ≡ clean)
  push-flush_clean n bytes q v e l m o =
      let (w, z, b, k, s) = flush_shifts n q v l m in
      let w' = v.within in
      (
        w,
        (λ nil. absurd (left z b (ap length nil))),
        push_clean bytes _ z (k ∙ e) (rw s v.machine)
            (let h = v.bounded in omega (arith, left' z b, s)) (omega (arith, left' z b, s)),
      )
    where
      f : OutQueue
      f = (flush c (wrote n ∷ would_block ∷ []) q).queue

      left' : f.off ≡ 0 → f.buf ≡ drop (q.off + n) q.buf → size f ≡ size q - n
      left' z b = unfold size in omega (arith, ap length b, length-drop (q.off + n) q.buf)

      left : f.off ≡ 0 → f.buf ≡ drop (q.off + n) q.buf → length (unsent f) ≡ 0 → ⊥
      left z b h = omega (arith, left' z b, length-unsent f)
