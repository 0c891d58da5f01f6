-- ===== src/Common/OutQueue.antt =====
-- src/common/outqueue.hpp and outqueue.cpp: the bytes that wait for a client's socket. What `send`
-- returns is the environment's: `flush` takes the list of its results. A string's capacity is the
-- standard library's, and `grow` and `fresh` say what it becomes. A `size_t` has 64 bits.
pub mod Safety
pub mod Fifo
use sshos.Base.{
  ℕ, suc, ◌+◌, ◌-◌, ◌*◌, ◌%◌, ◌^◌, Bool, true, false, not, List, [], ◌∷◌, ◌++◌, Option, some, Bytes,
  length, take, drop, ltb, leb, ◌==◌, if◌then◌else◌,
}
use sshos.Base

-- Declared in the order of severity.
pub data Overflow : Type 0 where
  none clean dirty : Overflow

pub record OutQueue : Type 0 where
  pub buf : Bytes
  pub off : ℕ
  pub ceiling : ℕ
  pub overflow : Overflow
  pub capacity : ℕ

-- What one call of `send` returns: a count of bytes (0 is possible), or an error by its `errno`.
pub data Sent : Type 0 where
  wrote : ℕ → Sent
  would_block : Sent
  interrupted : Sent
  failed : Sent

-- How a string's capacity changes: as it grows, and in a fresh string.
pub record Capacity : Type 0 where
  pub grow : ℕ → ℕ → ℕ
  pub fresh : ℕ

abbrev pub size_mod : ℕ
size_mod = 2 ^ 64

abbrev pub release_threshold : ℕ
release_threshold = 8 * 1024 * 1024

abbrev pub compact_threshold : ℕ
compact_threshold = 65536

-- The underlying value of the enumeration.
abbrev pub severity : Overflow → ℕ
severity none = 0
severity clean = 1
severity dirty = 2

abbrev pub new_queue : Capacity → ℕ → OutQueue
new_queue c ceiling = record {
  buf = [];
  off = 0;
  ceiling = ceiling;
  overflow = none;
  capacity = c.fresh;
}

unfoldable pub size : OutQueue → ℕ
size q = length q.buf - q.off

unfoldable pub wants_write : OutQueue → Bool
wants_write q = ltb q.off (length q.buf)

abbrev pub unsent : OutQueue → Bytes
unsent q = drop q.off q.buf

-- How a call of `flush` stands: what it returned, or `none` while its loop waits for a `send`.
pub record Flushed : Type 0 where
  pub result : Option Bool
  pub wire : Bytes
  pub queue : OutQueue

-- `if (this_rejection > overflow_) overflow_ = this_rejection;`
unfoldable pub merge : Overflow → Overflow → Overflow
merge this_rejection overflow =
    if ltb (severity overflow) (severity this_rejection) then this_rejection else overflow

unfoldable pub take_overflow : OutQueue → Overflow × OutQueue
take_overflow q = (q.overflow, record q { overflow = none })

module _ (c : Capacity) where
  unfoldable pub release_buffer : OutQueue → OutQueue
  release_buffer q =
      if leb release_threshold q.capacity
      then record q { buf = []; off = 0; capacity = c.fresh }
      else record q { buf = []; off = 0 }

  unfoldable pub append : Bytes → OutQueue → OutQueue
  append bytes q = record q {
    buf = q.buf ++ bytes;
    capacity =
        if leb (length (q.buf ++ bytes)) q.capacity
        then q.capacity
        else c.grow q.capacity (length (q.buf ++ bytes));
  }

  unfoldable pub push : Bytes → OutQueue → OutQueue
  unfolding size merge release_buffer append
  push bytes q =
      if ltb ((q.ceiling + size_mod - size q) % size_mod) (length bytes)
      then release_buffer
          (record q { overflow = merge (if ltb 0 q.off then dirty else clean) q.overflow })
      else append bytes q

  unfoldable pub compact : OutQueue → OutQueue
  unfolding release_buffer
  compact q =
      if q.off == 0
      then q
      else if q.off == length q.buf
      then release_buffer q
      else if ltb compact_threshold q.off
      then record q { buf = drop q.off q.buf; off = 0 }
      else q

  -- `flush` once the loop has ended, with what went out.
  abbrev pub finish : OutQueue → Flushed
  finish q = record { result = some true; wire = []; queue = compact q }

  abbrev pub give_up : OutQueue → Flushed
  give_up q = record { result = some false; wire = []; queue = q }

  -- `flush` from a state, on the results of the calls of `send` still to come.
  unfoldable pub flush : List Sent → OutQueue → Flushed
  unfolding wants_write compact
  flush [] q =
      if wants_write q then record { result = Base.none; wire = []; queue = q } else finish q
  flush (wrote n ∷ sends) q =
      let rest = flush sends (record q { off = q.off + n }) in
      if not (wants_write q)
      then finish q
      else if n == 0
      then give_up q
      else record rest { wire = take n (unsent q) ++ rest.wire }
  flush (would_block ∷ sends) q = finish q
  flush (interrupted ∷ sends) q =
      let rest = flush sends q in if wants_write q then rest else finish q
  flush (failed ∷ sends) q = if wants_write q then give_up q else finish q
