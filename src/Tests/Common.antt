-- ===== src/Tests/Common.antt =====
-- The codec, the decoder and the output queue, run.
use sshos.Base.{
  ℕ, ◌+◌, ◌*◌, ◌≤◌, ◌<◌, ◌≡◌, ◌≢◌, refl, IsByte, ◌-◌, inl, false, List, [], ◌∷◌, ◌++◌, arith, Bytes,
  All, length, take, drop, replicate, length-replicate, max,
}
use sshos.Common.Utf8.{multibyte, continuations, validate, utf8_decode, encode_utf8}
use sshos.Common.Utf8.RoundTrip.{
  Reads, IsCanonical, utf8_decode-encode_utf8, utf8_decode-IsCanonical,
}
use sshos.Common.Proto.{Msg, input, resize, encode, body_of, put_u8, put_u16, put_u32, put_str}
use sshos.Common.Proto.Decoder.{Allocator, Decoder, new_decoder, unread, next, receive_all}
use sshos.Common.Proto.Decoder.Step.{IsOpen, IsSendable}
use sshos.Common.Proto.Decoder.Safety.{IsSound, Runs, next-Runs}
use sshos.Common.Proto.Decoder.Stream
use sshos.Common.Proto.Decoder.Stream.{concat, receive_all-encode_all}
use sshos.Common.OutQueue as Queue
use sshos.Common.OutQueue.{
  OutQueue, Overflow, clean, dirty, Sent, wrote, would_block, interrupted, Capacity, new_queue,
  size, unsent, wants_write, compact, append, severity, push, flush, compact_threshold,
  release_buffer,
}
use sshos.Common.OutQueue.Safety.{IsValid, Obeys}
use sshos.Common.Wire.{receive_all-run}
use sshos.Common.OutQueue.Fifo.{
  Op, pushes, flushes, run, AllObey, pushed, run-fifo, push-flush_clean,
}

-- A text in UTF-8: `a`, `é`, and an ideogram.
abbrev text : Bytes
text = 0x61 ∷ 0xC3 ∷ 0xA9 ∷ 0xE6 ∷ 0x97 ∷ 0xA5 ∷ []

text-Reads : Reads text 1 (encode_utf8 0xE9)
unfolding encode_utf8
text-Reads = (omega arith, refl, (omega arith, refl, omega arith))

utf8_decode-encode_utf8_example : utf8_decode text 1 ≡ (length (encode_utf8 0xE9), 0xE9)
utf8_decode-encode_utf8_example =
    utf8_decode-encode_utf8 text 1 0xE9 (inl (omega arith), omega arith) text-Reads

text-decoded : utf8_decode text 3 ≡ (3, 0x65E5)
unfolding utf8_decode multibyte continuations validate
text-decoded = refl

text-All : All IsByte text
text-All =
    (omega arith, (omega arith, (omega arith, (omega arith, (omega arith, (omega arith, tt))))))

utf8_decode-IsCanonical_example : IsCanonical text 3 0x65E5 3
utf8_decode-IsCanonical_example =
    utf8_decode-IsCanonical text 3 0x65E5 3 text-All (omega arith) (omega arith) text-decoded

-- Strings that double, and a short one.
abbrev alloc : Allocator
alloc = record { grow = λ old needed. max (old * 2) needed; shrink = λ old. 15; fresh = 15 }

abbrev messages : List Msg
messages = input (0x68 ∷ 0x69 ∷ []) ∷ resize 80 24 ∷ []

abbrev chunks : List Bytes
chunks = take 7 (Stream.encode_all messages) ∷ drop 7 (Stream.encode_all messages) ∷ []

messages-IsSendable : All IsSendable messages
unfolding body_of put_str put_u16 put_u32
messages-IsSendable = (
  record { typed = tt; fits = omega arith },
  (record { typed = (omega arith, omega arith); fits = omega arith }, tt),
)

chunks-short : All (λ c. length c ≤ 1024 * 1024) chunks
unfolding encode body_of put_u8 put_str put_u16 put_u32
chunks-short = (omega arith, (omega arith, tt))

chunks-whole : concat chunks ≡ Stream.encode_all messages
unfolding encode body_of put_u8 put_str put_u16 put_u32
chunks-whole = refl

receive_all-encode_all_example :
    ((receive_all alloc chunks (new_decoder alloc)).0 ≡ messages)
    × ((receive_all alloc chunks (new_decoder alloc)).1.failed ≡ false)
    × (unread (receive_all alloc chunks (new_decoder alloc)).1 ≡ [])
receive_all-encode_all_example =
    receive_all-encode_all alloc messages chunks messages-IsSendable chunks-short chunks-whole

-- A decoder with an unknown tag, and a message that is cut short, in its buffer.
abbrev backlog : Decoder
backlog = record { buf = 0x63 ∷ 0 ∷ 0 ∷ 0 ∷ 0 ∷ 5 ∷ 2 ∷ []; pos = 0; failed = false; capacity = 15 }

backlog-IsOpen : IsOpen backlog
backlog-IsOpen = record { live = refl; within = omega arith }

next-Runs_example : Runs alloc backlog (next alloc backlog) × IsSound (next alloc backlog).1
next-Runs_example = next-Runs alloc backlog backlog-IsOpen (omega arith)

-- A queue with one byte of five sent, and a ceiling of eight.
abbrev capacity : Capacity
capacity = record { grow = λ old needed. max (old * 2) needed; fresh = 15 }

abbrev queue : OutQueue
queue = record {
  buf = 1 ∷ 2 ∷ 3 ∷ 4 ∷ 5 ∷ [];
  off = 1;
  ceiling = 8;
  overflow = Queue.none;
  capacity = 15;
}

queue-IsValid : IsValid queue
unfolding size
queue-IsValid = record { within = omega arith; bounded = omega arith; machine = omega arith }

abbrev sends : List Sent
sends = wrote 3 ∷ interrupted ∷ would_block ∷ []

sends-Obeys : Obeys sends (size queue)
unfolding size
sends-Obeys = (omega arith, tt)

abbrev ops : List Op
ops = flushes sends ∷ pushes (6 ∷ []) ∷ []

ops-AllObey : AllObey capacity ops queue
ops-AllObey = (sends-Obeys, tt)

ops-overflow : (run capacity ops queue).0.overflow ≡ Queue.none
unfolding flush push size wants_write compact append
ops-overflow = refl

run-fifo_example :
    (run capacity ops queue).1 ++ unsent (run capacity ops queue).0 ≡ unsent queue ++ pushed ops
run-fifo_example = run-fifo capacity ops queue queue-IsValid ops-AllObey ops-overflow

-- A frame of 65538 bytes that is all sent but for one.
abbrev long : OutQueue
long = record {
  buf = replicate 65538 0;
  off = 0;
  ceiling = 65538;
  overflow = Queue.none;
  capacity = 65538;
}

long-size : size long ≡ 65538
unfolding size
long-size = omega (arith, length-replicate {A = ℕ} 65538 0)

long-IsValid : IsValid long
long-IsValid = record {
  within = omega arith;
  bounded = omega (arith, long-size);
  machine = omega arith;
}

abbrev more : Bytes
more = replicate 65538 1

more-beyond : 65538 < size long - 65537 + length more
more-beyond = omega (arith, long-size, length-replicate {A = ℕ} 65538 1)

push-flush_clean_example :
    let f = flush capacity (wrote 65537 ∷ would_block ∷ []) long in
    (f.wire ≡ take 65537 (unsent long))
    × (unsent f.queue ≢ [])
    × ((push capacity more f.queue).overflow ≡ clean)
push-flush_clean_example =
    push-flush_clean capacity 65537 more long long-IsValid refl (omega arith)
      (omega (arith, long-size)) more-beyond

-- Two messages that the daemon sends in three parts: each is pushed, then flushed in part.
abbrev session : List Op
session =
    pushes (encode (input (0x68 ∷ 0x69 ∷ [])))
    ∷ flushes (wrote 7 ∷ would_block ∷ [])
    ∷ pushes (encode (resize 80 24))
    ∷ flushes (wrote 9 ∷ interrupted ∷ wrote 4 ∷ [])
    ∷ []

session-AllObey : AllObey capacity session (new_queue capacity 1000)
unfolding encode body_of put_u8 put_str put_u16 put_u32 size flush push wants_write compact append
    release_buffer
session-AllObey = ((omega arith, tt), ((omega arith, (omega arith, tt)), tt))

session-pushed : pushed session ≡ Stream.encode_all messages
session-pushed = refl

session-overflow : (run capacity session (new_queue capacity 1000)).0.overflow ≡ Queue.none
unfolding encode body_of put_u8 put_str put_u16 put_u32 size flush push wants_write compact append
    release_buffer
session-overflow = refl

session-unsent : unsent (run capacity session (new_queue capacity 1000)).0 ≡ []
unfolding encode body_of put_u8 put_str put_u16 put_u32 size flush push wants_write compact append
    release_buffer
session-unsent = refl

session-wire : concat chunks ≡ (run capacity session (new_queue capacity 1000)).1
unfolding encode body_of put_u8 put_str put_u16 put_u32 size flush push wants_write compact append
    release_buffer
session-wire = refl

receive_all-run_example :
    ((receive_all alloc chunks (new_decoder alloc)).0 ≡ messages)
    × ((receive_all alloc chunks (new_decoder alloc)).1.failed ≡ false)
    × (unread (receive_all alloc chunks (new_decoder alloc)).1 ≡ [])
receive_all-run_example =
    receive_all-run capacity alloc 1000 session messages chunks (omega arith) session-AllObey
      session-pushed session-overflow session-unsent messages-IsSendable chunks-short session-wire
