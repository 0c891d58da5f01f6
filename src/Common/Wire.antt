-- ===== src/Common/Wire.antt =====
-- From the daemon's queue to the client's decoder: the messages that were pushed arrive.
use sshos.Base.{
  ℕ, ◌*◌, ◌≤◌, ◌<◌, ◌≡◌, sym, ap, ◌∙◌, false, List, [], ◌++◌, arith, Bytes, All, length, append-nil,
}
use sshos.Common.Proto.{Msg}
use sshos.Common.Proto.Decoder.{Allocator, unread, receive_all, new_decoder}
use sshos.Common.Proto.Decoder.Step.{IsSendable}
use sshos.Common.Proto.Decoder.Stream.{encode_all, concat, receive_all-encode_all}
use sshos.Common.OutQueue.{OutQueue, none, Capacity, size, size_mod, unsent, new_queue}
use sshos.Common.OutQueue.Safety.{IsValid}
use sshos.Common.OutQueue.Fifo.{Op, run, AllObey, pushed, run-fifo}

pub new_queue-IsValid :
    (c : Capacity) (ceiling : ℕ) → ceiling < size_mod → IsValid (new_queue c ceiling)
unfolding size
new_queue-IsValid c ceiling h = record { within = omega arith; bounded = omega arith; machine = h }

-- Let the daemon push the encodings of messages that the protocol can carry to a fresh queue, in
-- whatever pieces, and flush it in between, where `send` keeps its contract; let no overflow be
-- recorded, and all be sent at the end. Then a client that reads what was sent in pieces of at most
-- 1 MiB is handed exactly these messages, has not failed, and has nothing left to read.
pub receive_all-run :
    (c : Capacity) (a : Allocator) (ceiling : ℕ) (ops : List Op) (ms : List Msg) (cs : List Bytes)
    → ceiling < size_mod
    → AllObey c ops (new_queue c ceiling)
    → pushed ops ≡ encode_all ms
    → (run c ops (new_queue c ceiling)).0.overflow ≡ none
    → unsent (run c ops (new_queue c ceiling)).0 ≡ []
    → All IsSendable ms
    → All (λ r. length r ≤ 1024 * 1024) cs
    → concat cs ≡ (run c ops (new_queue c ceiling)).1
    → ((receive_all a cs (new_decoder a)).0 ≡ ms)
      × ((receive_all a cs (new_decoder a)).1.failed ≡ false)
      × (unread (receive_all a cs (new_decoder a)).1 ≡ [])
receive_all-run c a ceiling ops ms cs h obey sent quiet empty sendable short reads =
    receive_all-encode_all a ms cs sendable short (reads ∙ wire)
  where
    q : OutQueue
    q = new_queue c ceiling

    wire : (run c ops q).1 ≡ encode_all ms
    wire =
        sym (append-nil (run c ops q).1)
        ∙ ap (◌++◌ (run c ops q).1) (sym empty)
        ∙ run-fifo c ops q (new_queue-IsValid c ceiling h) obey quiet
        ∙ sent
