-- ===== src/FifoSequencer.antt =====
-- include/communication/fifo_sequencer.h: requests collected with their times of receipt, and
-- published in the order of those times.
pub mod Publish
use cpp_exchange.Prelude.{ℕ, zero, suc, ◌+◌, Bool, List, [], ◌∷◌, update, ltb, ◌==◌, if◌then◌else◌}
use cpp_exchange.Outcome.{Outcome, ok, fatal}
use cpp_exchange.LfQueue
use cpp_exchange.LfQueue.{LfQueue}
use cpp_exchange.Messages.{ClientRequest}

abbrev pub max_pending_requests : ℕ
max_pending_requests = 1024

pub record ReceiveTimeClientRequest : Type 0 where
  pub receive_timestamp : ℕ
  pub request : ClientRequest

-- `operator<`
unfoldable pub earlier : ReceiveTimeClientRequest → ReceiveTimeClientRequest → Bool
earlier a b = ltb a.receive_timestamp b.receive_timestamp

-- `pending_requests` is an array of `max_pending_requests` entries, of which those below the index
-- are in use; `requests` is the queue that the pointer leads to.
pub record FifoSequencer : Type 0 where
  pub requests : LfQueue ClientRequest
  pub pending_requests : ℕ → ReceiveTimeClientRequest
  pub pending_requests_index : ℕ

-- The index is never above the size of the array, so that `at` does not throw.
unfoldable pub add_request : FifoSequencer → ClientRequest → ℕ → Outcome FifoSequencer
add_request s request timestamp =
    if s.pending_requests_index == max_pending_requests
    then fatal
    else let entry : ReceiveTimeClientRequest = record {
      receive_timestamp = timestamp;
      request = request;
    } in
      ok (record s {
        pending_requests = update s.pending_requests s.pending_requests_index entry;
        pending_requests_index = s.pending_requests_index + 1;
      })

-- The `n` entries of an array from `i` on, and the array after a list is written from `i` on.
abbrev pub entries : (ℕ → ReceiveTimeClientRequest) → (i n : ℕ) → List ReceiveTimeClientRequest
entries f i zero = []
entries f i (suc n) = f i ∷ entries f (i + 1) n

abbrev pub write_entries :
    (ℕ → ReceiveTimeClientRequest)
    → ℕ
    → List ReceiveTimeClientRequest
    → ℕ
    → ReceiveTimeClientRequest
write_entries f i [] = f
write_entries f i (x ∷ xs) = write_entries (update f i x) (i + 1) xs

-- The loop that publishes: `n` entries are left, from `i` on.
unfoldable pub publish_from :
    LfQueue ClientRequest → (ℕ → ReceiveTimeClientRequest) → (i n : ℕ) → LfQueue ClientRequest
publish_from q f i zero = q
publish_from q f i (suc n) = publish_from (LfQueue.push q (f i).request) f (i + 1) n

-- `sort less` is std::sort, on the entries in use, with the comparison that it uses: `operator<`.
unfoldable pub sequence_and_publish :
    (sort : (less : ReceiveTimeClientRequest → ReceiveTimeClientRequest → Bool)
      → List ReceiveTimeClientRequest
      → List ReceiveTimeClientRequest)
    → FifoSequencer
    → FifoSequencer
unfolding publish_from
sequence_and_publish sort s =
    let sorted =
      write_entries s.pending_requests 0
        (sort earlier (entries s.pending_requests 0 s.pending_requests_index)) in
    record {
      requests = publish_from s.requests sorted 0 s.pending_requests_index;
      pending_requests = sorted;
      pending_requests_index = 0;
    }
