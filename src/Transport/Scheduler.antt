-- ===== src/Transport/Scheduler.antt =====
-- src/transport/transport_scheduler.cpp: packets that wait for a transport. The texts of the
-- messages are left out.
pub mod InOrder
use keydrop.Base.{ℕ, ◌+◌, ◌==◌, not, leb, Bool, true, false, ◌&&◌, List, [], ◌∷◌, ◌++◌, length}
use keydrop.Base.{if◌then◌else◌}

pub data SchedulerStatusCode : Type 0 where
  ok empty send_failed : SchedulerStatusCode

pub record SchedulerResult : Type 0 where
  pub code : SchedulerStatusCode
  pub packets_sent : ℕ
  pub packets_failed : ℕ
  pub bytes_sent : ℕ

pub record TransportScheduler : Type 0 where
  pub queue_ : List (List ℕ)
  pub max_pending_ : ℕ

unfoldable pub set_max_pending : TransportScheduler → ℕ → TransportScheduler
set_max_pending s max_pending = record s { max_pending_ = max_pending }

unfoldable pub pending : TransportScheduler → ℕ
pending s = length s.queue_

unfoldable pub enqueue : TransportScheduler → List ℕ → Bool × TransportScheduler
enqueue s packet =
    if not (s.max_pending_ == 0) && leb s.max_pending_ (length s.queue_)
    then (false, s)
    else (true, record s { queue_ = s.queue_ ++ (packet ∷ []) })

-- `clear`
unfoldable pub clear_queue : TransportScheduler → TransportScheduler
clear_queue s = record s { queue_ = [] }

-- A transport has a state of its own; its `send` gives whether it was ok, and
-- `bytes_transferred`.
module _ {T : Type 0} (transport_send : T → List ℕ → (Bool × ℕ) × T) where
  -- The loop over the queue, with what was sent so far.
  unfoldable pub flush_queue :
      List (List ℕ) → T → SchedulerResult → SchedulerResult × List (List ℕ) × T
  flush_queue [] t result = (result, [], t)
  flush_queue (packet ∷ rest) t result =
      let ((sent, bytes_transferred), t') = transport_send t packet in
      let more = flush_queue rest t' (record result {
        packets_sent = result.packets_sent + 1;
        bytes_sent = result.bytes_sent + bytes_transferred;
      }) in
      if not sent
      then (
        record result {
          code = SchedulerStatusCode.send_failed;
          packets_failed = length (packet ∷ rest);
        },
        packet ∷ rest,
        t',
      )
      else more

  abbrev pub blank_result : SchedulerStatusCode → SchedulerResult
  blank_result code = record { code = code; packets_sent = 0; packets_failed = 0; bytes_sent = 0 }

  unfoldable pub flush : TransportScheduler → T → SchedulerResult × TransportScheduler × T
  unfolding flush_queue
  flush s t =
      let (result, queue, t') = flush_queue s.queue_ t (blank_result SchedulerStatusCode.ok) in
      if length s.queue_ == 0
      then (blank_result SchedulerStatusCode.empty, s, t)
      else (result, record s { queue_ = queue }, t')
