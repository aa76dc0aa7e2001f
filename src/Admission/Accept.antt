-- ===== src/Admission/Accept.antt =====
-- The gates that `handle_accept` of src/core/load_balancer.cpp puts before a client, and the time limit
-- that `try_dequeue_clients` puts on those that wait. `active` is what the connection manager counts.
pub mod Addresses
pub mod Gates
mod Tests
use loadbalancer.Base.{
  ℕ, ◌+◌, ◌-◌, Bool, true, false, not, ◌&&◌, Option, none, some, List, [], ◌∷◌, ◌++◌, length,
  keep_if, is_empty, ltb, leb, Text, bytes, if◌then◌else◌,
}
use loadbalancer.Memory.{MemoryBudget, is_exceeded}
use loadbalancer.Net.Connection.{Connection, new_connection, set_memory_accounting}
use loadbalancer.World.Gauges.{
  Metrics, increment_connections_total, increment_overload_drops, increment_rate_limit_drops,
  increment_memory_budget_drops, increment_queue_drops,
}
use loadbalancer.Admission.Config.{Config}
use loadbalancer.Admission.Addresses.{is_ip_allowed}
use loadbalancer.Admission.RateLimit.{Tracker, check_rate_limit}

pub record QueuedClient : Type 0 where
  pub fd : ℕ
  pub client_ip : Text
  pub enqueue_time : ℕ

pub record Door : Type 0 where
  pub tracker : Tracker
  pub pending_clients : List QueuedClient
  pub metrics : Metrics

-- How a client is turned away: with the status of an HTTP answer, or by `::close` alone.
pub data Answer : Type 0 where
  error_response : ℕ → Answer
  plain_close : Answer

pub data Outcome : Type 0 where
  turned_away : Answer → Outcome
  queued : Outcome
  let_in : Connection → Outcome

unfoldable pub answer : Option Config → ℕ → Answer
answer none status = plain_close
answer (some config) status = if config.http_mode then error_response status else plain_close

unfoldable pub has_queue_room : Option Config → List QueuedClient → Bool
has_queue_room none pending = false
has_queue_room (some config) pending =
    config.queue_enabled && ltb (length pending) config.queue_max_size

unfoldable pub over_budget : Option MemoryBudget → Bool
over_budget none = false
over_budget (some b) = is_exceeded b

unfoldable pub attach_memory_accounting : Option MemoryBudget → Connection → Connection
attach_memory_accounting none c = c
attach_memory_accounting (some b) c = set_memory_accounting c

unfoldable pub enqueue : QueuedClient → Door → Door × Outcome
enqueue qc d = (record d { pending_clients = d.pending_clients ++ qc ∷ [] }, queued)

unfoldable pub let_client_in : ℕ → Option MemoryBudget → Door → Door × Outcome
let_client_in fd budget d = (
  record d { metrics = increment_connections_total d.metrics },
  let_in (attach_memory_accounting budget (new_connection fd)),
)

-- What follows the rate limit.
unfoldable pub accept_counted :
    ℕ → QueuedClient → Option Config → Option MemoryBudget → ℕ → Door → Door × Outcome
accept_counted active qc config budget max_global d =
    if over_budget budget
    then (if has_queue_room config d.pending_clients then enqueue qc d else (
      record d { metrics = increment_memory_budget_drops d.metrics },
      turned_away (answer config 503),
    ))
    else (if leb max_global active
        then (if has_queue_room config d.pending_clients then enqueue qc d else (
          record d { metrics = increment_overload_drops d.metrics },
          turned_away (answer config 503),
        ))
        else let_client_in qc.fd budget d)

unfoldable pub accept_checked :
    ℕ
    → QueuedClient
    → Option Config
    → Option MemoryBudget
    → ℕ
    → Tracker × Bool
    → Door
    → Door × Outcome
accept_checked active qc config budget max_global (tracker, ok) d =
    if not ok
    then (
      record d { tracker = tracker; metrics = increment_rate_limit_drops d.metrics },
      turned_away (answer config 429),
    )
    else accept_counted active qc config budget max_global (record d { tracker = tracker })

-- The tracker is looked at only for an address that is allowed.
unfoldable pub accept_from :
    Bool
    → ℕ
    → QueuedClient
    → Option Config
    → Option MemoryBudget
    → ℕ
    → Tracker × Bool
    → Door
    → Door × Outcome
accept_from true active qc config budget max_global r d =
    accept_checked active qc config budget max_global r d
accept_from false active qc config budget max_global r d =
    (record d { metrics = increment_overload_drops d.metrics }, turned_away (answer config 403))

-- One whose address is not found is "unknown".
abbrev pub client_address : Text → Text
client_address ip = if is_empty ip then bytes "unknown" else ip

-- `now` is the clock when the client comes.
unfoldable pub handle_accept :
    ℕ → ℕ → ℕ → Text → Option Config → Option MemoryBudget → ℕ → Door → Door × Outcome
handle_accept now active fd found_ip config budget max_global d =
    let ip = client_address found_ip in
    let qc : QueuedClient = record { fd = fd; client_ip = ip; enqueue_time = now } in
    accept_from (is_ip_allowed ip config) active qc config budget max_global
      (check_rate_limit now ip config d.tracker) d

-- The loop of `try_dequeue_clients` over those that have waited for too long, in milliseconds: each
-- is turned away and counted.
unfoldable pub has_waited : ℕ → ℕ → QueuedClient → Bool
has_waited now max_wait qc = ltb 0 max_wait && leb (qc.enqueue_time + max_wait) now

unfoldable pub drop_waited :
    ℕ → ℕ → Option Config → List QueuedClient → Metrics → List QueuedClient × List Answer × Metrics
drop_waited now max_wait config [] m = ([], [], m)
drop_waited now max_wait config (qc ∷ pending) m =
    let late = has_waited now max_wait qc in
    let (left, answers, m') =
      drop_waited now max_wait config pending (if late then increment_queue_drops m else m) in
    if late then (left, answer config 503 ∷ answers, m') else (qc ∷ left, answers, m')
