-- ===== src/Admission/Accept/Tests.antt =====
-- A client that is let in, and one that waits.
use loadbalancer.Base.{◌≡◌, refl, true, false, none, some, [], ◌∷◌, Text, bytes}
use loadbalancer.Net.Connection.{new_connection}
use loadbalancer.World.Gauges.{new_metrics}
use loadbalancer.Admission.Config.{Config}
use loadbalancer.Admission.Addresses.{is_ip_allowed, passes_lists, listed}
use loadbalancer.Admission.RateLimit.{check_rate_limit, is_exempt}
use loadbalancer.Admission.Accept.{
  QueuedClient, Door, let_in, turned_away, error_response, answer, has_queue_room, over_budget,
  accept_from, accept_checked, accept_counted, let_client_in, enqueue, attach_memory_accounting,
  handle_accept,
}
use loadbalancer.Admission.Accept.Gates.{Passed, handle_accept-Passed}

abbrev config : Config
config = record {
  http_mode = true;
  ip_blacklist = bytes "::2" ∷ [];
  ip_whitelist = [];
  rate_limit_enabled = false;
  rate_limit_max_connections = 0;
  rate_limit_window_seconds = 0;
  queue_enabled = true;
  queue_max_size = 1;
}

abbrev door : Door
door = record { tracker = []; pending_clients = []; metrics = new_metrics }

abbrev caller : Text
caller = bytes "::1"

abbrev waiter : QueuedClient
waiter = record { fd = 7; client_ip = caller; enqueue_time = 30 }

let_in_run : (handle_accept 40 0 7 caller (some config) none 2 door).1 ≡ let_in (new_connection 7)
unfolding handle_accept accept_from accept_checked accept_counted over_budget let_client_in
    attach_memory_accounting is_ip_allowed passes_lists listed check_rate_limit is_exempt
let_in_run = refl

queued_run : (handle_accept 30 2 7 caller (some config) none 2 door).0.pending_clients ≡ waiter ∷ []
unfolding handle_accept accept_from accept_checked accept_counted over_budget has_queue_room enqueue
    is_ip_allowed passes_lists listed check_rate_limit is_exempt
queued_run = refl

barred_run :
    (handle_accept 30 0 7 (bytes "::2") (some config) none 2 door).1
    ≡ turned_away (error_response 403)
unfolding handle_accept accept_from is_ip_allowed passes_lists listed answer
barred_run = refl

handle_accept-Passed_example :
    Passed 2
      (some config)
      none
      2
      (is_ip_allowed caller (some config))
      (check_rate_limit 30 caller (some config) []).1
      []
      (handle_accept 30 2 7 caller (some config) none 2 door)
handle_accept-Passed_example = handle_accept-Passed 30 2 7 caller (some config) none 2 door
