-- ===== src/Events/Stalled.antt =====
-- Events of a connection that has been under backpressure for too long (src/core/event_handlers.cpp).
use loadbalancer.Base.{◌⊎◌, inl, inr, ℕ, ◌≡◌, refl, true, false, none, some, ℕ_keys, find}
use loadbalancer.World.Gauges.{increment_backpressure_timeouts}
use loadbalancer.Net.Connection.{Connection, is_closed}
use loadbalancer.Manager.{PoolRelease, get_connection}
use loadbalancer.Manager.Closing.{close_connection_forgets}
use loadbalancer.Timeouts.{check_timeout}
use loadbalancer.Connector.State.{Balancer}
use loadbalancer.Events.State.{
  EventType, read, write, error, hup, Scene, undefined, Callbacks, Inputs, with_conn, use_found,
}
use loadbalancer.Events.Client.{handle_client_event, client_found, client_event}
use loadbalancer.Events.Backend.{handle_backend_event, backend_found}
use loadbalancer.Events.Wiring.{check_backpressure}

gone :
    (pool : PoolRelease) (now timeout fd : ℕ) (c : Connection) (b : Balancer)
    → find fd b.world.connections ≡ some c
    → check_timeout now timeout fd b.world.backpressure_times ≡ true
    → find fd (check_backpressure pool now timeout fd b).world.connections ≡ none
unfolding check_backpressure get_connection
gone pool now timeout fd c b h t =
    rw t
      (close_connection_forgets pool fd c
        (record (b.world) { metrics = increment_backpressure_timeouts b.world.metrics }) h).1

-- What an event then comes to, where the check of the backpressure is the one of the load balancer.
module _ (k : Callbacks) (i : Inputs) (pool : PoolRelease) (timeout fd : ℕ) (c : Connection)
    (x : Scene) where
  client_stalled :
      (type : EventType)
      → (type ≡ read) ⊎ (type ≡ write)
      → (k.check_backpressure ≡ check_backpressure pool i.now timeout)
      → find fd x.balancer.world.connections ≡ some c
      → is_closed c.state ≡ false
      → check_timeout i.now timeout fd x.balancer.world.backpressure_times ≡ true
      → handle_client_event k i fd type x ≡ undefined
  unfolding handle_client_event client_found client_event with_conn use_found
  client_stalled read e w h o t =
      rw h (rw o (rw w (rw (gone pool i.now timeout fd c x.balancer h t) refl)))
  client_stalled write e w h o t =
      rw h (rw o (rw w (rw (gone pool i.now timeout fd c x.balancer h t) refl)))
  client_stalled error (inl e) w h o t = cc
  client_stalled error (inr e) w h o t = cc
  client_stalled hup (inl e) w h o t = cc
  client_stalled hup (inr e) w h o t = cc

  backend_stalled :
      (type : EventType)
      → (k.check_backpressure ≡ check_backpressure pool i.now timeout)
      → find fd x.balancer.world.connections ≡ some c
      → is_closed c.state ≡ false
      → check_timeout i.now timeout fd x.balancer.world.backpressure_times ≡ true
      → handle_backend_event k i fd type x ≡ undefined
  unfolding handle_backend_event backend_found with_conn use_found
  backend_stalled type w h o t =
      rw h (rw o (rw w (rw (gone pool i.now timeout fd c x.balancer h t) refl)))

-- With the check of the backpressure that the load balancer sets, take an open connection whose time
-- under backpressure is over. Its next event for reading or writing, as a client, and its next event of
-- any kind, as a backend, closes the connection and then goes on with it, which has no defined
-- behaviour.
pub handle_event_stalled :
    (k : Callbacks) (i : Inputs) (pool : PoolRelease) (timeout fd : ℕ) (c : Connection) (x : Scene)
    (type any : EventType)
    → (type ≡ read) ⊎ (type ≡ write)
    → (k.check_backpressure ≡ check_backpressure pool i.now timeout)
    → find fd x.balancer.world.connections ≡ some c
    → is_closed c.state ≡ false
    → check_timeout i.now timeout fd x.balancer.world.backpressure_times ≡ true
    → (handle_client_event k i fd type x ≡ undefined)
      × (handle_backend_event k i fd any x ≡ undefined)
handle_event_stalled k i pool timeout fd c x type any e w h o t = (
  client_stalled k i pool timeout fd c x type e w h o t,
  backend_stalled k i pool timeout fd c x any w h o t,
)
