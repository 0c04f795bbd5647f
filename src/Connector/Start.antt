-- ===== src/Connector/Start.antt =====
-- The socket that the data plane connects to: atlas_data_plane_connector_start of
-- src/data_plane_connector/atlas_data_plane_connector.c.
use atlas_client.Prelude.{ℤ, some, minus_one, ◌==ℤ◌, if◌then◌else◌}
use atlas_client.Status.{Status, ok, socket_error}
use atlas_client.Callbacks.{data_plane_accept}
use atlas_client.Environment.{
  socket_unlinked, socket_created, socket_bound, socket_listened, Environment,
}
use atlas_client.Scheduler.{add_entry}
use atlas_client.World.{World, recorded, set_timers}

module _ (env : Environment) where
  -- With the socket, when it listens.
  unfoldable pub listen_on : ℤ → World → Status × World
  listen_on fd w =
      let w' = recorded socket_listened w in
      let t = w'.client.timers in
      if env.listen w.client.timers.history ==ℤ minus_one
      then (socket_error, w')
      else (ok, set_timers (record t { sched = add_entry fd (some data_plane_accept) t.sched }) w')

  unfoldable pub bind_socket : ℤ → World → Status × World
  bind_socket fd w =
      let w' = recorded socket_bound w in
      if env.bind w.client.timers.history ==ℤ minus_one then (socket_error, w') else listen_on fd w'

  -- With what `socket` returned.
  unfoldable pub open_socket : ℤ → World → Status × World
  open_socket fd w = if fd ==ℤ minus_one then (socket_error, w) else bind_socket fd w

  unfoldable pub connector_start : World → Status × World
  connector_start w =
      let unlinked = recorded socket_unlinked w in
      open_socket (env.socket unlinked.client.timers.history) (recorded socket_created unlinked)
