-- ===== src/Examples/Clients.antt =====
-- The theorem on receivers at a concrete channel, and runs of the operations of a handle.
use anybus.Common.{◌≡◌, refl, true, false, List, [], ◌∷◌, none, some}
use anybus.Routing.{Packet, endpoint, bytes, unicast, global}
use anybus.LinkState.{ClientMessage}
use anybus.LinkState.Forward
use anybus.LinkState.RouteTable.{err}
use anybus.Router.{register_endpoint, dead_link}
use anybus.Handle.{
  Handle, registration_failed, connection_closed, subscription_failed, register_unicast_uuid,
  rpc_helper,
}
use anybus.Handle.Receiver.{recv, try_recv, poll_next, past_answers, as_poll, pending, recv_lem}

abbrev greeting : Packet
greeting = record { to = endpoint 4; reply_to = none; from = 2; payload = bytes (1 ∷ []) }

abbrev channel : List ClientMessage
channel =
    ClientMessage.successful_registration 4
    ∷ ClientMessage.message greeting
    ∷ ClientMessage.shutdown
    ∷ []

recv_lem_example :
    (recv false channel ≡ try_recv false (past_answers channel))
    × (poll_next false (past_answers channel)
        ≡ (as_poll (recv false channel).0, (recv false channel).1))
recv_lem_example = recv_lem false channel

-- The packet is there, but the stream says that it must wait.
poll_next_early :
    poll_next false channel
    ≡ (pending, ClientMessage.message greeting ∷ ClientMessage.shutdown ∷ [])
unfolding poll_next
poll_next_early = refl

abbrev handle : Handle
handle = record { fib = Forward.new 1; is_open = true; queued = [] }

abbrev left_handle : Handle
left_handle = record handle { is_open = false }

register_unicast_uuid_packet :
    register_unicast_uuid 4 9 (some (ClientMessage.message greeting)) handle ≡ (
      record handle {
        queued =
            register_endpoint (record {
              endpoint_id = 4;
              endpoint_info = record { kind = unicast; realm = global; cost = 0 };
              sender = 9;
            })
            ∷ dead_link 4
            ∷ [];
      },
      err registration_failed,
    )
unfolding register_unicast_uuid
register_unicast_uuid_packet = refl

register_unicast_uuid_left :
    register_unicast_uuid 4 9 none left_handle ≡ (left_handle, err connection_closed)
unfolding register_unicast_uuid
register_unicast_uuid_left = refl

rpc_helper_other :
    (rpc_helper 6 9 (some (ClientMessage.successful_registration 7)) handle).1
    ≡ err subscription_failed
unfolding rpc_helper
rpc_helper_other = refl
