-- ===== src/Handle.antt =====
-- src/handle.rs and src/receivers: what a client asks of the bus. A handle has the router's queue and
-- the forwarding table; it announces an endpoint and waits for the answer, and sends packets through
-- the table. The channel that an operation makes, and what it then receives on it, are arguments:
-- `none` is a channel whose senders are gone. The reasons of errors, which are texts, are left out.
use anybus.Common.{
  ℕ, Bool, true, false, List, [], Option, none, some, ◌==◌, if◌then◌else◌, nat_eq, push,
}
use anybus.Routing.{
  NodeId, EndpointId, Realm, process, global, RouteKind, unicast, anycast, broadcast, Cost, Address,
  endpoint, remote, Rider, Payload, bus_rider, bytes, Packet,
}
use anybus.LinkState.{Sender, ClientMessage, SetAnycastCostError}
use anybus.LinkState.RouteTable.{Result, ok, err}
use anybus.LinkState.Wire.{Wire}
use anybus.LinkState.Forward.{ForwardingTable}
use anybus.LinkState.Forward.Send.{SendError, Sent}
use anybus.LinkState.Forward.Send
use anybus.Router.{RouterMsg, register_endpoint, dead_link, set_anycast_cost}
pub mod Receiver

-- What an operation that gives no value answers.
abbrev pub Outcome : Type 0 → Type 0
Outcome E = Result {0, 0} E Unit

pub data ReceiveError : Type 0 where
  connection_closed registration_failed shutdown rpc_no_reply_to : ReceiveError
  deserialization_error : Payload → ReceiveError

pub data HandleError : Type 0 where
  no_route subscription_failed shutdown not_anycast listener_not_registered : HandleError
  send_error : SendError → HandleError
  receive_error : ReceiveError → HandleError

-- `is_open` tells whether the router takes messages; `queued` is what it was sent, in the order of
-- the calls, which the tasks that `send_broker` spawns need not keep.
pub record Handle : Type 0 where
  pub fib : ForwardingTable
  pub is_open : Bool
  pub queued : List RouterMsg

-- `send_broker`: the task that it spawns drops the message when the router is gone.
unfoldable pub send_broker : RouterMsg → Handle → Handle
send_broker msg h = if h.is_open then record h { queued = push h.queued msg } else h

unfoldable pub unregister_endpoint : EndpointId → Handle → Handle
unfolding send_broker
unregister_endpoint endpoint_id h = send_broker (dead_link endpoint_id) h

unfoldable pub wait_for_registration :
    EndpointId → Option ClientMessage → Handle → Handle × Outcome ReceiveError
unfolding send_broker
wait_for_registration endpoint_id none h = (h, err ReceiveError.shutdown)
wait_for_registration endpoint_id (some (ClientMessage.message packet)) h =
    (send_broker (dead_link endpoint_id) h, err registration_failed)
wait_for_registration endpoint_id (some (ClientMessage.failed_registration id)) h =
    (h, err registration_failed)
wait_for_registration endpoint_id (some ClientMessage.shutdown) h = (h, err ReceiveError.shutdown)
wait_for_registration endpoint_id (some (ClientMessage.successful_registration id)) h = (h, ok tt)

-- `tx.send(msg).await?`, then the answer on the channel whose sending end is `sender`.
unfoldable pub register :
    RouteKind
    → Realm
    → Cost
    → EndpointId
    → Sender
    → Option ClientMessage
    → Handle
    → Handle × Outcome ReceiveError
unfolding wait_for_registration
register kind realm cost endpoint_id sender answer h =
    if h.is_open
    then wait_for_registration endpoint_id answer (record h {
      queued = push h.queued (
          register_endpoint (record {
            endpoint_id = endpoint_id;
            endpoint_info = record { kind = kind; realm = realm; cost = cost };
            sender = sender;
          }));
    })
    else (h, err connection_closed)

-- The registrations of each kind on a given endpoint; those without one use that of the type.
unfoldable pub register_anycast_uuid :
    EndpointId → Sender → Option ClientMessage → Handle → Handle × Outcome ReceiveError
unfolding register
register_anycast_uuid endpoint_id = register anycast global 0 endpoint_id

unfoldable pub register_unicast_uuid :
    EndpointId → Sender → Option ClientMessage → Handle → Handle × Outcome ReceiveError
unfolding register
register_unicast_uuid endpoint_id = register unicast global 0 endpoint_id

unfoldable pub register_broadcast_uuid :
    EndpointId → Sender → Option ClientMessage → Handle → Handle × Outcome ReceiveError
unfolding register
register_broadcast_uuid endpoint_id = register broadcast global 0 endpoint_id

unfoldable pub register_rpc_uuid :
    EndpointId → Sender → Option ClientMessage → Handle → Handle × Outcome ReceiveError
unfolding register
register_rpc_uuid endpoint_id = register unicast global 0 endpoint_id

unfoldable pub register_anycast_rpc_uuid :
    EndpointId → Sender → Option ClientMessage → Handle → Handle × Outcome ReceiveError
unfolding register
register_anycast_rpc_uuid endpoint_id = register anycast global 0 endpoint_id

-- `map.send(packet).map_err(AnyBusHandleError::SendError)`.
unfoldable pub send_result : Sent → Outcome HandleError
send_result Sent.ok = ok tt
send_result (Sent.err e) = err (send_error e)

-- A value of type `A` in a payload: `downcast` and `decode` are the standard library's and bincode's.
module _ {A : Type 0} (downcast : Rider → Option A) (decode : List ℕ → Option A) where
  unfoldable pub reveal : Payload → Result Payload A
  reveal (bus_rider r) = elim (downcast r) [ some a ↦ ok a | none ↦ err (bus_rider r) ]
  reveal (bytes b) = elim (decode b) [ some a ↦ ok a | none ↦ err (bytes b) ]

  unfoldable pub revealed : Payload → Result HandleError A
  unfolding reveal
  revealed p = elim (reveal p) [
    | ok a ↦ ok a
    | err q ↦ err (receive_error (deserialization_error q))
  ]

  -- The answer to a request. `none` stands for the panics of `unreachable!()` and `todo!()`.
  unfoldable pub answered : Option ClientMessage → Option (Result HandleError A)
  unfolding revealed
  answered none = some (err HandleError.shutdown)
  answered (some (ClientMessage.message packet)) = some (revealed packet.payload)
  answered (some ClientMessage.shutdown) = some (err HandleError.shutdown)
  answered (some (ClientMessage.failed_registration id)) = none
  answered (some (ClientMessage.successful_registration id)) = none

  -- A helper's requests carry the endpoint that it registered as the address of the answer.
  module _ (encode_payload : Rider → List ℕ) where
    unfoldable pub request :
        EndpointId
        → Handle
        → Address
        → Rider
        → Wire
        → Option ClientMessage
        → Wire × Option (Result HandleError A)
    unfolding answered Send.send
    request response_endpoint_id h to payload w answer =
        let (w', sent) =
          Send.send encode_payload h.fib
            (record {
              to = to;
              reply_to = some (remote response_endpoint_id h.fib.our_id);
              from = h.fib.our_id;
              payload = bus_rider payload;
            })
            w in
        (w', elim sent [ Sent.ok ↦ answered answer | Sent.err e ↦ some (err (send_error e)) ])

-- `send_to_address`, which `send` and `send_to_uuid` call with the address of an endpoint.
unfoldable pub send_to_address :
    (Rider → List ℕ) → Handle → Address → Rider → Wire → Wire × Outcome HandleError
unfolding Send.send send_result
send_to_address encode_payload h address payload w =
    let (w', sent) =
      Send.send encode_payload h.fib
        (record { to = address; reply_to = none; from = h.fib.our_id; payload = bus_rider payload })
        w in
    (w', send_result sent)

-- `rpc_helper` for the fresh endpoint `response_uuid`: the helper is that endpoint.
unfoldable pub subscribed : EndpointId → Option ClientMessage → Result HandleError EndpointId
subscribed response_uuid (some (ClientMessage.successful_registration id)) =
    if id == response_uuid then ok response_uuid else err subscription_failed
subscribed response_uuid _ = err subscription_failed

unfoldable pub rpc_helper :
    EndpointId → Sender → Option ClientMessage → Handle → Handle × Result HandleError EndpointId
unfolding send_broker subscribed
rpc_helper response_uuid sender answer h = (
  send_broker
      (register_endpoint (record {
        endpoint_id = response_uuid;
        endpoint_info = record { kind = unicast; realm = process; cost = 0 };
        sender = sender;
      }))
      h,
  subscribed response_uuid answer,
)

-- `AnycastCost::set_cost`: `reply` is the sending end of the one-shot channel, `none` its loss.
unfoldable pub cost_result : Option (Outcome SetAnycastCostError) → Outcome HandleError
cost_result none = err HandleError.shutdown
cost_result (some (ok u)) = ok u
cost_result (some (err SetAnycastCostError.not_anycast)) = err HandleError.not_anycast
cost_result (some (err SetAnycastCostError.not_registered)) = err listener_not_registered

unfoldable pub set_cost :
    EndpointId
    → Sender
    → Cost
    → Sender
    → Option (Outcome SetAnycastCostError)
    → Handle
    → Handle × Outcome HandleError
unfolding cost_result
set_cost endpoint_id sender cost reply answer h =
    if h.is_open
    then (
      record h { queued = push h.queued (set_anycast_cost endpoint_id sender cost reply) },
      cost_result answer,
    )
    else (h, err HandleError.shutdown)
