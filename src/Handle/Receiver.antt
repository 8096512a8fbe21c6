-- ===== src/Handle/Receiver.antt =====
-- `struct PacketReceiver` of src/receivers/packet_receiver.rs: the channel's contents are a list, and
-- `is_closed` tells that nothing more will come.
use anybus.Common.{Bool, true, false, List, [], ◌∷◌, Option, none, some, ◌≡◌, refl, if◌then◌else◌}
use anybus.Routing.{Packet}
use anybus.LinkState.{ClientMessage}
use anybus.LinkState.RouteTable.{Result, ok, err}
use anybus.Handle.{ReceiveError, registration_failed}

-- `none` stands for a caller that still waits.
unfoldable pub recv :
    Bool → List ClientMessage → Option (Result ReceiveError Packet) × List ClientMessage
recv is_closed [] = (if is_closed then some (err ReceiveError.shutdown) else none, [])
recv is_closed (ClientMessage.message packet ∷ ms) = (some (ok packet), ms)
recv is_closed (ClientMessage.shutdown ∷ ms) = (some (err ReceiveError.shutdown), ms)
recv is_closed (ClientMessage.failed_registration id ∷ ms) = recv is_closed ms
recv is_closed (ClientMessage.successful_registration id ∷ ms) = recv is_closed ms

unfoldable pub try_recv :
    Bool → List ClientMessage → Option (Result ReceiveError Packet) × List ClientMessage
try_recv is_closed [] = (if is_closed then some (err ReceiveError.shutdown) else none, [])
try_recv is_closed (ClientMessage.message packet ∷ ms) = (some (ok packet), ms)
try_recv is_closed (ClientMessage.shutdown ∷ ms) = (some (err ReceiveError.shutdown), ms)
try_recv is_closed (ClientMessage.failed_registration id ∷ ms) =
    (some (err registration_failed), ms)
try_recv is_closed (ClientMessage.successful_registration id ∷ ms) =
    (some (err registration_failed), ms)

-- What `poll_next` answers: `Ready(Some(packet))`, `Ready(None)` or `Pending`.
pub data Poll : Type 0 where
  item : Packet → Poll
  ended pending : Poll

unfoldable pub poll_next : Bool → List ClientMessage → Poll × List ClientMessage
poll_next is_closed [] = (if is_closed then ended else pending, [])
poll_next is_closed (ClientMessage.message packet ∷ ms) = (item packet, ms)
poll_next is_closed (ClientMessage.shutdown ∷ ms) = (ended, ms)
poll_next is_closed (ClientMessage.failed_registration id ∷ ms) = (pending, ms)
poll_next is_closed (ClientMessage.successful_registration id ∷ ms) = (pending, ms)

-- The messages from the first on that does not answer a registration.
unfoldable pub past_answers : List ClientMessage → List ClientMessage
past_answers [] = []
past_answers (ClientMessage.message packet ∷ ms) = ClientMessage.message packet ∷ ms
past_answers (ClientMessage.shutdown ∷ ms) = ClientMessage.shutdown ∷ ms
past_answers (ClientMessage.failed_registration id ∷ ms) = past_answers ms
past_answers (ClientMessage.successful_registration id ∷ ms) = past_answers ms

-- A stream that gives the same packets and ends with an error.
unfoldable pub as_poll : Option (Result ReceiveError Packet) → Poll
as_poll none = pending
as_poll (some (ok packet)) = item packet
as_poll (some (err e)) = ended

-- Whatever waits in the channel, recv does what try_recv does past the answers to registrations that
-- come first. There poll_next leaves the same messages; it gives recv's packet, ends where recv fails
-- and is pending where recv waits.
pub recv_lem :
    (is_closed : Bool) (ms : List ClientMessage)
    → (recv is_closed ms ≡ try_recv is_closed (past_answers ms))
      × (poll_next is_closed (past_answers ms)
          ≡ (as_poll (recv is_closed ms).0, (recv is_closed ms).1))
unfolding recv try_recv poll_next past_answers as_poll
recv_lem true [] = (refl, refl)
recv_lem false [] = (refl, refl)
recv_lem is_closed (ClientMessage.message packet ∷ ms) = (refl, refl)
recv_lem is_closed (ClientMessage.shutdown ∷ ms) = (refl, refl)
recv_lem is_closed (ClientMessage.failed_registration id ∷ ms) = recv_lem is_closed ms
recv_lem is_closed (ClientMessage.successful_registration id ∷ ms) = recv_lem is_closed ms
