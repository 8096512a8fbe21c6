-- ===== src/LinkState/Wire.antt =====
-- The channels of tokio, which the source only calls. `try_send` delivers a message or returns it:
-- what a channel answers is up to the environment, which may go by all that was delivered so far.
pub mod Added
use anybus.Common.{Bool, List, Option, push}
use anybus.LinkState.{SetAnycastCostError, Sender, ClientMessage, NodeMessage}

-- A message that was delivered; to a caller that waits for an answer, `none` is `Ok(())`.
pub data Delivery : Type 0 where
  to_client : Sender → ClientMessage → Delivery
  to_peer : Sender → NodeMessage → Delivery
  to_caller : Sender → Option SetAnycastCostError → Delivery

pub data TrySend : Type 0 where
  delivered full closed : TrySend

pub record Wire : Type 0 where
  pub answer : List Delivery → Sender → TrySend
  pub is_closed : List Delivery → Sender → Bool
  pub sent : List Delivery

unfoldable pub deliver : Delivery → TrySend → Wire → Wire
deliver d delivered w = record w { sent = push w.sent d }
deliver d full w = w
deliver d closed w = w

-- `Sender<ClientMessage>::try_send` and `Sender<NodeMessage>::try_send`.
unfoldable pub try_send : Sender → ClientMessage → Wire → Wire × TrySend
unfolding deliver
try_send tx m w = let r = w.answer w.sent tx in (deliver (to_client tx m) r w, r)

unfoldable pub try_send_node : Sender → NodeMessage → Wire → Wire × TrySend
unfolding deliver
try_send_node tx m w = let r = w.answer w.sent tx in (deliver (to_peer tx m) r w, r)

-- `oneshot::Sender::send`, whose failure nobody looks at.
unfoldable pub reply : Sender → Option SetAnycastCostError → Wire → Wire
unfolding deliver
reply tx r w = deliver (to_caller tx r) (w.answer w.sent tx) w
