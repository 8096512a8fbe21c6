-- ===== src/Peers/Ws/Manager/Order.antt =====
-- The manager keeps its queue in order.
use anybus.Common.{not, nat_eq, ◌==◌}
use anybus.Peers.Ws.Pending.{all_ready}
use anybus.Peers.Ws.Pending.Sorted.{
  IsSorted, enqueue-IsSorted, retain-IsSorted, sort_by_ready-IsSorted,
}
use anybus.Peers.Ws.Manager.{WebsocketManager, ManagerState}
use anybus.Peers.Ws.Manager.Loop.{next, Outside}
use anybus.Peers.Ws.Manager.Queue.{HasOrder}
use anybus.Peers.Ws.Manager.Passes.{IsClosed, Keeps, next-Keeps}

IsSorted-IsClosed : IsClosed IsSorted
IsSorted-IsClosed = record {
  enqueued = enqueue-IsSorted;
  taken = λ now p ps r s. s.1;
  forgotten = λ url. retain-IsSorted (λ p. not (p.config.url == url));
  refreshed = λ clock ps s. sort_by_ready-IsSorted (all_ready clock ps);
}

-- Whatever state the manager is in, and whatever happens at whatever times, a pass of its loop keeps the
-- queue of disconnected peers in the order of the times at which they are ready.
pub next-AllOrdered :
    (o : Outside) (state : ManagerState) (m : WebsocketManager)
    → HasOrder m
    → Keeps IsSorted (next o state m)
next-AllOrdered = next-Keeps IsSorted IsSorted-IsClosed
