-- ===== src/Examples/Database.antt =====
-- The database's and the router's theorems at concrete inputs.
use anybus.Common.{ℕ, ◌≡◌, refl, true, false, none, some, [], ◌∷◌, ◌++◌, nat_eq}
use anybus.Common.Assoc.{get}
use anybus.Routing.{anycast, broadcast, global}
use anybus.LinkState.{LsForwardTo, LsRoute, LsRouteEntry, LsaKey, LsaRecord, Lsa, LsaBody, key_eq}
use anybus.LinkState.Wire.{Wire}
use anybus.LinkState.RouteTable.Removal.{kept, is_kept}
use anybus.LinkState.RouteTable.{min_local_cost}
use anybus.LinkState.Db.{LsDb, own_key}
use anybus.LinkState.Db
use anybus.LinkState.Db.Anchor.{IsAnchored, new-IsAnchored}
use anybus.LinkState.Db.Lsas.{handle_lsa}
use anybus.LinkState.Db.Peers.{add_peer, remove_peer}
use anybus.LinkState.Db.Refresh.{tick, purge_stale_lsas, is_stale}
use anybus.LinkState.Db.Endpoints.{remove_endpoint, endpoint_key}
use anybus.LinkState.Db.RemoteSafe.{Safe, handle_lsa-Safe}
use anybus.LinkState.Db.PeerSafe.{add_peer-IsAnchored}
use anybus.LinkState.Db.PeerGone.{Removed, remove_peer-Safe}
use anybus.LinkState.Db.RefreshSafe.{SafeTick, tick-Safe}
use anybus.LinkState.Db.Purge.{purge_stale_lsas_first}
use anybus.LinkState.Db.Withdrawal.{remove_endpoint-remote, remove_endpoint-last}
use anybus.LinkState.Db.Versions.{Change, handle_lsa-Change}
use anybus.LinkState.Db.Authority.{IsSince, handle_lsa-own, handle_lsa-IsSince}
use anybus.LinkState.Wire.Added.{Adds}
use anybus.LinkState.Db.Flooding.{IsFlooded, flood_all_neighbors-Adds}
use anybus.LinkState.Db.Acks.{settles, handle_ack-get}
use anybus.LinkState.Db.{PendingKey, pending_eq, flood_all_neighbors, handle_ack}
use anybus.Common.{if◌then◌else◌, ◌&&◌, ◌==◌}
use anybus.Examples.{open_wire, closed_wire, link_two, first_db, lsa_two}

first_db-IsAnchored : IsAnchored first_db
first_db-IsAnchored = new-IsAnchored 1 0

-- With the link to node 2.
abbrev linked : LsDb × Wire
linked = add_peer 5 link_two (first_db, open_wire)

linked-IsAnchored : IsAnchored linked.0
unfolding Db.new get
linked-IsAnchored = add_peer-IsAnchored 5 link_two (first_db, open_wire) refl first_db-IsAnchored

handle_lsa-Safe_example : Safe (handle_lsa 9 lsa_two 1 (linked.0, open_wire))
handle_lsa-Safe_example = handle_lsa-Safe 9 lsa_two 1 linked.0 open_wire linked-IsAnchored

remove_peer-Safe_example : Removed 1 linked.0 (remove_peer 9 1 linked)
remove_peer-Safe_example = remove_peer-Safe 9 1 linked linked-IsAnchored

tick-Safe_example : SafeTick (tick 100000 (linked.0, open_wire))
tick-Safe_example = tick-Safe 100000 linked.0 open_wire linked-IsAnchored

abbrev lsa_ten : ℕ → Lsa
lsa_ten seq = record {
  key = record { origin = 2; endpoint_id = 10 };
  seq = seq;
  dead = false;
  body = LsaBody.endpoint (record { kind = anycast; realm = global; cost = 3 });
}

abbrev record_ten : LsaRecord
record_ten = record { lsa = lsa_ten 3; updated_at = 0 }

-- With an LSA of endpoint 10 from node 2, of version 3.
abbrev told_db : LsDb
told_db = record first_db {
  db = (record { origin = 2; endpoint_id = 10 }, record_ten) ∷ first_db.db;
}

abbrev told_after : LsDb × Wire
told_after = elim (handle_lsa 9 (lsa_ten 4) 1 (told_db, open_wire)) [
  | none ↦ (told_db, open_wire)
  | some dw ↦ dw
]

told_lem : handle_lsa 9 (lsa_ten 4) 1 (told_db, open_wire) ≡ some told_after
unfolding handle_lsa Db.new get
told_lem = refl

handle_lsa-Change_example : Change 9 1 (lsa_ten 4) told_db.db told_after.0.db
unfolding Db.new
handle_lsa-Change_example = handle_lsa-Change 9 (lsa_ten 4) 1 told_db open_wire told_after told_lem

handle_lsa-own_example : get (own_key 1) told_after.0.db ≡ get (own_key 1) told_db.db
unfolding Db.new
handle_lsa-own_example =
    handle_lsa-own 9 (lsa_ten 4) 1 told_db open_wire told_after (own_key 1) told_lem refl

handle_lsa-IsSince_example :
    IsSince record_ten (get (record { origin = 2; endpoint_id = 10 }) told_after.0.db) false
unfolding Db.new get
handle_lsa-IsSince_example =
    handle_lsa-IsSince 9 (lsa_ten 4) 1 told_db open_wire told_after
      (record { origin = 2; endpoint_id = 10 }) record_ten told_lem refl

-- Two stale records behind our own, which is refreshed.
abbrev stale_key : ℕ → LsaKey
stale_key n = record { origin = n; endpoint_id = n }

abbrev stale_db : LsDb
stale_db = record first_db { db = (stale_key 2, record_ten) ∷ (stale_key 3, record_ten) ∷ [] }

purge_stale_lsas_first_example :
    purge_stale_lsas 70000 stale_db
    ≡ (record stale_db { db = [] ++ (stale_key 3, record_ten) ∷ [] }, true)
unfolding is_stale Db.new
purge_stale_lsas_first_example =
    purge_stale_lsas_first stale_db 70000 [] ((stale_key 3, record_ten) ∷ []) (stale_key 2)
      record_ten refl tt refl

abbrev route_via : LsForwardTo → LsRoute
route_via via = record { via = via; cost = 3; realm = global; kind = broadcast }

-- The listener on channel 8 is closed, node 2 has one more.
abbrev shared_entry : LsRouteEntry
shared_entry = record {
  routes = route_via (LsForwardTo.local 8) ∷ route_via (LsForwardTo.remote 2) ∷ [];
  kind = broadcast;
}

abbrev shared_db : LsDb
shared_db = record first_db { routes = (10, shared_entry) ∷ [] }

remove_endpoint-remote_example :
    ((remove_endpoint 9 10 (shared_db, closed_wire)).0.db ≡ shared_db.db)
    × ((remove_endpoint 9 10 (shared_db, closed_wire)).1 ≡ closed_wire)
unfolding get kept is_kept min_local_cost
remove_endpoint-remote_example =
    remove_endpoint-remote 9 10 shared_db closed_wire shared_entry refl refl refl

abbrev lone_entry : LsRouteEntry
lone_entry = record { routes = route_via (LsForwardTo.local 8) ∷ []; kind = broadcast }

abbrev lone_db : LsDb
lone_db = record first_db { routes = (10, lone_entry) ∷ [] }

remove_endpoint-last_example :
    get (endpoint_key lone_db 10) (remove_endpoint 9 10 (lone_db, closed_wire)).0.db ≡ none
unfolding get kept is_kept
remove_endpoint-last_example = remove_endpoint-last 9 10 lone_db closed_wire lone_entry refl refl

abbrev flooding_db : LsDb
flooding_db = record first_db { links = (1, link_two) ∷ [] }

flood_all_neighbors-Adds_example :
    Adds
      (IsFlooded flooding_db (lsa_ten 4) (some 3))
      open_wire
      (flood_all_neighbors (lsa_ten 4) (some 3) (flooding_db, open_wire)).1
flood_all_neighbors-Adds_example =
    flood_all_neighbors-Adds (lsa_ten 4) (some 3) flooding_db open_wire

abbrev key_ten : LsaKey
key_ten = record { origin = 2; endpoint_id = 10 }

abbrev waiting_key : PendingKey
waiting_key = record { connection_id = 1; key = key_ten }

abbrev waiting_db : LsDb
waiting_db = record first_db { pending_tx = (waiting_key, 4) ∷ [] }

handle_ack-get_example : get waiting_key (handle_ack 1 key_ten 3 waiting_db).pending_tx ≡ (
    if (waiting_key == waiting_key) && settles 3 (get waiting_key waiting_db.pending_tx)
    then none
    else get waiting_key waiting_db.pending_tx)
handle_ack-get_example = handle_ack-get 1 key_ten 3 waiting_db waiting_key
