-- ===== src/LinkState/Links.antt =====
-- `impl Link` of src/routing/linkstate.rs.
use anybus.Common.{ℕ, not, List, map, retain, is_empty, if◌then◌else◌}
use anybus.Routing.{intersection, contains}
use anybus.LinkState.{Adjacency, Lsa, LsaBody, LsaKey, Link, router, endpoint, NodeMessage}
use anybus.LinkState.Wire.{Wire, TrySend, try_send_node}

pub data SendResult : Type 0 where
  sent : SendResult
  try_send_error : TrySend → SendResult
  realm_mismatch : SendResult

unfoldable pub send_result : Wire × TrySend → Wire × SendResult
send_result (w, TrySend.delivered) = (w, sent)
send_result (w, r) = (w, try_send_error r)

abbrev pub restrict : Link → Adjacency → Adjacency
restrict link adj = record adj { realms = intersection adj.realms link.realms }

-- What a link lets through of a router's adjacencies.
unfoldable pub visible : Link → List Adjacency → List Adjacency
visible link adjacencies =
    retain (λ adj. not (is_empty adj.realms)) (map (restrict link) adjacencies)

unfoldable pub transmit : Link → Lsa → Wire → Wire × SendResult
unfolding send_result try_send_node
transmit link lsa w = send_result (try_send_node link.tx (NodeMessage.lsa lsa) w)

unfoldable pub send_body : Link → Lsa → LsaBody → Wire → Wire × SendResult
unfolding transmit visible
send_body link lsa (router adjacencies) w =
    let seen = visible link adjacencies in
    if is_empty seen
    then (w, realm_mismatch)
    else transmit link (record lsa { body = router seen }) w
send_body link lsa (endpoint info) w =
    if contains link.realms info.realm then transmit link lsa w else (w, realm_mismatch)

unfoldable pub send_lsa : Link → Lsa → Wire → Wire × SendResult
unfolding send_body
send_lsa link lsa w = send_body link lsa lsa.body w

unfoldable pub send_lsa_ack : Link → LsaKey → ℕ → Wire → Wire × SendResult
unfolding send_result try_send_node
send_lsa_ack link key seq w = send_result (try_send_node link.tx (NodeMessage.lsa_ack key seq) w)
