-- ===== src/LinkState/Db/Keeps.antt =====
-- Every operation of the database keeps the invariant of `Anchor`.
use anybus.Common.{◌≡◌, ◌≢◌, subst, inl, inr, Bool, retain, ◌==◌, nat_eq, arith, Bool-cases}
use anybus.Common.Assoc.{HashMap, insert, remove, get-insert, get-remove}
use anybus.Common.Unique.{insert-UniqueKeys, remove-UniqueKeys, get-retain, retain-UniqueKeys}
use anybus.Routing.{NodeId, ConnectionId}
use anybus.LinkState.{EndpointInfo, LsaKey, key_eq, key_beq_iff, LsaRecord, endpoint, Link}
use anybus.LinkState.Db.Anchor.{DbIsAnchored, IsOwnRouter}

module _ {self_id : NodeId} {links : HashMap ConnectionId Link}
    {db : HashMap LsaKey LsaRecord} where
  pub insert-DbIsAnchored :
      (k : LsaKey) (r : LsaRecord)
      → DbIsAnchored self_id links db
      → IsOwnRouter self_id links k r
      → DbIsAnchored self_id links (insert k r db)
  insert-DbIsAnchored k r inv mine = record {
    unique = insert-UniqueKeys k r db inv.unique;
    own = λ j q h. elim (Bool-cases (k == j)) [
      | inl t ↦
          let same : k ≡ j = (key_beq_iff k j).0 t in
          let value : r ≡ q = ground (arith, get-insert k j r db) in
          subst (λ i. IsOwnRouter self_id links i q) same
            (subst (IsOwnRouter self_id links k) value mine)
      | inr f ↦ inv.own j q (ground (arith, get-insert k j r db))
    ];
  }

  pub remove-DbIsAnchored :
      (k : LsaKey) → DbIsAnchored self_id links db → DbIsAnchored self_id links (remove k db)
  remove-DbIsAnchored k inv = record {
    unique = remove-UniqueKeys k db inv.unique;
    own = λ j q h. inv.own j q (ground (arith, get-remove k j db));
  }

  pub retain-DbIsAnchored :
      (p : LsaKey → Bool)
      → DbIsAnchored self_id links db
      → DbIsAnchored self_id links (retain (λ kr. p kr.0) db)
  retain-DbIsAnchored p inv = record {
    unique = retain-UniqueKeys p db inv.unique;
    own = λ j q h. inv.own j q (ground (arith, get-retain p j db));
  }

-- A record that is no router LSA, or not of our own, may stand anywhere.
pub endpoint-IsOwnRouter :
    (self_id : NodeId) (links : HashMap ConnectionId Link) (k : LsaKey) (r : LsaRecord)
    {info : EndpointInfo}
    → r.lsa.body ≡ endpoint info
    → IsOwnRouter self_id links k r
endpoint-IsOwnRouter self_id links k r e adjs o b = absurd (ground arith)

pub foreign-IsOwnRouter :
    (self_id : NodeId) (links : HashMap ConnectionId Link) (k : LsaKey) (r : LsaRecord)
    → k.origin ≢ self_id
    → IsOwnRouter self_id links k r
foreign-IsOwnRouter self_id links k r ne adjs o b = absurd (ne o)
