-- ===== src/LinkState/Db/Acks.antt =====
-- `handle_ack` of db.rs: which messages wait for an ack afterwards.
use anybus.Common.{
  ℕ, ◌≡◌, refl, Bool, false, not, ◌&&◌, Option, none, some, arith, inl, inr, Bool-cases, ltb,
  if◌then◌else◌, ◌==◌,
}
use anybus.Common.Assoc.{get, insert, remove, get-insert, get-remove}
use anybus.Routing.{ConnectionId}
use anybus.LinkState.{LsaKey}
use anybus.LinkState.Db.{LsDb, PendingKey, pending_eq, pending_beq_iff, handle_ack}

-- An ack settles a message of its version or an older one.
abbrev pub settles : ℕ → Option ℕ → Bool
settles seq none = false
settles seq (some val) = not (ltb seq val)

-- After an ack the message over its connection and under its key no longer waits if its version is
-- not above that of the ack; every other message waits as before, and so does a newer version.
pub handle_ack-get :
    (from : ConnectionId) (key : LsaKey) (seq : ℕ) (d : LsDb) (k : PendingKey)
    → get k (handle_ack from key seq d).pending_tx ≡ (
        if (record { connection_id = from; key = key } == k)
          && settles seq (get (record { connection_id = from; key = key }) d.pending_tx)
        then none
        else get k d.pending_tx)
unfolding handle_ack
handle_ack-get from key seq d k = go (get waiting d.pending_tx) refl
  where
    waiting : PendingKey
    waiting = record { connection_id = from; key = key }

    go :
        (found : Option ℕ)
        → get waiting d.pending_tx ≡ found
        → get k
            (elim found as (λ o. LsDb) [
              | none ↦ d
              | some val ↦ record d {
                pending_tx =
                    if ltb seq val
                    then insert waiting val (remove waiting d.pending_tx)
                    else remove waiting d.pending_tx;
              }
            ]).pending_tx
          ≡ (if (waiting == k) && settles seq found then none else get k d.pending_tx)
    go none e = ground arith
    go (some val) e = elim (Bool-cases (ltb seq val)) [
      | inl t ↦ ground (
        arith,
        get-insert waiting k val (remove waiting d.pending_tx),
        get-remove waiting k d.pending_tx,
        pending_beq_iff waiting k,
      )
      | inr f ↦ ground (arith, get-remove waiting k d.pending_tx)
    ]
