-- ===== src/LinkState/Db/Purge.antt =====
-- What `purge_stale_lsas` takes out of the database.
use anybus.Common.{ℕ, ◌≡◌, true, false, [], ◌∷◌, ◌++◌, nat_eq}
use anybus.Common.Assoc.{HashMap}
use anybus.Common.Preds.{All}
use anybus.LinkState.{LsaKey, LsaRecord}
use anybus.LinkState.Db.{LsDb}
use anybus.LinkState.Db.Refresh.{purge_stale_lsas, extract_first, is_stale}

extract_first_lem :
    (d : LsDb) (now : ℕ) (before after : HashMap LsaKey LsaRecord) (k : LsaKey) (r : LsaRecord)
    → All (λ (kr : LsaKey × LsaRecord). is_stale d now kr.1 ≡ false) before
    → is_stale d now r ≡ true
    → extract_first d now (before ++ (k, r) ∷ after) ≡ (before ++ after, true)
unfolding extract_first
extract_first_lem d now [] after k r h stale = rw stale
extract_first_lem d now ((j, q) ∷ before) after k r h stale =
    rw (h.0, extract_first_lem d now before after k r h.1 stale)

-- If the records of the database are some that are not stale, then a stale one, then any others,
-- a purge takes out that stale one and no other, stale or not, changes nothing else, no route
-- either, and tells its caller that something was purged.
pub purge_stale_lsas_first :
    (d : LsDb) (now : ℕ) (before after : HashMap LsaKey LsaRecord) (k : LsaKey) (r : LsaRecord)
    → d.db ≡ before ++ (k, r) ∷ after
    → All (λ (kr : LsaKey × LsaRecord). is_stale d now kr.1 ≡ false) before
    → is_stale d now r ≡ true
    → purge_stale_lsas now d ≡ (record d { db = before ++ after }, true)
unfolding purge_stale_lsas
purge_stale_lsas_first d now before after k r split fresh stale =
    rw (split, extract_first_lem d now before after k r fresh stale)
