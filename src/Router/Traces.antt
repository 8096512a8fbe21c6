-- ===== src/Router/Traces.antt =====
-- The runs of the router: what the steps of router.rs reach from a new router.
use anybus.Common.{ℕ, ◌≡◌, sym, subst}
use anybus.Common.Preds.{AllValues}
use anybus.Routing.{NodeId}
use anybus.LinkState.Wire.{Wire}
use anybus.LinkState.Db.Anchor.{IsAnchored, new-IsAnchored}
use anybus.LinkState.Forward.Total.{NotMulticast}
use anybus.Router.{Router, State, Event, go, start, new, next}
use anybus.Router.Safety.{IsFresh, IsSafe, next-IsSafe}

-- What a step asks of the router: registering peers have new connections, endpoints are not
-- multicast.
abbrev pub IsCalm : State → Router → Type 0
IsCalm s r = IsFresh s r × AllValues NotMulticast r.lsdb.routes

pub data Run (node_id : NodeId) (now : ℕ) (w : Wire) : State → Router → Type 0 where
  begin : (s : State) (r : Router) → s ≡ start → r ≡ new node_id now w → Run node_id now w s r
  step :
      (at : ℕ) (event : Event) (s s' : State) (r r' : Router)
      → Run node_id now w s r
      → IsCalm s r
      → next at event s r ≡ go s' r'
      → Run node_id now w s' r'

module _ (node_id : NodeId) (now : ℕ) (w : Wire) where
  Run-IsAnchored : (s : State) (r : Router) → Run node_id now w s r → IsAnchored r.lsdb
  unfolding new
  Run-IsAnchored s r (Run.begin _ _ _ e) =
      subst (λ (x : Router). IsAnchored x.lsdb) (sym e) (new-IsAnchored node_id now)
  Run-IsAnchored s r (Run.step at event s₀ _ r₀ _ run calm e) =
      subst IsSafe e (next-IsSafe at event s₀ r₀ (Run-IsAnchored s₀ r₀ run) calm.0 calm.1)

  -- After any run of a new router, under any messages, times and channels, in which registering
  -- peers have connections without a link and no endpoint is multicast at a step, a further such
  -- step does not panic, and the database is anchored after it.
  pub Run-IsSafe :
      (at : ℕ) (event : Event) (s : State) (r : Router)
      → Run node_id now w s r
      → IsCalm s r
      → IsSafe (next at event s r)
  Run-IsSafe at event s r run calm = next-IsSafe at event s r (Run-IsAnchored s r run) calm.0 calm.1
