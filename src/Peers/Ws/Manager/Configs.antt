-- ===== src/Peers/Ws/Manager/Configs.antt =====
-- Adding and removing remote peers by their configurations.
use anybus.Common.{
  ℕ, ◌+◌, ◌≡◌, refl, arith, Bool, true, false, not, ◌||◌, List, [], ◌∷◌, ◌++◌, none, length, retain,
  any, push, nat_eq, ◌==◌, ltb, ap,
}
use mathlib.Core.List.{append_assoc}
use anybus.LinkState.{Sender}
use anybus.Peers.Ws.Pending.{WebSocketPeerConfig, config_eq, WsPendingPeer, from_config}
use anybus.Peers.Ws.Manager.{WebsocketManager, WsActivePeer, has_url, has_config, respond, Asked}
use anybus.Peers.Ws.Manager.Handlers.{
  add_config, remove_url, knows_config, take_first, drop_active, forget_url,
}

-- Some peer has the URL.
abbrev pub knows_url : ℕ → WebsocketManager → Bool
knows_url url m =
    any (λ p. p.config.url == url) m.pending_peers
    || any (λ p. p.config.url == url) m.disconnected_peers
    || any (λ p. has_url url p.direction) m.current_peers

any_weaken :
    (config : WebSocketPeerConfig) (ps : List WsPendingPeer)
    → any (λ p. p.config.url == config.url) ps ≡ false
    → any (λ p. p.config == config) ps ≡ false
any_weaken config [] h = refl
any_weaken config (p ∷ ps) h = ground (arith, any_weaken config ps)

any-direction_weaken :
    (config : WebSocketPeerConfig) (ps : List WsActivePeer)
    → any (λ p. has_url config.url p.direction) ps ≡ false
    → any (λ p. has_config config p.direction) ps ≡ false
any-direction_weaken config [] h = refl
any-direction_weaken config (p ∷ ps) h = ground (arith, any-direction_weaken config ps)

retain_all :
    (url : ℕ) (ps : List WsPendingPeer)
    → any (λ p. p.config.url == url) ps ≡ false
    → retain (λ p. not (p.config.url == url)) ps ≡ ps
retain_all url [] h = refl
retain_all url (p ∷ ps) h = ground (arith, retain_all url ps)

retain-push :
    (now : ℕ) (config : WebSocketPeerConfig) (ps : List WsPendingPeer)
    → any (λ p. p.config.url == config.url) ps ≡ false
    → retain (λ p. not (p.config.url == config.url)) (push ps (from_config now config)) ≡ ps
unfolding from_config
retain-push now config [] h = ground arith
retain-push now config (p ∷ ps) h = ground (arith, retain-push now config ps)

take_first-none :
    (url : ℕ) (ps : List WsActivePeer)
    → any (λ p. has_url url p.direction) ps ≡ false
    → take_first (λ p. has_url url p.direction) ps ≡ none
unfolding take_first
take_first-none url [] h = refl
take_first-none url (p ∷ ps) h = ground (arith, take_first-none url ps)

length-push : (ps : List WsPendingPeer) (p : WsPendingPeer) → length (push ps p) ≡ length ps + 1
length-push [] p = omega arith
length-push (q ∷ ps) p = omega (arith, length-push ps p)

-- No peer with the URL of a configuration has this configuration.
unknown_config :
    (config : WebSocketPeerConfig) (m : WebsocketManager)
    → knows_url config.url m ≡ false
    → knows_config config m ≡ false
unknown_config config m h = ground (
  arith,
  h,
  any_weaken config m.pending_peers,
  any_weaken config m.disconnected_peers,
  any-direction_weaken config m.current_peers,
)

add_config_new :
    (now : ℕ) (config : WebSocketPeerConfig) (r : Sender) (m : WebsocketManager)
    → knows_config config m ≡ false
    → add_config now config r m ≡ record m {
      pending_peers = push m.pending_peers (from_config now config);
      asked = push m.asked (respond r true);
    }
unfolding add_config
add_config_new now config r m h = rw h refl

drop_active-none :
    (url : ℕ) (m : WebsocketManager)
    → take_first (λ p. has_url url p.direction) m.current_peers ≡ none
    → drop_active url m ≡ m
drop_active-none url m h = rw (h, drop_active) refl

fewer : (a b c : ℕ) → ltb (a + b + c) (a + 1 + b + c) ≡ true
fewer a b c = ground arith

-- Where no peer has the URL of a new configuration, adding the configuration and then removing the URL
-- leaves all three lists of peers as they were, and both calls are answered with Ok.
pub remove_url-add_config :
    (now : ℕ) (config : WebSocketPeerConfig) (r r' : Sender) (m : WebsocketManager)
    → knows_url config.url m ≡ false
    → remove_url config.url r' (add_config now config r m)
      ≡ record m { asked = m.asked ++ respond r true ∷ respond r' true ∷ [] }
unfolding remove_url
remove_url-add_config now config r r' m h =
    let added = record m {
      pending_peers = push m.pending_peers (from_config now config);
      asked = push m.asked (respond r true);
    } in
    rw (add_config_new now config r m (unknown_config config m h)) (
      rw
        (
          drop_active-none config.url (forget_url config.url added)
              (take_first-none config.url m.current_peers (ground (arith, h))),
          retain-push now config m.pending_peers (ground (arith, h)),
          retain_all config.url m.disconnected_peers (ground (arith, h)),
          length-push m.pending_peers (from_config now config),
        )
        (rw (fewer (length m.pending_peers) (length m.disconnected_peers) (length m.current_peers))
          (ap (λ (done : List Asked). record m { asked = done })
            (append_assoc m.asked (respond r true ∷ []) (respond r' true ∷ [])))))
