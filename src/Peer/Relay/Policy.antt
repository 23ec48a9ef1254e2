-- ===== src/Peer/Relay/Policy.antt =====
-- The relay policy: when it is taken, and that it is given back.
use mathlib.Core.List.{Perm, perm_append_comm}
use mathlib.Core.List.Perm
use ninja_vst3_plugin.Prelude.{
  ℕ, ◌≡◌, refl, ◌∙◌, String, List, [], ◌∷◌, true, false, ◌⊎◌, inl, inr, none, some, arith, ltb,
  length,
}
use ninja_vst3_plugin.Peer.Types.{RtcConfiguration, Sdk, relay_escalated}
use ninja_vst3_plugin.Peer.State.{is_current, emit, modify, update_self}
use ninja_vst3_plugin.Peer.Relay.{
  has_turn_server, rotate, escalated, escalate_to_relay, relay_restore_over, restore_to,
}

rotate-perm : (servers : List (List String)) → Perm (rotate servers) servers
rotate-perm [] = Perm.refl []
rotate-perm (first ∷ []) = Perm.refl (first ∷ [])
rotate-perm (first ∷ second ∷ rest) =
    let more : ltb 1 (length (first ∷ second ∷ rest)) ≡ true = ground arith in
    rw more (perm_append_comm (second ∷ rest) (first ∷ []))

is_current_frame :
    (c : ℕ) (s t : Sdk)
    → t.connections ≡ s.connections
    → (t.objects c).uuid ≡ (s.objects c).uuid
    → (t.objects c).kind ≡ (s.objects c).kind
    → is_current c t ≡ is_current c s
is_current_frame c s t m u k = cc

abbrev Escalated : ℕ → Sdk → Type 0
Escalated c s =
    escalate_to_relay c s
    ≡ (true, emit (relay_escalated c) (modify c (escalated (s.objects c).pc.configuration) s))

escalate_cases :
    (c : ℕ) (s : Sdk)
    → (s.objects c).pc.reports ≡ true
    → (escalate_to_relay c s ≡ (false, s))
      ⊎ ((escalate_to_relay c s ≡ (true, s)) × ((s.objects c).pc.configuration.relay ≡ true))
      ⊎ Escalated c s
unfolding escalate_to_relay
escalate_cases c s r = ground arith

Escalated-relay :
    (c : ℕ) (s : Sdk)
    → (escalate_to_relay c s ≡ (false, s))
      ⊎ ((escalate_to_relay c s ≡ (true, s)) × ((s.objects c).pc.configuration.relay ≡ true))
      ⊎ Escalated c s
    → (escalate_to_relay c s).0 ≡ true
    → (((escalate_to_relay c s).1.objects c).pc.configuration.relay ≡ true)
      × Perm
          ((escalate_to_relay c s).1.objects c).pc.configuration.ice_servers
          (s.objects c).pc.configuration.ice_servers
Escalated-relay c s (inl e) done = absurd (ground (arith, e, done))
Escalated-relay c s (inr (inl (e, relay))) done = rw e (relay, Perm.refl _)
Escalated-relay c s (inr (inr e)) done =
    let original = (s.objects c).pc.configuration in
    rw e (
      rw (update_self s.objects c (escalated original (s.objects c)))
        (refl, rotate-perm original.ice_servers))

-- A connection that reports its own configuration is not escalated where that has no TURN server:
-- nothing changes. Where it is escalated it uses relays only, with the same servers in some order.
pub escalate_to_relay_lem :
    (c : ℕ) (s : Sdk)
    → (s.objects c).pc.reports ≡ true
    → (has_turn_server (s.objects c).pc.configuration ≡ false → escalate_to_relay c s ≡ (false, s))
      × ((escalate_to_relay c s).0 ≡ true
          → (((escalate_to_relay c s).1.objects c).pc.configuration.relay ≡ true)
            × Perm
                ((escalate_to_relay c s).1.objects c).pc.configuration.ice_servers
                (s.objects c).pc.configuration.ice_servers)
unfolding escalate_to_relay
escalate_to_relay_lem c s r =
    (λ none_there. ground arith, Escalated-relay c s (escalate_cases c s r))

escalate_eq :
    (c : ℕ) (s : Sdk)
    → (s.objects c).pc.reports ≡ true
    → (s.objects c).pc.configurable ≡ true
    → (s.objects c).pc.accepts ≡ true
    → has_turn_server (s.objects c).pc.configuration ≡ true
    → (s.objects c).pc.configuration.relay ≡ false
    → escalate_to_relay c s
      ≡ (true, emit (relay_escalated c) (modify c (escalated (s.objects c).pc.configuration) s))
unfolding escalate_to_relay
escalate_eq c s r f a t p = simp (r, f, a, t, p)

relay_restore_over_eq :
    (c : ℕ) (original : RtcConfiguration) (t : Sdk)
    → is_current c t ≡ true
    → (t.objects c).original_configuration ≡ some original
    → (t.objects c).pc.accepts ≡ true
    → ((relay_restore_over c t).objects c).pc ≡ record (t.objects c).pc { configuration = original }
      × ((relay_restore_over c t).objects c).relay_escalated ≡ false
unfolding relay_restore_over restore_to
relay_restore_over_eq c original t cur o a =
    let fired = modify c (λ conn. record conn { relay_restore_timer = none }) t in
    let still = is_current_frame c t fired refl (ground arith) (ground arith) ∙ cur in
    ground (arith, still)

-- When the restore timer fires for an escalated direction that is still current, its connection has
-- the configuration that it had before, and is not marked as escalated any more.
pub escalate-restore :
    (c : ℕ) (s : Sdk)
    → (s.objects c).pc.reports ≡ true
    → (s.objects c).pc.configurable ≡ true
    → (s.objects c).pc.accepts ≡ true
    → has_turn_server (s.objects c).pc.configuration ≡ true
    → (s.objects c).pc.configuration.relay ≡ false
    → is_current c s ≡ true
    → ((escalate_to_relay c s).0 ≡ true)
      × (((relay_restore_over c (escalate_to_relay c s).1).objects c).pc ≡ (s.objects c).pc)
      × (((relay_restore_over c (escalate_to_relay c s).1).objects c).relay_escalated ≡ false)
escalate-restore c s r f a t p cur =
    let done = escalate_eq c s r f a t p in
    let t = emit (relay_escalated c) (modify c (escalated (s.objects c).pc.configuration) s) in
    let still = is_current_frame c s t refl (ground arith) (ground arith) ∙ cur in
    let back =
      relay_restore_over_eq c (s.objects c).pc.configuration t still (ground arith)
        (ground arith) in
    rw done (refl, rw back.0 (ground arith), back.1)

-- A connection that reports its own configuration, with no TURN server in it, is not escalated, and
-- nothing changes.
pub escalate_to_relay_without_turn :
    (c : ℕ) (s : Sdk)
    → (s.objects c).pc.reports ≡ true
    → has_turn_server (s.objects c).pc.configuration ≡ false
    → escalate_to_relay c s ≡ (false, s)
escalate_to_relay_without_turn c s reports without = (escalate_to_relay_lem c s reports).0 without

-- A connection that reports its own configuration and is escalated uses relays only, with the same
-- servers in some order.
pub escalate_to_relay-Perm :
    (c : ℕ) (s : Sdk)
    → (s.objects c).pc.reports ≡ true
    → (escalate_to_relay c s).0 ≡ true
    → (((escalate_to_relay c s).1.objects c).pc.configuration.relay ≡ true)
      × Perm
          ((escalate_to_relay c s).1.objects c).pc.configuration.ice_servers
          (s.objects c).pc.configuration.ice_servers
escalate_to_relay-Perm c s reports done = (escalate_to_relay_lem c s reports).1 done
