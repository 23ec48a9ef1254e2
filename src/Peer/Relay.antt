-- ===== src/Peer/Relay.antt =====
-- `_hasTurnServer`, `_escalateConnectionToRelay` and `_scheduleRelayPolicyRestore`: a direct path
-- that failed is tried again through TURN servers, and the policy is restored later.
pub mod Policy
use Prim.Native.Char.{code}
use ninja_vst3_plugin.Prelude.{
  ℕ, ◌+◌, String, Bool, true, false, not, ◌&&◌, ◌||◌, Option, none, some, List, [], ◌∷◌, ◌++◌, any,
  ltb, leb, ◌==◌, length, if◌then◌else◌,
}
use ninja_vst3_plugin.Peer.Types.{
  RtcConfiguration, PeerConnection, Connection, Sdk, restore_relay, relay_escalated, relay_restored,
}
use ninja_vst3_plugin.Peer.State.{modify, emit, arm, is_current}

-- The code of a character in lower case, for the `i` flag of the pattern.
abbrev pub lower : ℕ → ℕ
lower c = if leb b'A' c && leb c b'Z' then c + 32 else c

-- Whether a text begins with the given lower case letters, in either case.
unfoldable pub begins : List ℕ → String → Bool
begins [] text = true
begins (k ∷ ks) String.[] = false
begins (k ∷ ks) (String.◌∷◌ c text) = if lower (code c) == k then begins ks text else false

-- /^turns?:/i
unfoldable pub is_turn_url : String → Bool
is_turn_url url =
    begins (b't' ∷ b'u' ∷ b'r' ∷ b'n' ∷ b':' ∷ []) url
    || begins (b't' ∷ b'u' ∷ b'r' ∷ b'n' ∷ b's' ∷ b':' ∷ []) url

unfoldable pub has_turn_server : RtcConfiguration → Bool
has_turn_server configuration = any (λ urls. any is_turn_url urls) configuration.ice_servers

-- current.iceServers.slice(1).concat(current.iceServers[0]), if there are two or more.
abbrev pub rotate : List (List String) → List (List String)
rotate [] = []
rotate (first ∷ rest) = if ltb 1 (length (first ∷ rest)) then rest ++ (first ∷ []) else first ∷ rest

abbrev pub current_configuration : Connection → Sdk → RtcConfiguration
current_configuration conn s = if conn.pc.reports then conn.pc.configuration else s.configuration

abbrev pub relay_configuration : RtcConfiguration → RtcConfiguration
relay_configuration current = record { ice_servers = rotate current.ice_servers; relay = true }

abbrev pub escalated : RtcConfiguration → Connection → Connection
escalated current conn = record conn {
  pc = record conn.pc { configuration = relay_configuration current };
  original_configuration = some current;
  relay_escalated = true;
}

-- The Boolean tells whether the connection now uses relays only.
unfoldable pub escalate_to_relay : ℕ → Sdk → Bool × Sdk
escalate_to_relay c s =
    let conn = s.objects c in
    let current = current_configuration conn s in
    if not conn.pc.configurable
    then (false, s)
    else if not (has_turn_server current)
    then (false, s)
    else if current.relay
    then (true, s)
    else if conn.pc.accepts
    then (true, emit (relay_escalated c) (modify c (escalated current) s))
    else (false, s)

abbrev pub is_set {ℓ} : {A : Type ℓ} → Option A → Bool
is_set none = false
is_set (some a) = true

unfoldable pub schedule_relay_restore : ℕ → Sdk → Sdk
schedule_relay_restore c s =
    let conn = s.objects c in
    if s.force_turn || not conn.relay_escalated || is_set conn.relay_restore_timer
    then s
    else modify c (λ other. record other { relay_restore_timer = some s.next_id })
        (arm s.relay_restore_delay (restore_relay c) s)

abbrev pub restored : RtcConfiguration → Connection → Connection
restored original conn = record conn {
  pc = record conn.pc { configuration = original };
  relay_escalated = false;
  original_configuration = none;
}

unfoldable pub restore_to : ℕ → Option RtcConfiguration → Sdk → Sdk
restore_to c none s = s
restore_to c (some original) s =
    if (s.objects c).pc.accepts then emit (relay_restored c) (modify c (restored original) s) else s

-- The callback of the restore timer.
unfoldable pub relay_restore_over : ℕ → Sdk → Sdk
relay_restore_over c s =
    let fired = modify c (λ conn. record conn { relay_restore_timer = none }) s in
    if is_current c fired
    then restore_to c (fired.objects c).original_configuration fired
    else fired
