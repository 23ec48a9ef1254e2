-- ===== src/Ice/Setup.antt =====
-- js_sdk/vdoninja-sdk.js: `_fetchTURNServers`, `_setupTURNServers`, `_getICEConfiguration` and
-- `clearTURNCache`. The answer of the TURN service is an argument. A fetch that is under way is
-- counted, since clearing the cache does not stop it.
pub mod Cache
pub mod Config
use ninja_vst3_plugin.Prelude.{
  ℕ, suc, ◌+◌, ◌-◌, String, Bool, true, false, Option, none, some, List, [], ◌∷◌, ◌++◌, map, str_eq,
  if◌then◌else◌,
}
use ninja_vst3_plugin.Prelude.Int.{ℤ, pos, negsuc}
use ninja_vst3_plugin.Prelude.Table.{delete}
use ninja_vst3_plugin.Ice.Turn.{TurnServer, process_turns}
use ninja_vst3_plugin.Ice.Storage.{Storage, get_storage, set_storage}

-- `failed`: the request is refused or aborted. `answered ok servers`: `response.ok`, and
-- `data.servers` if it is an array.
pub data Response : Type 0 where
  failed : Response
  answered : Bool → Option (List TurnServer) → Response

abbrev server : String → String → String → ℤ → Bool → String → TurnServer
server username credential url tz udp locale = record {
  username = username;
  credential = credential;
  urls = url ∷ [];
  tz = tz;
  udp = udp;
  locale = locale;
  delta = 0;
}

abbrev pub fallback_servers : List TurnServer
fallback_servers =
    server "steve" "setupYourOwnPlease" "turns:www.turn.obs.ninja:443" (pos 300) false "cae1"
    ∷ server "steve" "setupYourOwnPlease" "turn:turn-cae1.vdo.ninja:3478" (pos 300) true "cae1"
    ∷ server "vdoninja" "theyBeSharksHere" "turn:turn-usw2.vdo.ninja:3478" (pos 480) true "usw2"
    ∷ server "vdoninja" "PolandPirat" "turn:turn-eu4.vdo.ninja:3478" (negsuc 69) true "pol1"
    ∷ server "steve" "setupYourOwnPlease" "turns:turn.obs.ninja:443" (negsuc 59) false "de1"
    ∷ server "steve" "setupYourOwnPlease" "turn:turn-eu1.vdo.ninja:3478" (negsuc 59) true "de1"
    ∷ server "vdoninja" "EastSideRepresentZ" "turn:turn-use1.vdo.ninja:3478" (pos 300) true "use1"
    ∷ []

-- The service that is asked; `none` is an environment with no `window.location`.
turn_url : Option String → String
turn_url none = "https://turnservers.vdo.ninja/"
turn_url (some hostname) =
    if str_eq hostname "rtc.ninja"
    then "https://turnservers.rtc.ninja/"
    else if str_eq hostname "vdo.socialstream.ninja"
    then "https://turnservers.socialstream.ninja/"
    else "https://turnservers.vdo.ninja/"

abbrev pub Cached : Type 0
Cached = Storage (List TurnServer)

-- The rest of `_fetchTURNServers` after the request. `now` is the time at which it is answered.
pub receive : ℕ → ℕ → Response → Cached → List TurnServer × Cached
receive ttl now failed cache = (fallback_servers, cache)
receive ttl now (answered false body) cache = (fallback_servers, cache)
receive ttl now (answered true none) cache = (fallback_servers, cache)
receive ttl now (answered true (some servers)) cache =
    (servers, set_storage "turnlist" servers ttl now cache)

-- The whole fetch, from `asked` to `now`: the cache if it holds a list, else the service.
pub fetch_turn_servers : ℕ → ℕ → ℕ → Response → Cached → List TurnServer × Cached
unfolding receive
fetch_turn_servers ttl asked now response cache =
    let (cached, cache') = get_storage "turnlist" asked cache in
    elim cached [ some servers ↦ (servers, cache') | none ↦ receive ttl now response cache' ]

-- `this.turnServers`: null, false or an array.
pub data TurnSetting : Type 0 where
  automatic : TurnSetting
  disabled : TurnSetting
  custom : List TurnServer → TurnSetting

pub record TurnState : Type 0 where
  pub turn_servers : TurnSetting
  pub turn_list : Option (List TurnServer)
  pub turn_promise : Bool
  pub in_flight : ℕ
  pub cache : Storage (List TurnServer)

-- `_setupTURNServers` up to its `await`; with a custom or disabled setting, the whole of it.
unfoldable pub setup_turn_servers : TurnState → TurnState
setup_turn_servers s = elim s.turn_servers [
  | disabled ↦ record s { turn_list = some [] }
  | custom servers ↦ record s { turn_list = some servers }
  | automatic ↦
      if s.turn_promise then s else record s { turn_promise = true; in_flight = suc s.in_flight }
]

-- The callback of the fetch: `_turnList` is what `_processTURNs` keeps. The fetch began at `asked`.
unfoldable pub fetch_settled : ℤ → Bool → ℕ → ℕ → ℕ → Response → TurnState → TurnState
fetch_settled tz force_tcp ttl asked now response s =
    let (servers, cache') = fetch_turn_servers ttl asked now response s.cache in
    record s {
      turn_list = some (process_turns tz force_tcp servers);
      in_flight = s.in_flight - 1;
      cache = cache';
    }

unfoldable pub clear_turn_cache : TurnState → TurnState
clear_turn_cache s = record s {
  cache =
      if s.cache.available
      then record s.cache { items = delete "turnlist" s.cache.items }
      else s.cache;
  turn_list = none;
  turn_promise = false;
}

pub data IceServer : Type 0 where
  stun : String → IceServer
  turn : TurnServer → IceServer

pub record IceConfiguration : Type 0 where
  pub ice_servers : List IceServer
  pub relay_only : Bool

abbrev pub turn_entries : Option (List TurnServer) → List IceServer
turn_entries none = []
turn_entries (some servers) = map turn servers

-- Whether `_getICEConfiguration` first sets the servers up.
unfoldable pub needs_setup : TurnState → Bool
needs_setup s = elim s.turn_list [ none ↦ true | some _ ↦ false ]

-- The configuration that it builds from the state after that.
unfoldable pub ice_configuration : List String → Bool → TurnState → IceConfiguration
ice_configuration stun_servers force_turn s = record {
  ice_servers = map stun stun_servers ++ turn_entries s.turn_list;
  relay_only = force_turn;
}
