-- ===== src/Ice/Turn.antt =====
-- js_sdk/vdoninja-sdk.js: `_compareTurnDeltas` and `_processTURNs`, which choose the TURN servers
-- by timezone. Timezones are whole minutes. `Array.prototype.sort` is stable, and is modelled as a
-- stable insertion sort by the comparison function that it is given.
pub mod Ranking
pub mod Selection
use ninja_vst3_plugin.Prelude.{
  ℕ, suc, ◌+◌, ◌*◌, String, Bool, true, false, not, ◌&&◌, List, [], ◌∷◌, map, ltb, if◌then◌else◌,
}
use ninja_vst3_plugin.Prelude.Int.{ℤ, pos, negsuc, sub_ℕ, ◌-ℤ◌, abs_ℤ, is_nonpos}

pub record TurnServer : Type 0 where
  pub username : String
  pub credential : String
  pub urls : List String
  pub tz : ℤ
  pub udp : Bool
  pub locale : String
  pub delta : ℕ

-- a.delta - b.delta
unfoldable pub compare_turn_deltas : TurnServer → TurnServer → ℤ
compare_turn_deltas a b = sub_ℕ a.delta b.delta

-- The loop body that sets `turnlist[i].delta`: the shorter way round the clock.
unfoldable pub tz_delta : ℤ → ℤ → ℕ
tz_delta server_tz tz =
    let delta = abs_ℤ (server_tz -ℤ tz) in
    let around = abs_ℤ (sub_ℕ delta (60 * 24)) in if ltb around delta then around else delta

abbrev pub set_delta : ℤ → TurnServer → TurnServer
set_delta tz turn = record turn { delta = tz_delta turn.tz tz }

-- turnlist.sort(this._compareTurnDeltas)
pub insert : TurnServer → List TurnServer → List TurnServer
unfolding compare_turn_deltas
insert x [] = x ∷ []
insert x (y ∷ ys) = if is_nonpos (compare_turn_deltas x y) then x ∷ y ∷ ys else y ∷ insert x ys

pub sort : List TurnServer → List TurnServer
unfolding insert
sort [] = []
sort (x ∷ xs) = insert x (sort xs)

-- The list after the first loop and the sort.
pub ranked : ℤ → List TurnServer → List TurnServer
unfolding sort tz_delta
ranked tz turnlist = sort (map (set_delta tz) turnlist)

-- The second loop, with its counters: up to two UDP servers and one TCP server.
pub select : Bool → ℕ → ℕ → List TurnServer → List TurnServer
select force_tcp udp tcp [] = []
select force_tcp udp tcp (turn ∷ rest) =
    let skip = select force_tcp udp tcp rest in
    let take_udp = turn ∷ select force_tcp (udp + 1) tcp rest in
    let take_tcp = turn ∷ select force_tcp udp (tcp + 1) rest in
    if force_tcp && turn.udp
    then skip
    else if turn.udp && ltb udp 2
    then take_udp
    else if not turn.udp && ltb tcp 1
    then take_tcp
    else skip

unfoldable pub process_turns : ℤ → Bool → List TurnServer → List TurnServer
unfolding ranked select
process_turns tz force_tcp turnlist = select force_tcp 0 0 (ranked tz turnlist)
