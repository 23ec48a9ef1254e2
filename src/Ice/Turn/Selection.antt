-- ===== src/Ice/Turn/Selection.antt =====
-- `_processTURNs`: which servers of the ranked list are kept.
use ninja_vst3_plugin.Prelude.{
  ℕ, ◌+◌, ◌≤◌, ◌≡◌, refl, Bool, true, false, not, List, [], ◌∷◌, arith, filter, length, take,
}
use ninja_vst3_plugin.Prelude.Int.{ℤ}
use ninja_vst3_plugin.Ice.Turn.{TurnServer, ranked, select, process_turns}

abbrev pub udp_servers : List TurnServer → List TurnServer
udp_servers = filter (λ s. s.udp)

abbrev pub tcp_servers : List TurnServer → List TurnServer
tcp_servers = filter (λ s. not s.udp)

-- With TCP forced no UDP server is taken, and with two taken no third one.
udp-select_forced : (udp tcp : ℕ) (l : List TurnServer) → udp_servers (select true udp tcp l) ≡ []
unfolding select
udp-select_forced udp tcp [] = refl
udp-select_forced udp tcp (s ∷ l) =
    ground (arith, udp-select_forced udp tcp l, udp-select_forced udp (tcp + 1) l)

udp-select_full :
    (udp tcp : ℕ) (l : List TurnServer) → 2 ≤ udp → udp_servers (select false udp tcp l) ≡ []
unfolding select
udp-select_full udp tcp [] h = refl
udp-select_full udp tcp (s ∷ l) h =
    ground (arith, udp-select_full udp tcp l h, udp-select_full udp (tcp + 1) l h)

udp-select_one :
    (tcp : ℕ) (l : List TurnServer) → udp_servers (select false 1 tcp l) ≡ take 1 (udp_servers l)
unfolding select
udp-select_one tcp [] = refl
udp-select_one tcp (s ∷ l) =
    ground (
      arith,
      udp-select_one tcp l,
      udp-select_one (tcp + 1) l,
      udp-select_full 2 tcp l (omega arith),
    )

udp-select :
    (tcp : ℕ) (l : List TurnServer) → udp_servers (select false 0 tcp l) ≡ take 2 (udp_servers l)
unfolding select
udp-select tcp [] = refl
udp-select tcp (s ∷ l) =
    ground (arith, udp-select tcp l, udp-select (tcp + 1) l, udp-select_one tcp l)

tcp-select_full :
    (force : Bool) (udp tcp : ℕ) (l : List TurnServer)
    → 1 ≤ tcp
    → tcp_servers (select force udp tcp l) ≡ []
unfolding select
tcp-select_full force udp tcp [] h = refl
tcp-select_full force udp tcp (s ∷ l) h =
    ground (arith, tcp-select_full force udp tcp l h, tcp-select_full force (udp + 1) tcp l h)

tcp-select :
    (force : Bool) (udp : ℕ) (l : List TurnServer)
    → tcp_servers (select force udp 0 l) ≡ take 1 (tcp_servers l)
unfolding select
tcp-select force udp [] = refl
tcp-select force udp (s ∷ l) = ground (
  arith,
  tcp-select force udp l,
  tcp-select force (udp + 1) l,
  tcp-select_full force udp 1 l (omega arith),
)

-- The servers kept are the two nearest UDP servers, or none when TCP is forced, and the nearest TCP
-- server, in both cases fewer if the list has fewer: the first ones of the ranked list.
pub process_turns_nearest :
    (tz : ℤ) (turnlist : List TurnServer)
    → (udp_servers (process_turns tz false turnlist) ≡ take 2 (udp_servers (ranked tz turnlist)))
      × (udp_servers (process_turns tz true turnlist) ≡ [])
      × ((force : Bool)
          → tcp_servers (process_turns tz force turnlist)
            ≡ take 1 (tcp_servers (ranked tz turnlist)))
unfolding process_turns
process_turns_nearest tz turnlist = (
  udp-select 0 (ranked tz turnlist),
  udp-select_forced 0 0 (ranked tz turnlist),
  λ force. tcp-select force 0 (ranked tz turnlist),
)

length-select :
    (force : Bool) (udp tcp : ℕ) (l : List TurnServer)
    → udp ≤ 2
    → tcp ≤ 1
    → length (select force udp tcp l) + udp + tcp ≤ 3
unfolding select
length-select force udp tcp [] h k = omega arith
length-select force udp tcp (s ∷ l) h k = ground (
  arith,
  length-select force udp tcp l h k,
  length-select force (udp + 1) tcp l,
  length-select force udp (tcp + 1) l,
)

-- At most three servers are kept.
pub length-process_turns :
    (tz : ℤ) (force : Bool) (turnlist : List TurnServer)
    → length (process_turns tz force turnlist) ≤ 3
unfolding process_turns
length-process_turns tz force turnlist =
    omega (arith, length-select force 0 0 (ranked tz turnlist) (omega arith) (omega arith))
