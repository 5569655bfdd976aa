-- ===== src/PacketStates.antt =====
-- src/compressed_ip_parser.cpp, the callbacks that CompressedIpParser::context gives to an MMTP parser
-- to take a packet state and to give one back, of a number that all contexts share.
pub mod Limit
use libaribtlv.Types.{Limits}
use libaribtlv.Base.{ℕ, ◌+◌, ◌-◌, Bool, true, false, not, List, [], ◌∷◌, leb, ◌==◌, if◌then◌else◌}

-- `acquire_state_` and `release_state_`, in the order in which a parser calls them.
pub data StateCall : Type 0 where
  acquire_call release_call : StateCall

unfoldable pub acquire_state : Limits → ℕ → ℕ × Bool
acquire_state lim active =
    if leb lim.max_packet_states active then (active, false) else (active + 1, true)

unfoldable pub release_state : ℕ → ℕ
release_state active = if not (active == 0) then active - 1 else active

abbrev pub run_call : Limits → StateCall → ℕ → ℕ
run_call lim acquire_call active = (acquire_state lim active).0
run_call lim release_call active = release_state active

unfoldable pub run_calls : Limits → List StateCall → ℕ → ℕ
run_calls lim [] active = active
run_calls lim (c ∷ cs) active = run_calls lim cs (run_call lim c active)
