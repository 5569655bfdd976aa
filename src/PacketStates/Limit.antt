-- ===== src/PacketStates/Limit.antt =====
-- The number of packet states stays within its limit.
use libaribtlv.Types.{Limits}
use libaribtlv.Base.{true, ◌+◌, ◌≡◌, ℕ, ◌≤◌, List, [], ◌∷◌, arith}
use libaribtlv.PacketStates.{
  StateCall, acquire_call, release_call, acquire_state, release_state, run_call, run_calls,
}

pub acquire_state-Within :
    (lim : Limits) (active : ℕ)
    → active ≤ lim.max_packet_states
    → (acquire_state lim active).0 ≤ lim.max_packet_states
unfolding acquire_state
acquire_state-Within lim active h = ground arith

pub acquire_state-takes :
    (lim : Limits) (active : ℕ)
    → (acquire_state lim active).1 ≡ true
    → (acquire_state lim active).0 ≡ active + 1
unfolding acquire_state
acquire_state-takes lim active h = ground arith

release_state-Within : (active n : ℕ) → active ≤ n → release_state active ≤ n
unfolding release_state
release_state-Within active n h = ground arith

pub run_calls-Within :
    (lim : Limits) (cs : List StateCall) (active : ℕ)
    → active ≤ lim.max_packet_states
    → run_calls lim cs active ≤ lim.max_packet_states
unfolding run_calls
run_calls-Within lim [] active h = h
run_calls-Within lim (c ∷ cs) active h = run_calls-Within lim cs (run_call lim c active) (step c)
  where
    step : (c : StateCall) → run_call lim c active ≤ lim.max_packet_states
    step acquire_call = acquire_state-Within lim active h
    step release_call = release_state-Within active lim.max_packet_states h
