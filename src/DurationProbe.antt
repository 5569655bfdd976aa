-- ===== src/DurationProbe.antt =====
-- include/aribtlv/duration_probe.hpp, src/duration_probe.cpp and src/duration_probe_range.hpp: the
-- length of a recording from ranges of its ends.
pub mod Range
pub mod Candidates
pub mod State
pub mod Callbacks
pub mod Requests
pub mod Valid
pub mod Progress
pub mod Finish
pub mod Push
pub mod Served
pub mod Refusals
pub mod Machine
