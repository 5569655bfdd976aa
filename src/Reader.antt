-- ===== src/Reader.antt =====
-- src/parser_common.hpp: big-endian numbers.
use libaribtlv.Base.{ℕ, ◌+◌, ◌*◌}

abbrev pub be16 : ℕ → ℕ → ℕ
be16 hi lo = hi * 256 + lo

abbrev pub be32 : ℕ → ℕ → ℕ → ℕ → ℕ
be32 a b c d = ((a * 256 + b) * 256 + c) * 256 + d
