-- ===== src/Types.antt =====
-- include/aribtlv/types.hpp: the error codes, the limits and the time stamps that the components
-- share.
use libaribtlv.Base.{ℕ, ◌*◌, Bool, true}
use libaribtlv.Base.Int.{ℤ}

pub data ErrorCode : Type 0 where
  malformed_input unsupported_feature discontinuity resource_limit : ErrorCode

pub record Limits : Type 0 where
  pub max_tlv_payload : ℕ
  pub max_resync_buffer : ℕ
  pub max_signalling_message : ℕ
  pub max_access_unit : ℕ
  pub max_ttml_sample : ℕ
  pub max_contexts : ℕ
  pub max_packet_states : ℕ
  pub collect_application_resources : Bool
  pub max_application_pending_units : ℕ
  pub max_application_pending_bytes : ℕ
  pub max_application_resource : ℕ
  pub max_application_resources : ℕ

abbrev pub default_limits : Limits
default_limits = record {
  max_tlv_payload = 65535;
  max_resync_buffer = 1024 * 1024;
  max_signalling_message = 1024 * 1024;
  max_access_unit = 16 * 1024 * 1024;
  max_ttml_sample = 4 * 1024 * 1024;
  max_contexts = 64;
  max_packet_states = 256;
  collect_application_resources = true;
  max_application_pending_units = 4096;
  max_application_pending_bytes = 64 * 1024 * 1024;
  max_application_resource = 16 * 1024 * 1024;
  max_application_resources = 4096;
}

-- A time in units of 1 / timescale seconds; the value is a std::int64_t.
pub record Timestamp : Type 0 where
  pub value : ℤ
  pub timescale : ℕ

pub data Codec : Type 0 where
  hevc aac_latm ttml : Codec

pub data TrackKind : Type 0 where
  video audio subtitle : TrackKind
