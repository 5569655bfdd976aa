-- ===== src/Transport/Data.antt =====
-- include/aribtlv/types.hpp and src/tlv_transport_parser.hpp: the tables of the TLV-SI, the callbacks
-- they reach the client by, and the results of a parser that may refuse.
use libaribtlv.Base.{ℕ, Bool, List, [], ◌∷◌, ◌++◌, Option, none, some, Bytes}

pub record TlvDescriptor : Type 0 where
  pub tag : ℕ
  pub payload : Bytes
  pub section_offset : ℕ

pub record TlvNetworkStream : Type 0 where
  pub tlv_stream_id : ℕ
  pub original_network_id : ℕ
  pub descriptors : List TlvDescriptor

pub record TlvNetworkInformation : Type 0 where
  pub table_id : ℕ
  pub network_id : ℕ
  pub version : ℕ
  pub current_next : Bool
  pub last_section_number : ℕ
  pub network_descriptors : List TlvDescriptor
  pub streams : List TlvNetworkStream
  pub input_offset : ℕ

-- The addresses are arrays of sixteen bytes.
pub record AddressMapService : Type 0 where
  pub service_id : ℕ
  pub ip_version : ℕ
  pub source_address : Bytes
  pub source_prefix_length : ℕ
  pub destination_address : Bytes
  pub destination_prefix_length : ℕ
  pub private_data : Bytes

pub record AddressMap : Type 0 where
  pub table_id : ℕ
  pub table_id_extension : ℕ
  pub version : ℕ
  pub current_next : Bool
  pub last_section_number : ℕ
  pub services : List AddressMapService
  pub input_offset : ℕ

pub record RawSignallingTable : Type 0 where
  pub tlv_packet_type : ℕ
  pub table_id : ℕ
  pub table_id_extension : ℕ
  pub version : ℕ
  pub current_next : Bool
  pub section_number : ℕ
  pub last_section_number : ℕ
  pub raw_bytes : Bytes
  pub input_offset : ℕ

pub data DescriptorScope : Type 0 where
  network tlv_stream : DescriptorScope

pub record UnknownDescriptor : Type 0 where
  pub table_id : ℕ
  pub tag : ℕ
  pub scope : DescriptorScope
  pub tlv_stream_id : Option ℕ
  pub original_network_id : Option ℕ
  pub section_offset : ℕ
  pub payload : Bytes
  pub input_offset : ℕ

pub record NitSection : Type 0 where
  pub table_id : ℕ
  pub network_id : ℕ
  pub version : ℕ
  pub current_next : Bool
  pub section_number : ℕ
  pub last_section_number : ℕ
  pub network_descriptors : List TlvDescriptor
  pub streams : List TlvNetworkStream
  pub input_offset : ℕ

pub record AddressMapSection : Type 0 where
  pub table_id_extension : ℕ
  pub version : ℕ
  pub current_next : Bool
  pub section_number : ℕ
  pub last_section_number : ℕ
  pub services : List AddressMapService
  pub input_offset : ℕ

-- The texts of the error callback, in the order of the source.
pub data TableMessage : Type 0 where
  not_extended_syntax invalid_nit_header invalid_network_loop invalid_stream_loop_length :
      TableMessage
  invalid_stream_loop invalid_amt_header ipv4_prefix_above_32 ipv6_prefix_above_128 : TableMessage
  payload_not_consumed : TableMessage

-- The callbacks, with their arguments.
pub data TableEvent : Type 0 where
  table_error : TableMessage → ℕ → TableEvent
  raw_table : RawSignallingTable → TableEvent
  unknown_descriptor : UnknownDescriptor → TableEvent
  nit : TlvNetworkInformation → TableEvent
  address_map : AddressMap → TableEvent

-- A parser calls back on its way, and then refuses or gives a value.
abbrev pub Logged {ℓ} : Type ℓ → Type ℓ
Logged A = List TableEvent × Option A

module _ {ℓ} {A : Type ℓ} where
  abbrev pub give : A → Logged A
  give a = ([], some a)

  abbrev pub refuse : Logged A
  refuse = ([], none)

  abbrev pub refuse_with : TableMessage → ℕ → Logged A
  refuse_with m input_offset = (table_error m input_offset ∷ [], none)

  abbrev pub after : List TableEvent → Logged A → Logged A
  after es r = (es ++ r.0, r.1)

  -- A refusal is reported by the caller.
  abbrev pub or_report : TableMessage → ℕ → Logged A → Logged A
  or_report m input_offset (es, none) = (es ++ (table_error m input_offset ∷ []), none)
  or_report m input_offset (es, some a) = (es, some a)

abbrev pub and_then {ℓ κ} : {A : Type ℓ} {B : Type κ} → Logged A → (A → Logged B) → Logged B
and_then (es, none) f = (es, none)
and_then (es, some a) f = after es (f a)
