-- ===== src/CompressedIp/Tests.antt =====
-- A context's first packet, while its parser takes two packet states and gives one back.
use libaribtlv.Base.{refl, arith, List, [], ◌∷◌, none}
use libaribtlv.Types.{default_limits}
use libaribtlv.PacketStates.{acquire_call, release_call}
use libaribtlv.CompressedIp.{
  MmtpCallback, on_state, on_package, on_other, CompressedIpParser, fresh, consume,
}
use libaribtlv.CompressedIp.Valid.{IsValid, Consumes, consume-IsValid}

abbrev unused : CompressedIpParser
unused = fresh none

unused-IsValid : IsValid default_limits unused
unused-IsValid = record {
  few_contexts = omega arith;
  few_states = omega arith;
  buffered = (refl, omega arith);
}

abbrev called_back : List MmtpCallback
called_back =
    on_state acquire_call
    ∷ on_package (7 ∷ [])
    ∷ on_state acquire_call
    ∷ on_other 3
    ∷ on_state release_call
    ∷ []

consume-IsValid_example :
    Consumes default_limits
      (consume default_limits called_back 3 (18 ∷ 52 ∷ 97 ∷ 1 ∷ 2 ∷ []) 188 unused)
consume-IsValid_example =
    consume-IsValid default_limits called_back 3 (18 ∷ 52 ∷ 97 ∷ 1 ∷ 2 ∷ []) 188 unused
      unused-IsValid
