-- ===== src/Packet/Tests.antt =====
-- Packets at concrete contents: the theorems at their inputs.
use vde.Base.{◌≡◌, refl, [], ◌∷◌, arith}
use vde.Packet.{Pkt, bytes, payload_of}
use vde.Packet.Laws.{IsValid}

-- Two bytes of head space, the payload 5 6 7, one byte of tail space
abbrev pub sent : Pkt
sent = record {
  hdr = record { version = 3; type = 1; pkt_len = 3 };
  head = 4;
  payload = 6;
  tail = 9;
  data_size = 10;
  memory = bytes (0 ∷ 0 ∷ 5 ∷ 6 ∷ 7 ∷ []);
}

sent-payload : payload_of sent ≡ 5 ∷ 6 ∷ 7 ∷ []
sent-payload = refl

pub sent-IsValid : IsValid sent
sent-IsValid = record {
  head_at = refl;
  payload_at = omega arith;
  tail_at = omega arith;
  size_at = omega arith;
}
