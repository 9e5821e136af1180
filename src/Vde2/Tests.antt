-- ===== src/Vde2/Tests.antt =====
-- A connection with two packets in its queue: the theorems at its inputs.
use vde.Base.{
  List, ◌++◌, if◌then◌else◌, ◌≡◌, refl, true, Option, some, [], ◌∷◌, ltb, leb, length, ◌&&◌,
  is_done, done, arith, eagain,
}
use vde.Glib.Instance.{glib}
use vde.Packet.{Pkt, zeroed_pkt}
use vde.Packet.Tests.{sent, sent-IsValid}
use vde.Vde2.{
  maxqlen, pkt_data_sz, all, Vde2Conn, Socket, vde2_conn_write, vde2_conn_write_data_event, error,
}
use vde.Vde2.Laws.{IsReady, vde2_conn_write_lem}
use vde.Vde2.Callbacks.{IsBounded}
use vde.Vde2.Trace.{IsRecorded}
use vde.Vde2.Trace.Handler.{Sends, write_data_event-Sends}

abbrev waiting : Vde2Conn
waiting = record {
  data_ev_wr = some 8;
  pkt_queue = record { numtries = 1; pkt = sent } ∷ record { numtries = 0; pkt = sent } ∷ [];
}

waiting-IsReady : IsReady waiting
waiting-IsReady = record { bounded = omega arith; watched = refl }

conn_write_queue_example :
    is_done (vde2_conn_write (some zeroed_pkt) (some 8) waiting sent).1
    ≡ (ltb (length waiting.pkt_queue) maxqlen && (leb sent.data_size pkt_data_sz && true))
conn_write_queue_example =
    (vde2_conn_write_lem (some zeroed_pkt) 8 waiting sent waiting-IsReady sent-IsValid).1

-- It takes a packet, and is then not ready; the log has the packets that it was given.
abbrev takes_one : Socket (List Pkt)
takes_one = record {
  sendto = λ p s. (s ++ (p ∷ []), if leb 1 (length s) then error eagain else all);
  call_write = λ p q s. (q, s, done);
  call_error = λ p e q s. (q, s, done);
}

takes_one-IsBounded : IsBounded takes_one (λ s. 0)
takes_one-IsBounded = record {
  sends = λ p s. omega arith;
  writes = λ p q s. ([], refl, omega arith, refl);
  errors = λ p e q s. ([], refl, omega arith, refl);
}

takes_one-IsRecorded : IsRecorded takes_one (λ s. s) (λ s. [])
takes_one-IsRecorded = record {
  sends_tried = λ p s. refl;
  sends_wrote = λ p s. refl;
  writes = λ p q s. ([], refl, refl, refl);
  errors = λ p e q s. ([], refl, refl, refl);
}

write_event_example :
    (r : Option Vde2Conn) × (s' : List Pkt) × (vde2_conn_write_data_event takes_one 10 5 waiting []
      ≡ some (r, s'))
    × Sends takes_one 10 (λ s. s) (λ s. []) takes_one-IsRecorded waiting [] r s'
write_event_example =
    write_data_event-Sends takes_one 10 (λ s. s) (λ s. []) takes_one-IsRecorded (λ s. 0) 5 waiting
      [] takes_one-IsBounded waiting-IsReady refl (omega arith)
