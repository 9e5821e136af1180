-- ===== src/Ctrl/Write/Tests.antt =====
-- Messages of concrete bytes: the theorems at their inputs.
use vde.Base.{
  backwards, ℕ, ◌+◌, ◌≡◌, refl, true, some, List, [], ◌∷◌, ◌++◌, ltb, if◌then◌else◌, All, Status,
  done, fail, eagain, arith, CString,
}
use vde.Glib.Instance.{glib}
use vde.Packet.{Pkt}
use vde.Packet.Tests.{sent}
use vde.Ctrl.Write.{ctrl_engine_conn_write}
use vde.Ctrl.Write.Queue.{send_all}
use vde.Ctrl.Write.Chunks.{carried, IsSmall}
use vde.Ctrl.Write.Delivery.{sent_all, ctrl_engine_conn_write-delivers}

-- A connection that takes two packets; the state counts them.
abbrev take_two : Pkt → ℕ → ℕ × Status
take_two pkt n = if ltb n 2 then (n + 1, done) else (n, fail eagain)

abbrev message : CString
message = 1 ∷ 2 ∷ 3 ∷ 4 ∷ 5 ∷ 6 ∷ 7 ∷ []

conn_write_example :
    (new : List Pkt) × (carried new ≡ message ++ (0 ∷ []))
    × All (IsSmall 3) new
    × (ctrl_engine_conn_write take_two (λ n. true) 3 (some message) (sent ∷ []) 0
        ≡ sent_all (send_all take_two (backwards (sent ∷ []) ++ new) 0))
conn_write_example =
    ctrl_engine_conn_write-delivers take_two (λ n. true) 3 message (sent ∷ []) 0 (λ n. refl)
      (omega arith) (omega arith) (omega arith)
