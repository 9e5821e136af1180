-- ===== src/Vde2/Handshake/Traffic.antt =====
-- transport_vde2.c: packets that are written to a connection and sent, in the tables of the transport, and
-- the handlers of all events.
use vde.Base.{ℕ, Option, none, some, Bool, if◌then◌else◌, is_some, is_done, Status, ◌≡◌, CString}
use vde.Base.Int.{ℤ}
use vde.Glib.{Glib}
use vde.Packet.{Pkt}
use vde.Packet.Laws.{IsValid}
use vde.Vde2.{Vde2Conn, Socket, vde2_conn_write, vde2_conn_write_data_event}
use vde.Vde2.Handshake.{
  Backend, Event, Sys, GotRequest, GotCtl, SendAnswers, get_request, send_request, read_ctl,
  read_data, write_data, put_conn, event_add, event_del, close_backend, vde2_srv_get_request,
  vde2_srv_send_request, vde2_conn_read_ctl_event,
}
use vde.Vde2.Reading.{vde2_conn_read_data_event}

-- What the handlers read, and the users that they call. A callback on a packet that is sent writes to its
-- own connection only.
pub record Surroundings (S : Type 0) : Type 0 where
  pub got : GotRequest
  pub access : CString → Bool
  pub room : Bool
  pub event : Option ℕ
  pub answers : SendAnswers
  pub path_of : CString → ℕ → CString
  pub accept_cb : ℕ → Sys → Sys
  pub got_ctl : GotCtl
  pub call_error : Sys → Sys × Status
  pub head_sz : ℕ
  pub tail_sz : ℕ
  pub len : ℤ
  pub call_read : ℕ → Sys → Sys × Status
  pub sock : Socket S
  pub maxtries : ℕ
  pub user : S

module _ ⦃g : Glib⦄ where
  -- vde2_conn_write of the connection; the event that it may add is `event`.
  unfoldable pub write_at : Option Pkt → Option ℕ → ℕ → Backend → Pkt → Sys → Sys × Status
  write_at new event a c pkt s =
      let (sending, st) = vde2_conn_write new event c.sending pkt in
      let s' = put_conn a (some (record c { sending = sending })) s in
      if is_some c.sending.data_ev_wr
      then (s', st)
      else if is_done st
      then (event_add event (record { fd = c.data_fd; handler = write_data; arg = a }) s', st)
      else (s', st)

  -- vde2_conn_write_data_event of the connection, by what it leaves of it.
  unfoldable pub sent_at : Option Vde2Conn → ℕ → Backend → Sys → Sys
  unfolding close_backend
  sent_at none a c s = close_backend a c s
  sent_at (some v) a c s =
      put_conn a (some (record c { sending = v }))
        (if is_some v.data_ev_wr then s else event_del c.sending.data_ev_wr s)

  -- The handler of an event is called; `n` is the fuel of the loop that sends.
  unfoldable pub fire : {S : Type 0} → Surroundings S → ℕ → Event → Sys → Option Sys
  unfolding sent_at vde2_srv_get_request vde2_srv_send_request vde2_conn_read_ctl_event
      vde2_conn_read_data_event
  fire o n e s = elim e.handler [
    | get_request ↦ vde2_srv_get_request o.got o.access o.room o.event e.arg s
    | send_request ↦ vde2_srv_send_request o.answers o.path_of o.accept_cb e.arg s
    | read_ctl ↦ vde2_conn_read_ctl_event o.got_ctl o.call_error e.arg s
    | read_data ↦ vde2_conn_read_data_event o.head_sz o.tail_sz o.len o.call_read e.arg s
    | write_data ↦ elim (s.conns e.arg) [
      | none ↦ none
      | some c ↦ elim (vde2_conn_write_data_event o.sock o.maxtries n c.sending o.user) [
        | none ↦ none
        | some (left, user) ↦ some (sent_at left e.arg c s)
      ]
    ]
  ]

  -- Users of connections write valid packets to connections that are there, where an event can be added.
  pub data Writes : Sys → Sys → Type 0 where
    no_more : {s : Sys} → Writes s s
    and_write :
        {s t : Sys} (new : Option Pkt) (event a : ℕ) (c : Backend) (pkt : Pkt)
        → s.conns a ≡ some c
        → IsValid pkt
        → Writes (write_at new (some event) a c pkt s).0 t
        → Writes s t
