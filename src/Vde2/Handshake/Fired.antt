-- ===== src/Vde2/Handshake/Fired.antt =====
-- transport_vde2.c: each handler returns, with users that only write, and keeps the events and the queues.
use vde.Base.{
  ℕ, ◌+◌, ◌≤◌, ◌≡◌, refl, true, false, Option, none, some, ◌&&◌, leb, if◌then◌else◌, is_some, arith,
  Bool-cases, Option-cases, inl, inr, Status,
}
use vde.Base.Int.{ℤ}
use vde.Glib.{Glib}
use vde.Vde2.{
  maxqlen, Vde2Conn, Socket, Ended, err_close, goes_on, send_loop, vde2_conn_write_data_event,
}
use vde.Vde2.Callbacks.{IsBounded}
use vde.Vde2.Sending.{Continues, vde2_conn_write_data_event_lem}
use vde.Vde2.Reading.{eth_hdr_sz, to_size, to_pkt_len, tell_read, vde2_conn_read_data_event}
use vde.Vde2.Handshake.{
  Backend, Event, Sys, Handler, get_request, send_request, read_ctl, read_data, write_data, GotCtl,
  ctl_again, ctl_failed, ctl_bytes, ctl_closed, tell_closed, vde2_conn_read_ctl_event,
}
use vde.Vde2.Handshake.Stages.{fits, stage_of}
use vde.Vde2.Handshake.Steps.{IsSafe, close_backend-IsSafe}
use vde.Vde2.Handshake.Writing.{told-IsSafe, sent_at-IsSafe}
use vde.Vde2.Handshake.Firing.{get_request-IsSafe, send_request-IsSafe}
use vde.Vde2.Handshake.Traffic.{Surroundings, sent_at, fire, Writes}

module _ ⦃g : Glib⦄ where
  read_ctl-IsSafe :
      (got : GotCtl) (call_error : Sys → Sys × Status) (a : ℕ) (c : Backend) (s : Sys)
      → ((t : Sys) → Writes t (call_error t).0)
      → IsSafe s
      → s.conns a ≡ some c
      → (s' : Sys) × (vde2_conn_read_ctl_event got call_error a s ≡ some s') × IsSafe s'
  unfolding vde2_conn_read_ctl_event tell_closed
  read_ctl-IsSafe ctl_again call_error a c s wrote o here = (s, refl, o)
  read_ctl-IsSafe ctl_bytes call_error a c s wrote o here = (s, refl, o)
  read_ctl-IsSafe ctl_failed call_error a c s wrote o here =
      told-IsSafe call_error a c s (wrote s) o here
  read_ctl-IsSafe ctl_closed call_error a c s wrote o here =
      told-IsSafe call_error a c s (wrote s) o here

  read_data-IsSafe :
      (head_sz tail_sz : ℕ) (len : ℤ) (call_read : ℕ → Sys → Sys × Status) (a : ℕ) (c : Backend)
      (s : Sys)
      → ((n : ℕ) (t : Sys) → Writes t (call_read n t).0)
      → IsSafe s
      → s.conns a ≡ some c
      → (s' : Sys) × (vde2_conn_read_data_event head_sz tail_sz len call_read a s ≡ some s')
        × IsSafe s'
  unfolding vde2_conn_read_data_event tell_read
  read_data-IsSafe head_sz tail_sz len call_read a c s wrote o here =
      elim (Bool-cases (leb head_sz 4 && leb tail_sz 0)) [
        | inr large ↦ rw large (s, refl, o)
        | inl fits ↦ elim (Bool-cases (leb eth_hdr_sz (to_size len))) [
          | inr short ↦ rw (fits, short) (s, refl, o)
          | inl frame ↦
              rw (fits, frame)
                (told-IsSafe (call_read (to_pkt_len len)) a c s (wrote (to_pkt_len len) s) o here)
        ]
      ]

  -- Sending leaves the event of a connection, or deletes it.
  left_event :
      {S : Type 0} (sock : Socket S) (maxtries n : ℕ) (v v' : Vde2Conn) (u u' : S)
      → vde2_conn_write_data_event sock maxtries n v u ≡ some (some v', u')
      → is_some v'.data_ev_wr ≡ true
      → v'.data_ev_wr ≡ v.data_ev_wr
  unfolding vde2_conn_write_data_event
  left_event {S} sock maxtries n v v' u u' ran event =
      by_end (send_loop sock maxtries n v.pkt_queue u) ran
    where
      by_end :
          (x : Option (S × Ended))
          → ◌≡◌ {A = Option (Option Vde2Conn × S)}
              (elim x [
                | none ↦ none
                | some (s', ended) ↦ elim ended [
                  | err_close ↦ some (none, s')
                  | goes_on queue drained ↦ some (
                    some (record {
                      data_ev_wr = if drained then none else v.data_ev_wr;
                      pkt_queue = queue;
                    }),
                    s',
                  )
                ]
              ])
              (some (some v', u'))
          → v'.data_ev_wr ≡ v.data_ev_wr
      by_end none e = absurd (ground (arith, e))
      by_end (some (s', err_close)) e = absurd (ground (arith, e))
      by_end (some (s', goes_on queue true)) e = absurd (ground (arith, e, event))
      by_end (some (s', goes_on queue false)) e = ground (arith, e)

  write_data-IsSafe :
      {S : Type 0} (o : Surroundings S) (left : S → ℕ) (n a : ℕ) (c : Backend) (fd : ℤ) (s : Sys)
      → IsBounded o.sock left
      → maxqlen + left o.user + 1 ≤ n
      → IsSafe s
      → s.conns a ≡ some c
      → is_some c.sending.data_ev_wr ≡ true
      → (s' : Sys) × (fire o n (record { fd = fd; handler = write_data; arg = a }) s ≡ some s')
        × IsSafe s'
  unfolding fire sent_at
  write_data-IsSafe {S} o left n a c fd s bounded enough safe here event =
      let ready = safe.ready a c here in
      let (r, u, ran, rest) =
        vde2_conn_write_data_event_lem o.sock o.maxtries left bounded n c.sending o.user ready event
          (omega (arith, enough, ready.bounded)) in
      (sent_at r a c s, ground (arith, here, ran), by_rest r u ran rest)
    where
      by_rest :
          (r : Option Vde2Conn) (u : S)
          → vde2_conn_write_data_event o.sock o.maxtries n c.sending o.user ≡ some (r, u)
          → Continues c.sending r
          → IsSafe (sent_at r a c s)
      by_rest none u ran rest = close_backend-IsSafe a c s safe here
      by_rest (some v) u ran rest =
          sent_at-IsSafe v a c s safe here rest.0
            (left_event o.sock o.maxtries n c.sending v o.user u ran)

  -- What the transport relies on of the users: they answer by writes, and have a bound on what they still
  -- write while packets are sent.
  pub record IsUser {S : Type 0} (o : Surroundings S) (left : S → ℕ) : Type 0 where
    pub accepts : (conn : ℕ) (s : Sys) → Writes s (o.accept_cb conn s)
    pub errors : (s : Sys) → Writes s (o.call_error s).0
    pub reads : (n : ℕ) (s : Sys) → Writes s (o.call_read n s).0
    pub bounded : IsBounded o.sock left

  pub fire-IsSafe :
      {S : Type 0} (o : Surroundings S) (left : S → ℕ) (n h : ℕ) (e : Event) (s : Sys)
      → IsUser o left
      → maxqlen + left o.user + 1 ≤ n
      → IsSafe s
      → s.events h ≡ some e
      → (s' : Sys) × (fire o n e s ≡ some s') × IsSafe s'
  unfolding fire
  fire-IsSafe o left n h e s user enough safe fires =
      let (c, here, fit) = stage_of s h e safe.staged fires in by_handler e.handler c here fit
    where
      by_handler :
          (k : Handler) (c : Backend)
          → s.conns e.arg ≡ some c
          → fits k c h ≡ true
          → (s' : Sys) × (fire o n (record e { handler = k }) s ≡ some s') × IsSafe s'
      by_handler get_request c here fit =
          get_request-IsSafe o.got o.access o.room o.event e.arg c s safe here
            (ground (arith, fit, Option-cases c.data_ev_rd))
      by_handler send_request c here fit =
          send_request-IsSafe o.answers o.path_of o.accept_cb e.arg c s user.accepts safe here
            (ground (arith, fit, Option-cases c.data_ev_rd))
      by_handler read_ctl c here fit =
          read_ctl-IsSafe o.got_ctl o.call_error e.arg c s user.errors safe here
      by_handler read_data c here fit =
          read_data-IsSafe o.head_sz o.tail_sz o.len o.call_read e.arg c s user.reads safe here
      by_handler write_data c here fit =
          write_data-IsSafe o left n e.arg c e.fd s user.bounded enough safe here
            (ground (arith, fit, Option-cases c.sending.data_ev_wr))
