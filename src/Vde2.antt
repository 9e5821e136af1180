-- ===== src/Vde2.antt =====
-- transport_vde2.c, the sending of packets: vde2_conn_write queues a packet, and
-- vde2_conn_write_data_event sends those that are queued when the socket can take them. What sendto
-- and the callbacks of the connection return is a parameter.
pub mod Laws
pub mod Callbacks
pub mod Sending
pub mod Trace
pub mod Handshake
pub mod Listen
pub mod Reading
pub mod Tests
use vde.Base.{
  ℕ, zero, suc, ◌+◌, ◌%◌, ◌^◌, Bool, true, false, Option, none, some, List, [], ◌∷◌, ◌==◌, ltb, leb,
  if◌then◌else◌, is_some, Status, done, fail, eagain, ebadmsg, enomem, epipe, Errno,
}
use vde.Glib.{Glib}
use vde.Packet.{Pkt, vde_pkt_compact_cpy}
use vde.Connection.{ConnError, conn_write_closed, conn_write_delay}

abbrev pub maxqlen : ℕ
maxqlen = 4192

-- The size of a header, 4 bytes of head space, and of struct eth_frame
abbrev pub pkt_data_sz : ℕ
pkt_data_sz = 4 + 4 + 1518 + 0

pub record Vde2Pkt : Type 0 where
  pub numtries : ℕ
  pub pkt : Pkt

-- The part of vde2_conn that sending changes; `data_ev_wr` is the event, NULL while there is none.
pub record Vde2Conn : Type 0 where
  pub data_ev_wr : Option ℕ
  pub pkt_queue : List Vde2Pkt

module _ ⦃g : Glib⦄ where
  -- `new` is the memory that vde_cached_alloc returns, and `event` what vde_context_event_add returns.
  pub vde2_conn_write : Option Pkt → Option ℕ → Vde2Conn → Pkt → Vde2Conn × Status
  vde2_conn_write new event v2_conn pkt =
      if leb maxqlen (g.queue_get_length v2_conn.pkt_queue)
      then (v2_conn, fail eagain)
      else if ltb pkt_data_sz pkt.data_size
      then (v2_conn, fail ebadmsg)
      else elim new [
        | none ↦ (v2_conn, fail enomem)
        | some memory ↦ (
          record {
            data_ev_wr = if is_some v2_conn.data_ev_wr then v2_conn.data_ev_wr else event;
            pkt_queue =
                g.queue_push_head v2_conn.pkt_queue
                  (record { numtries = 0; pkt = vde_pkt_compact_cpy memory pkt });
          },
          done,
        )
      ]

-- What sendto returns: all bytes, an error, or fewer bytes.
pub data Sent : Type 0 where
  all : Sent
  error : Errno → Sent
  part : Sent

-- EAGAIN is treated as a part that was sent.
pub data Outcome : Type 0 where
  complete fatal retry : Outcome

abbrev pub outcome_of : Sent → Outcome
outcome_of all = complete
outcome_of part = retry
outcome_of (error eagain) = retry
outcome_of (error _) = fatal

abbrev pub is_epipe : Status → Bool
is_epipe (fail epipe) = true
is_epipe _ = false

-- sendto, and the callbacks for a sent packet and for an error. A callback may write to the connection,
-- so it is given the queue and returns it.
pub record Socket (S : Type 0) : Type 0 where
  pub sendto : Pkt → S → S × Sent
  pub call_write : Pkt → List Vde2Pkt → S → List Vde2Pkt × S × Status
  pub call_error : Pkt → ConnError → List Vde2Pkt → S → List Vde2Pkt × S × Status

-- How the loop ends: the connection is closed (`err_close`), or it goes on with a queue; `drained` is
-- v2_pkt == NULL.
pub data Ended : Type 0 where
  err_close : Ended
  goes_on : List Vde2Pkt → Bool → Ended

module _ ⦃g : Glib⦄ {S : Type 0} (sock : Socket S) (maxtries : ℕ) where
  pub give_up : List Vde2Pkt → Vde2Pkt → S → S × Ended
  give_up queue v2_pkt s =
      let tries = (v2_pkt.numtries + 1) % 2 ^ 32 in
      let (queue', s', st) = sock.call_error v2_pkt.pkt conn_write_delay queue s in
      if ltb maxtries tries
      then (s', if is_epipe st then err_close else goes_on queue' false)
      else (s, goes_on (g.queue_push_tail queue (record v2_pkt { numtries = tries })) false)

  -- The fuel bounds the packets that are sent, also those that callbacks add.
  pub send_loop : ℕ → List Vde2Pkt → S → Option (S × Ended)
  unfolding give_up
  send_loop zero queue s = none
  send_loop (suc n) queue s = elim (g.queue_pop_tail queue) [
    | none ↦ some (s, goes_on queue true)
    | some (v2_pkt, queue') ↦
        let (s1, len) = sock.sendto v2_pkt.pkt s in
        let (queue2, s2, st) = sock.call_write v2_pkt.pkt queue' s1 in
        let (queue3, s3, st') = sock.call_error v2_pkt.pkt conn_write_closed queue' s1 in
        let rest = send_loop n queue2 s2 in
        elim (outcome_of len) [
          | complete ↦ if is_epipe st then some (s2, err_close) else rest
          | fatal ↦ some (s3, if is_epipe st' then err_close else goes_on queue3 false)
          | retry ↦ some (give_up queue' v2_pkt s1)
        ]
  ]

  -- `none` in the first part is a connection that was closed and deleted; `n` is the fuel.
  pub vde2_conn_write_data_event : ℕ → Vde2Conn → S → Option (Option Vde2Conn × S)
  unfolding send_loop
  vde2_conn_write_data_event n v2_conn s = elim (send_loop n v2_conn.pkt_queue s) [
    | none ↦ none
    | some (s', ended) ↦ elim ended [
      | err_close ↦ some (none, s')
      | goes_on queue drained ↦ some (
        some (record {
          data_ev_wr = if drained then none else v2_conn.data_ev_wr;
          pkt_queue = queue;
        }),
        s',
      )
    ]
  ]
