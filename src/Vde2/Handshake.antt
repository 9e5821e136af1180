-- ===== src/Vde2/Handshake.antt =====
-- transport_vde2.c: the sockets of a transport, from the request of a peer to an accepted connection, and
-- its end. Descriptors and events are tables of the state; what the system calls
-- return is a parameter of each function. `none` is a pointer to a connection that is not there.
pub mod Owned
pub mod Dropping
pub mod Outcomes
pub mod Establishing
pub mod Replies
pub mod Stages
pub mod Traffic
pub mod Steps
pub mod Writing
pub mod Firing
pub mod Fired
pub mod Reach
pub mod Runs
pub mod Tests
use vde.Base.{
  ℕ, ◌+◌, ◌%◌, ◌^◌, Bool, true, false, not, Option, none, some, List, [], ◌∷◌, ◌==◌, ◌&&◌,
  if◌then◌else◌, CString, Status, done, fail, enoent,
}
use vde.Base.Int.{ℤ, pos, negsuc}
use vde.Glib.{Glib}
use vde.Vde2.{Vde2Conn, is_epipe}

-- SWITCH_MAGIC
abbrev pub switch_magic : ℕ
switch_magic = 4277009102

-- The part of vde2_request that is read; `sun_path` is the text up to its NUL.
pub record Vde2Request : Type 0 where
  pub magic : ℕ
  pub version : ℕ
  pub sun_path : CString

-- vde2_conn. `sending` is its part that sending changes.
pub record Backend : Type 0 where
  pub data_fd : ℤ
  pub data_ev_rd : Option ℕ
  pub ctl_fd : ℤ
  pub ctl_ev : Option ℕ
  pub sending : Vde2Conn
  pub local_path : CString
  pub remote_path : CString
  pub remote_request : Option Vde2Request
  pub conn : ℕ

-- vde2_tr
pub record Vde2Tr : Type 0 where
  pub vdesock_dir : CString
  pub listen_fd : ℤ
  pub listen_event : Option ℕ
  pub connections : ℕ
  pub pending_conns : List ℕ

-- The functions that events of connections call.
pub data Handler : Type 0 where
  get_request send_request read_ctl read_data write_data : Handler

-- `arg` is the address of the connection.
pub record Event : Type 0 where
  pub fd : ℤ
  pub handler : Handler
  pub arg : ℕ

-- `files` is the open descriptors, `events` the events of connections. The files of sockets, which unlink
-- removes, are not part of the state.
pub record Sys : Type 0 where
  pub tr : Vde2Tr
  pub conns : ℕ → Option Backend
  pub events : ℕ → Option Event
  pub files : ℕ → Bool

abbrev pub put_conn : ℕ → Option Backend → Sys → Sys
put_conn a c s = record s { conns = λ b. if a == b then c else s.conns b }

-- vde_context_event_add, which returns an event or NULL.
abbrev pub event_add : Option ℕ → Event → Sys → Sys
event_add none e s = s
event_add (some h) e s = record s { events = λ k. if h == k then some e else s.events k }

abbrev pub event_del : Option ℕ → Sys → Sys
event_del none s = s
event_del (some h) s = record s { events = λ k. if h == k then none else s.events k }

abbrev pub set_file : ℕ → Bool → Sys → Sys
set_file n b s = record s { files = λ k. if n == k then b else s.files k }

-- `if (fd >= 0) close(fd)`
abbrev pub close_fd : ℤ → Sys → Sys
close_fd (pos n) s = set_file n false s
close_fd (negsuc n) s = s

-- The backend as vde_calloc leaves it.
abbrev pub zeroed_backend : Backend
zeroed_backend = record {
  data_fd = pos 0;
  data_ev_rd = none;
  ctl_fd = pos 0;
  ctl_ev = none;
  sending = record { data_ev_wr = none; pkt_queue = [] };
  local_path = [];
  remote_path = [];
  remote_request = none;
  conn = 0;
}

-- vde2_conn_close of the connection, as vde_connection_fini calls it; the memory is released.
unfoldable pub close_backend : ℕ → Backend → Sys → Sys
close_backend a c s = put_conn a none (
    event_del c.ctl_ev (
      close_fd c.ctl_fd
        (event_del c.sending.data_ev_wr (event_del c.data_ev_rd (close_fd c.data_fd s)))))

unfoldable pub vde2_conn_close : ℕ → Sys → Option Sys
unfolding close_backend
vde2_conn_close a s = elim (s.conns a) [ none ↦ none | some c ↦ some (close_backend a c s) ]

-- What read returns on the control socket of a server.
pub data GotRequest : Type 0 where
  again failed end_of_file : GotRequest
  request : Vde2Request → GotRequest

-- What the calls of vde2_srv_send_request return: the descriptor, whether it is non-blocking, the error
-- of unlink, whether bind and the whole write succeed, and the events.
pub record SendAnswers : Type 0 where
  pub socket : Option ℕ
  pub nonblock : Bool
  pub unlink : Status
  pub bind : Bool
  pub write : Bool
  pub ctl_event : Option ℕ
  pub data_event : Option ℕ

abbrev pub may_bind : Status → Bool
may_bind done = true
may_bind (fail enoent) = true
may_bind (fail _) = false

-- The request is kept, and the reply is sent when the socket can be written.
abbrev pub await_reply : Option ℕ → ℕ → Backend → Vde2Request → Sys → Sys
await_reply event a c req s =
    event_add event (record { fd = c.ctl_fd; handler = send_request; arg = a })
      (put_conn a
        (some (record c { ctl_ev = event; remote_request = some req; remote_path = req.sun_path }))
        s)

abbrev pub is_empty : CString → Bool
is_empty [] = true
is_empty (x ∷ xs) = false

module _ ⦃g : Glib⦄ where
  abbrev pub remove_pending : ℕ → Sys → Sys
  remove_pending a s = record s {
    tr = record s.tr { pending_conns = g.list_remove (λ x. x) s.tr.pending_conns a };
  }

  -- The label `error` of the two handlers.
  unfoldable pub drop_conn : ℕ → Sys → Option Sys
  unfolding vde2_conn_close
  drop_conn a s = vde2_conn_close a (remove_pending a s)

  -- A request that has been read. `access` is whether the socket of the peer can be reached, `room`
  -- whether vde_alloc finds memory.
  unfoldable pub take_request :
      (CString → Bool) → Bool → Option ℕ → ℕ → Backend → Vde2Request → Sys → Option Sys
  unfolding drop_conn
  take_request access room event a c req s =
      if (req.magic == switch_magic && req.version == 3)
        && (not (is_empty req.sun_path) && (access req.sun_path && room))
      then some (await_reply event a c req s)
      else drop_conn a s

  -- What follows the read.
  unfoldable pub after_read :
      GotRequest → (CString → Bool) → Bool → Option ℕ → ℕ → Backend → Sys → Option Sys
  unfolding take_request drop_conn
  after_read again access room event a c s = some s
  after_read failed access room event a c s = drop_conn a s
  after_read end_of_file access room event a c s = drop_conn a s
  after_read (request req) access room event a c s = take_request access room event a c req s

  -- The event of the control socket is deleted first.
  unfoldable pub vde2_srv_get_request :
      GotRequest → (CString → Bool) → Bool → Option ℕ → ℕ → Sys → Option Sys
  unfolding after_read
  vde2_srv_get_request got access room event a s = elim (s.conns a) [
    | none ↦ none
    | some c ↦
        let c' : Backend = record c { ctl_ev = none } in
        after_read got access room event a c' (put_conn a (some c') (event_del c.ctl_ev s))
  ]

  -- The end of vde2_srv_send_request. `path` is the path of the data socket.
  unfoldable pub establish : SendAnswers → ℕ → Backend → Sys → Sys
  establish ans a c s =
      event_add ans.data_event (record { fd = c.data_fd; handler = read_data; arg = a })
        (event_add ans.ctl_event (record { fd = c.ctl_fd; handler = read_ctl; arg = a })
          (put_conn a (some (record c { ctl_ev = ans.ctl_event; data_ev_rd = ans.data_event })) (
            remove_pending a
              (record s { tr = record s.tr { connections = (s.tr.connections + 1) % 2 ^ 32 } }))))

  -- `path_of` is the path of the data socket by the directory and the number of connections, and
  -- `accept_cb` what the connection manager does.
  unfoldable pub vde2_srv_send_request :
      SendAnswers → (CString → ℕ → CString) → (ℕ → Sys → Sys) → ℕ → Sys → Option Sys
  unfolding drop_conn establish
  vde2_srv_send_request ans path_of accept_cb a s = elim (s.conns a) [
    | none ↦ none
    | some c ↦ elim ans.socket [
      | none ↦ drop_conn a (
          put_conn a (some (record c { ctl_ev = none; data_fd = negsuc 0 })) (event_del c.ctl_ev s))
      | some fd ↦
          let c1 : Backend = record c { ctl_ev = none; data_fd = pos fd } in
          let c2 : Backend = record c1 { local_path = path_of s.tr.vdesock_dir s.tr.connections } in
          let s1 : Sys = set_file fd true (put_conn a (some c1) (event_del c.ctl_ev s)) in
          let s2 : Sys = put_conn a (some c2) s1 in
          if ans.nonblock
          then (if may_bind ans.unlink && (ans.bind && ans.write)
              then some (accept_cb c.conn (establish ans a c2 s2))
              else drop_conn a s2)
          else drop_conn a s1
    ]
  ]

  -- What the calls of vde2_accept return: the descriptor, whether it is non-blocking, the addresses of the
  -- connection and its backend, and the event.
  unfoldable pub vde2_accept : Option ℕ → Bool → Option ℕ → Option ℕ → Option ℕ → Sys → Sys
  vde2_accept none nonblock conn new event s = s
  vde2_accept (some fd) nonblock conn new event s =
      let opened = set_file fd true s in
      if nonblock
      then elim conn [
        | none ↦ close_fd (pos fd) opened
        | some conn ↦ elim new [
          | none ↦ close_fd (pos fd) opened
          | some a ↦
              event_add event (record { fd = pos fd; handler = get_request; arg = a })
                (put_conn a
                  (some (record zeroed_backend { ctl_fd = pos fd; conn = conn; ctl_ev = event }))
                  (record opened {
                    tr = record s.tr { pending_conns = g.list_prepend s.tr.pending_conns a };
                  }))
        ]
      ]
      else close_fd (pos fd) opened

-- What read returns on the control socket of a connection.
pub data GotCtl : Type 0 where
  ctl_again ctl_failed ctl_bytes ctl_closed : GotCtl

-- The user of the connection is told by its error callback, `call_error`, and it is closed where that
-- answers with EPIPE.
unfoldable pub tell_closed : (Sys → Sys × Status) → ℕ → Sys → Option Sys
unfolding vde2_conn_close
tell_closed call_error a s =
    let (s', st) = call_error s in if is_epipe st then vde2_conn_close a s' else some s'

unfoldable pub vde2_conn_read_ctl_event : GotCtl → (Sys → Sys × Status) → ℕ → Sys → Option Sys
unfolding tell_closed
vde2_conn_read_ctl_event ctl_again call_error a s = some s
vde2_conn_read_ctl_event ctl_bytes call_error a s = some s
vde2_conn_read_ctl_event ctl_failed call_error a s = tell_closed call_error a s
vde2_conn_read_ctl_event ctl_closed call_error a s = tell_closed call_error a s

-- The component refuses to connect.
pub vde2_connect : Sys → ℕ → Sys × Bool
vde2_connect s conn = (s, false)
