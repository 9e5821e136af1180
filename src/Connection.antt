-- ===== src/Connection.antt =====
-- connection.c and include/vde3/connection.h: a connection between a backend (a transport) and its
-- user (an engine or a connection manager). A function is an address, with NULL as `none`; `Runner`
-- says what the functions do. The assertions are those of
-- a build with VDE3_DEBUG: an operation returns `none` where one fails.
pub mod Laws
use vde.Base.{
  ℕ, zero, suc, ◌+◌, Bool, true, false, Option, none, some, ◌==◌, if◌then◌else◌, is_some, ◌&&◌, ltb,
  leb, ◌-◌, Status, done, fail,
}
use vde.Packet.{Pkt}

-- vde_conn_error
pub data ConnError : Type 0 where
  conn_ok conn_read_closed conn_read_delay conn_write_closed conn_write_delay : ConnError

pub record Timeval : Type 0 where
  pub tv_sec : ℕ
  pub tv_usec : ℕ

pub record Connection : Type 0 where
  pub attributes : Option ℕ
  pub context : Option ℕ
  pub max_pload : ℕ
  pub pkt_head_sz : ℕ
  pub pkt_tail_sz : ℕ
  pub send_maxtries : ℕ
  pub send_maxtimeout : Timeval
  pub be_write : Option ℕ
  pub be_close : Option ℕ
  pub be_priv : Option ℕ
  pub read_cb : Option ℕ
  pub write_cb : Option ℕ
  pub error_cb : Option ℕ
  pub cb_priv : Option ℕ

-- What the functions of backends and users do to the state of the program: the address of the
-- function comes first, then its own pointer (`be_priv` or `cb_priv`).
pub record Runner (S : Type 0) : Type 0 where
  pub run_write : ℕ → Option ℕ → Pkt → S → S × Status
  pub run_close : ℕ → Option ℕ → S → S
  pub run_read_cb : ℕ → Option ℕ → Pkt → S → S × Status
  pub run_write_cb : ℕ → Option ℕ → Pkt → S → S × Status
  pub run_error_cb : ℕ → Option ℕ → Option Pkt → ConnError → S → S × Status

abbrev pub zeroed_connection : Connection
zeroed_connection = record {
  attributes = none;
  context = none;
  max_pload = 0;
  pkt_head_sz = 0;
  pkt_tail_sz = 0;
  send_maxtries = 0;
  send_maxtimeout = record { tv_sec = 0; tv_usec = 0 };
  be_write = none;
  be_close = none;
  be_priv = none;
  read_cb = none;
  write_cb = none;
  error_cb = none;
  cb_priv = none;
}

-- `new` says whether vde_calloc finds memory; `none` is ENOMEM.
pub vde_connection_new : Bool → Option Connection
vde_connection_new true = some zeroed_connection
vde_connection_new false = none

unfoldable pub vde_connection_init :
    Connection → Option ℕ → ℕ → Option ℕ → Option ℕ → Option ℕ → Option Connection
vde_connection_init conn ctx payload_size be_write be_close be_priv =
    if is_some ctx
      && (ltb 0 payload_size && (is_some be_write && (is_some be_close && is_some be_priv)))
    then some (record conn {
      context = ctx;
      max_pload = payload_size;
      be_write = be_write;
      be_close = be_close;
      be_priv = be_priv;
    })
    else none

unfoldable pub vde_connection_set_callbacks :
    Connection → Option ℕ → Option ℕ → Option ℕ → Option ℕ → Option Connection
vde_connection_set_callbacks conn read_cb write_cb error_cb cb_priv =
    if is_some read_cb && is_some error_cb
    then some (record conn {
      read_cb = read_cb;
      write_cb = write_cb;
      error_cb = error_cb;
      cb_priv = cb_priv;
    })
    else none

unfoldable pub vde_connection_max_payload : Connection → ℕ
vde_connection_max_payload conn = conn.max_pload

unfoldable pub vde_connection_set_pkt_properties : Connection → ℕ → ℕ → Connection
vde_connection_set_pkt_properties conn head_sz tail_sz = record conn {
  pkt_head_sz = head_sz;
  pkt_tail_sz = tail_sz;
}

-- The macro timeradd of sys/time.h carries one second over from the microseconds.
abbrev timeradd : Timeval → Timeval → Timeval
timeradd a b =
    let sec = a.tv_sec + b.tv_sec in
    let usec = a.tv_usec + b.tv_usec in
    if leb 1000000 usec
    then record { tv_sec = sec + 1; tv_usec = usec - 1000000 }
    else record { tv_sec = sec; tv_usec = usec }

unfoldable pub vde_connection_set_send_properties :
    Connection → ℕ → Option Timeval → Option Connection
vde_connection_set_send_properties conn max_tries none = none
vde_connection_set_send_properties conn max_tries (some max_timeout) = some (record conn {
  send_maxtries = max_tries;
  send_maxtimeout = timeradd (record { tv_sec = 0; tv_usec = 0 }) max_timeout;
})

pub vde_connection_set_attributes : Connection → Option ℕ → Connection
vde_connection_set_attributes conn attributes = record conn { attributes = attributes }

pub vde_connection_get_attributes : Connection → Option ℕ
vde_connection_get_attributes conn = conn.attributes

module _ {S : Type 0} (run : Runner S) where
  -- A call through NULL is undefined.
  unfoldable pub vde_connection_fini : Connection → S → Option S
  vde_connection_fini conn s = elim conn.be_close [
    | none ↦ none
    | some f ↦ some (run.run_close f conn.be_priv s)
  ]

  pub vde_connection_write : Connection → Pkt → S → Option (S × Status)
  vde_connection_write conn pkt s = elim conn.be_write [
    | none ↦ none
    | some f ↦ some (run.run_write f conn.be_priv pkt s)
  ]

  pub vde_connection_call_read : Connection → Pkt → S → Option (S × Status)
  vde_connection_call_read conn pkt s = elim conn.read_cb [
    | none ↦ none
    | some f ↦ some (run.run_read_cb f conn.cb_priv pkt s)
  ]

  pub vde_connection_call_write : Connection → Pkt → S → Option (S × Status)
  vde_connection_call_write conn pkt s = elim conn.write_cb [
    | none ↦ some (s, done)
    | some f ↦ some (run.run_write_cb f conn.cb_priv pkt s)
  ]

  pub vde_connection_call_error : Connection → Option Pkt → ConnError → S → Option (S × Status)
  vde_connection_call_error conn pkt err s = elim conn.error_cb [
    | none ↦ none
    | some f ↦ some (run.run_error_cb f conn.cb_priv pkt err s)
  ]
