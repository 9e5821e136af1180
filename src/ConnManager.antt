-- ===== src/ConnManager.antt =====
-- conn_manager.c: the connection manager, which joins a transport and an engine. A connection that the
-- transport makes is given to the engine; while it waits it is a pending connection. What engines,
-- transports and the callbacks of users do is a parameter; they may ask the manager for more
-- connections, so its list of pending connections is part of the state that they are given and return.
pub mod Pending
pub mod Events
pub mod Reach
pub mod Init
pub mod Tests
use vde.Base.{
  ℕ, Bool, true, false, Option, none, some, List, [], ◌∷◌, ◌==◌, if◌then◌else◌, Status, done, fail,
  enomem, is_done, map,
}
use vde.Glib.{Glib}
use vde.Component.{Component}
use vde.Component.Kinds.{
  Calls, vde_engine_new_connection, vde_transport_listen, vde_transport_connect,
}

-- enum vde_conn_state
pub data ConnState : Type 0 where
  connect_wait authorization_req_sent authorization_req_wait authorization_reply_sent : ConnState
  authorization_reply_wait not_authorized authorized : ConnState

-- `addr` is the address of the structure, which the list of the manager holds.
pub record PendingConn : Type 0 where
  pub addr : ℕ
  pub conn : ℕ
  pub lreq : Option ℕ
  pub rreq : Option ℕ
  pub state : ConnState
  pub success_cb : Option ℕ
  pub error_cb : Option ℕ
  pub connect_cb_arg : Option ℕ

-- Its list of pending connections, which changes, is `Around.pending`.
pub record ConnManager : Type 0 where
  pub transport : ℕ
  pub engine : ℕ
  pub component : ℕ
  pub do_remote_authorization : Bool

pub lookup_pending_conn : List PendingConn → ℕ → Option PendingConn
lookup_pending_conn [] conn = none
lookup_pending_conn (pc ∷ pcs) conn =
    if pc.conn == conn then some pc else lookup_pending_conn pcs conn

abbrev pub set_state : ℕ → ConnState → PendingConn → PendingConn
set_state addr state pc = if pc.addr == addr then record pc { state = state } else pc

-- The pending connection of one that the transport accepted: the rest is zero, as vde_calloc leaves it.
abbrev pub accepted_conn : ℕ → ℕ → PendingConn
accepted_conn new conn = record {
  addr = new;
  conn = conn;
  lreq = none;
  rreq = none;
  state = connect_wait;
  success_cb = none;
  error_cb = none;
  connect_cb_arg = none;
}

-- The state of the program around the manager: its pending connections, which functions that are
-- called may add to, and the rest.
pub record Around (S : Type 0) : Type 0 where
  pub pending : List PendingConn
  pub rest : S

module _ ⦃g : Glib⦄ where
  -- The callbacks of users (address, component, argument), and the end of a connection,
  -- vde_connection_fini and vde_connection_delete. The components are at their addresses.
  pub record Environment (S : Type 0) : Type 0 where
    pub calls : Calls (Around S)
    pub user_cb : ℕ → ℕ → Option ℕ → Around S → Around S
    pub close : ℕ → Around S → Around S
    pub component_at : S → ℕ → Option Component

  module _ {S : Type 0} (env : Environment S) where
    -- A callback that may be NULL.
    pub tell_user : Option ℕ → ConnManager → PendingConn → Around S → Around S
    tell_user none cm pc s = s
    tell_user (some f) cm pc s = env.user_cb f cm.component pc.connect_cb_arg s

    -- The end of post_authorization: the pending connection is taken out of the list and freed.
    pub forget : PendingConn → Around S → Around S
    forget pc s = record s { pending = g.list_remove (λ p. p.addr) s.pending pc.addr }

    pub post_authorization : ConnManager → PendingConn → Around S → Option (Around S)
    unfolding tell_user forget
    post_authorization cm pc s = elim (env.component_at s.rest cm.engine) [
      | none ↦ none
      | some c ↦ elim (vde_engine_new_connection env.calls cm.engine c pc.conn pc.lreq s) [
        | none ↦ none
        | some (s', st) ↦ some (
            forget pc (
              if is_done st
              then tell_user pc.success_cb cm pc s'
              else tell_user pc.error_cb cm pc s'))
      ]
    ]

    -- A connection that is authorized, at once where there is no remote authorization.
    pub authorize : ConnManager → PendingConn → Around S → Option (Around S)
    unfolding post_authorization
    authorize cm pc s =
        if cm.do_remote_authorization
        then some s
        else post_authorization cm (record pc { state = authorized })
            (record s { pending = map (set_state pc.addr authorized) s.pending })

    pub conn_manager_connect_cb : ConnManager → ℕ → Around S → Option (Around S)
    unfolding authorize lookup_pending_conn
    conn_manager_connect_cb cm conn s = elim (lookup_pending_conn s.pending conn) [
      | none ↦ some (env.close conn s)
      | some pc ↦ authorize cm pc s
    ]

    -- `new` is the address that vde_calloc returns.
    pub conn_manager_accept_cb : Option ℕ → ConnManager → ℕ → Around S → Option (Around S)
    unfolding authorize
    conn_manager_accept_cb none cm conn s = some (env.close conn s)
    conn_manager_accept_cb (some new) cm conn s =
        let pc = accepted_conn new conn in
        authorize cm pc (record s { pending = g.list_prepend s.pending pc })

    -- The source has no statement here.
    pub conn_manager_error_cb : ConnManager → ℕ → ℕ → Around S → Around S
    conn_manager_error_cb cm conn tr_errno s = s

    pub conn_manager_listen : ConnManager → Around S → Option (Around S × Status)
    conn_manager_listen cm s = elim (env.component_at s.rest cm.transport) [
      | none ↦ none
      | some c ↦ vde_transport_listen env.calls cm.transport c s
    ]

    -- `conn` is what vde_connection_new allocates, `new` what vde_calloc returns.
    pub conn_manager_connect :
        Option ℕ
        → Option ℕ
        → ConnManager
        → Option ℕ
        → Option ℕ
        → Option ℕ
        → Option ℕ
        → Option ℕ
        → Around S
        → Option (Around S × Status)
    conn_manager_connect none new cm lreq rreq success_cb error_cb arg s = some (s, fail enomem)
    conn_manager_connect (some conn) none cm lreq rreq success_cb error_cb arg s =
        some (s, fail enomem)
    conn_manager_connect (some conn) (some new) cm lreq rreq success_cb error_cb arg s =
        let pc : PendingConn = record {
          addr = new;
          conn = conn;
          lreq = lreq;
          rreq = rreq;
          state = connect_wait;
          success_cb = success_cb;
          error_cb = error_cb;
          connect_cb_arg = arg;
        } in
        elim (env.component_at s.rest cm.transport) [
          | none ↦ none
          | some c ↦
              vde_transport_connect env.calls cm.transport c conn
                (record s { pending = g.list_prepend s.pending pc })
        ]
