-- ===== src/ConnManager/Reach.antt =====
-- conn_manager.c: the states that a manager can come to, by the calls of users and the callbacks of
-- the transport, in any order.
use vde.Base.{
  List, ℕ, ◌≡◌, refl, subst, sym, false, Option, some, List, ◌∷◌, [], mem, arith, Option-cases, inl,
  inr, ◌∙◌, Status,
}
use vde.Glib.{Glib}
use vde.Component.{Component}
use vde.Component.Kinds.{vde_transport_connect, vde_transport_listen}
use vde.ConnManager.{
  accepted_conn, PendingConn, ConnManager, Around, Environment, lookup_pending_conn, connect_wait,
  authorize, conn_manager_connect_cb, conn_manager_accept_cb, conn_manager_error_cb,
  conn_manager_listen, conn_manager_connect,
}
use vde.ConnManager.Pending.{
  addresses, AreValid, Adds, Adds-trans, Adds-AreValid, Adds-prepend, without-AreValid, without,
}
use vde.ConnManager.Events.{
  ArePolite, connect_cb-settles, accept_cb-settles, engine_of_answer, mark_authorized,
  authorize_now,
}

module _ ⦃g : Glib⦄ {S : Type 0} where
  -- A manager starts with no pending connection, and each call or callback returns. A structure that
  -- is allocated is at an address that no pending connection has.
  pub data Reached (env : Environment S) (cm : ConnManager) : Around S → Type 0 where
    start : (rest : S) → Reached env cm (record { pending = []; rest = rest })
    connect :
        {s s' : Around S} (conn new : ℕ) (lreq rreq success_cb error_cb arg : Option ℕ)
        (st : Status)
        → Reached env cm s
        → mem new (addresses s.pending) ≡ false
        → conn_manager_connect env (some conn) (some new) cm lreq rreq success_cb error_cb arg s
          ≡ some (s', st)
        → Reached env cm s'
    listen :
        {s s' : Around S} (st : Status)
        → Reached env cm s
        → conn_manager_listen env cm s ≡ some (s', st)
        → Reached env cm s'
    connected :
        {s s' : Around S} (conn : ℕ)
        → Reached env cm s
        → conn_manager_connect_cb env cm conn s ≡ some s'
        → Reached env cm s'
    accepted :
        {s s' : Around S} (new conn : ℕ)
        → Reached env cm s
        → mem new (addresses s.pending) ≡ false
        → conn_manager_accept_cb env (some new) cm conn s ≡ some s'
        → Reached env cm s'
    failed :
        {s : Around S} (conn tr_errno : ℕ)
        → Reached env cm s
        → Reached env cm (conn_manager_error_cb env cm conn tr_errno s)

  module _ (env : Environment S) (polite : ArePolite env) where
    transport_connect-Adds :
        (at conn : ℕ) (c : Component) (s s' : Around S) (st : Status)
        → vde_transport_connect env.calls at c conn s ≡ some (s', st)
        → Adds s.pending s'.pending
    unfolding vde_transport_connect
    transport_connect-Adds at conn c s s' st e = elim (Option-cases c.tr_connect) [
      | inl null ↦ absurd (ground (arith, e, null))
      | inr (f, here) ↦
          subst (λ (t : Around S). Adds s.pending t.pending)
            {x = (env.calls.tr_connect f at conn s).0} {y = s'} (ground (arith, e, here))
            (polite.tr_connect f at conn s)
    ]

    transport_listen-Adds :
        (at : ℕ) (c : Component) (s s' : Around S) (st : Status)
        → vde_transport_listen env.calls at c s ≡ some (s', st)
        → Adds s.pending s'.pending
    unfolding vde_transport_listen
    transport_listen-Adds at c s s' st e = elim (Option-cases c.tr_listen) [
      | inl null ↦ absurd (ground (arith, e, null))
      | inr (f, here) ↦
          subst (λ (t : Around S). Adds s.pending t.pending) {x = (env.calls.tr_listen f at s).0}
            {y = s'} (ground (arith, e, here)) (polite.tr_listen f at s)
    ]

    listen-Adds :
        (cm : ConnManager) (st : Status) (s s' : Around S)
        → conn_manager_listen env cm s ≡ some (s', st)
        → Adds s.pending s'.pending
    unfolding conn_manager_listen
    listen-Adds cm st s s' e = elim (Option-cases (env.component_at s.rest cm.transport)) [
      | inl absent ↦ absurd (ground (arith, e, absent))
      | inr (c, here) ↦ transport_listen-Adds cm.transport c s s' st (ground (arith, e, here))
    ]

    -- A connection that is asked for stays pending, in front of those that there were.
    connect-Adds :
        (cm : ConnManager) (conn new : ℕ) (lreq rreq success_cb error_cb arg : Option ℕ)
        (st : Status) (s s' : Around S)
        → mem new (addresses s.pending) ≡ false
        → conn_manager_connect env (some conn) (some new) cm lreq rreq success_cb error_cb arg s
          ≡ some (s', st)
        → Adds s.pending s'.pending
    unfolding conn_manager_connect
    connect-Adds cm conn new lreq rreq success_cb error_cb arg st s s' fresh e =
        let pc : PendingConn = record {
          addr = new;
          conn = conn;
          lreq = lreq;
          rreq = rreq;
          state = connect_wait;
          success_cb = success_cb;
          error_cb = error_cb;
          connect_cb_arg = arg;
        } in
        let front : List PendingConn = pc ∷ s.pending in
        let law = g.prepend_law s.pending pc in
        elim (Option-cases (env.component_at s.rest cm.transport)) [
          | inl absent ↦ absurd (ground (arith, e, absent))
          | inr (c, here) ↦
              Adds-trans s.pending front s'.pending (Adds-prepend s.pending pc refl fresh) (
                transport_connect-Adds cm.transport conn c (record s { pending = front }) s' st
                  (ground (arith, e, here, law)))
        ]

    connect_cb-AreValid :
        (cm : ConnManager) (conn : ℕ) (s s' : Around S)
        → cm.do_remote_authorization ≡ false
        → AreValid s.pending
        → conn_manager_connect_cb env cm conn s ≡ some s'
        → AreValid s'.pending
    unfolding conn_manager_connect_cb authorize
    connect_cb-AreValid cm conn s s' local v e =
        elim (Option-cases (lookup_pending_conn s.pending conn)) [
          | inl none_here ↦
              Adds-AreValid s.pending s'.pending
                (subst (λ (t : Around S). Adds s.pending t.pending) {x = env.close conn s} {y = s'}
                  (ground (arith, e, none_here)) (polite.close conn s))
                v
          | inr (pc, here) ↦
              let (f, at) =
                engine_of_answer env polite cm (authorize_now pc) (mark_authorized pc s) s'
                  (ground (arith, e, here, local)) in
              let (t, same, adds, _) =
                connect_cb-settles env polite cm conn f pc s at local v here in
              Adds-AreValid (without pc.addr s.pending) s'.pending
                (subst (λ (t : Around S). Adds (without pc.addr s.pending) t.pending) {x = t}
                  {y = s'} (ground (arith, sym same ∙ e)) adds)
                (without-AreValid s.pending pc.addr v).0
        ]

    accept_cb-AreValid :
        (cm : ConnManager) (new conn : ℕ) (s s' : Around S)
        → cm.do_remote_authorization ≡ false
        → AreValid s.pending
        → mem new (addresses s.pending) ≡ false
        → conn_manager_accept_cb env (some new) cm conn s ≡ some s'
        → AreValid s'.pending
    unfolding conn_manager_accept_cb authorize
    accept_cb-AreValid cm new conn s s' local v fresh e =
        let pc = accepted_conn new conn in
        let law = g.prepend_law s.pending pc in
        let (f, at) =
          engine_of_answer env polite cm (authorize_now pc)
            (mark_authorized pc (record s { pending = pc ∷ s.pending })) s'
            (ground (arith, e, law, local)) in
        let (t, same, adds) = accept_cb-settles env polite cm conn new f s at local v fresh in
        Adds-AreValid s.pending s'.pending
          (subst (λ (t : Around S). Adds s.pending t.pending) {x = t} {y = s'}
            (ground (arith, sym same ∙ e)) adds)
          v

    -- In every state that a manager without remote authorization comes to from no pending connection, by
    -- calls of users and callbacks of the transport in any order, all its pending connections wait to be
    -- connected, and no two are at one address. It is assumed that what is allocated is at an address that
    -- no pending connection has, and that engines, transports and users leave pending connections alone.
    pub Reached-AreValid :
        (cm : ConnManager) (s : Around S)
        → cm.do_remote_authorization ≡ false
        → Reached env cm s
        → AreValid s.pending
    unfolding conn_manager_error_cb conn_manager_connect_cb conn_manager_accept_cb
    Reached-AreValid cm s local (start rest) = record { distinct = tt; waiting = tt }
    Reached-AreValid cm s' local
          (connect {s} conn new lreq rreq success_cb error_cb arg st r fresh e) =
        Adds-AreValid s.pending s'.pending
          (connect-Adds cm conn new lreq rreq success_cb error_cb arg st s s' fresh e)
          (Reached-AreValid cm s local r)
    Reached-AreValid cm s' local (listen {s} st r e) =
        Adds-AreValid s.pending s'.pending (listen-Adds cm st s s' e)
          (Reached-AreValid cm s local r)
    Reached-AreValid cm s' local (connected {s} conn r e) =
        connect_cb-AreValid cm conn s s' local (Reached-AreValid cm s local r) e
    Reached-AreValid cm s' local (accepted {s} new conn r fresh e) =
        accept_cb-AreValid cm new conn s s' local (Reached-AreValid cm s local r) fresh e
    Reached-AreValid cm s' local (failed {s} conn tr_errno r) = Reached-AreValid cm s local r
