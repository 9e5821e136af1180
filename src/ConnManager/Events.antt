-- ===== src/ConnManager/Events.antt =====
-- conn_manager.c: what the callbacks of the manager do to its pending connections.
use vde.Base.{
  ℕ, ◌≡◌, refl, ap, ◌∙◌, true, false, Option, none, some, ◌∷◌, if◌then◌else◌, is_done, map, mem,
  arith, Bool-cases, Option-cases, inl, inr, ==_refl, subst,
}
use vde.Glib.{Glib}
use vde.Component.{Component, Kind, engine, transport, connection_manager}
use vde.Component.Kinds.{is_engine, vde_engine_new_connection}
use vde.ConnManager.{
  PendingConn, ConnManager, Around, Environment, lookup_pending_conn, set_state, accepted_conn,
  authorized, tell_user, forget, post_authorization, authorize, conn_manager_connect_cb,
  conn_manager_accept_cb,
}
use vde.ConnManager.Pending.{
  addresses, AreValid, Adds, Adds-refl, Adds-trans, Adds-AreValid, Adds-without, Adds-prepend,
  without, mem-lookup_pending_conn, without-fresh,
}

-- The pending connection, and the state, once it is authorized.
abbrev pub authorize_now : PendingConn → PendingConn
authorize_now pc = record pc { state = authorized }

abbrev pub mark_authorized : {S : Type 0} → PendingConn → Around S → Around S
mark_authorized pc s = record s { pending = map (set_state pc.addr authorized) s.pending }

engine_kind : (k : Kind) → is_engine k ≡ true → k ≡ engine
engine_kind engine h = refl
engine_kind transport h = cc
engine_kind connection_manager h = cc

module _ ⦃g : Glib⦄ {S : Type 0} where
  -- Engines, transports, the callbacks of users and the ends of connections may make more pending
  -- connections, and they leave those that there are alone.
  pub record ArePolite (env : Environment S) : Type 0 where
    pub new_conn :
        (f at conn : ℕ) (req : Option ℕ) (s : Around S)
        → Adds s.pending (env.calls.new_conn f at conn req s).0.pending
    pub tr_connect :
        (f at conn : ℕ) (s : Around S) → Adds s.pending (env.calls.tr_connect f at conn s).0.pending
    pub tr_listen :
        (f at : ℕ) (s : Around S) → Adds s.pending (env.calls.tr_listen f at s).0.pending
    pub user_cb :
        (f at : ℕ) (arg : Option ℕ) (s : Around S) → Adds s.pending (env.user_cb f at arg s).pending
    pub close : (conn : ℕ) (s : Around S) → Adds s.pending (env.close conn s).pending

  -- The component at `at` is an engine that takes connections by the function at `f`.
  pub record IsEngineAt (env : Environment S) (rest : S) (at f : ℕ) : Type 0 where
    pub component : Component
    pub here : env.component_at rest at ≡ some component
    pub kind : component.kind ≡ engine
    pub takes : component.eng_new_conn ≡ some f

  -- What the engine says of the connection, and then the user is told, once, how it went.
  abbrev pub answered : Environment S → ConnManager → PendingConn → ℕ → Around S → Around S
  answered env cm pc f s =
      let r = env.calls.new_conn f cm.engine pc.conn pc.lreq s in
      tell_user env (if is_done r.1 then pc.success_cb else pc.error_cb) cm pc r.0

  module _ (env : Environment S) (polite : ArePolite env) where
    tell_user-Adds :
        (f : Option ℕ) (cm : ConnManager) (pc : PendingConn) (s : Around S)
        → Adds s.pending (tell_user env f cm pc s).pending
    unfolding tell_user
    tell_user-Adds none cm pc s = Adds-refl s.pending
    tell_user-Adds (some f) cm pc s = polite.user_cb f cm.component pc.connect_cb_arg s

    answered-Adds :
        (cm : ConnManager) (pc : PendingConn) (f : ℕ) (s : Around S)
        → Adds s.pending (answered env cm pc f s).pending
    answered-Adds cm pc f s =
        let r = env.calls.new_conn f cm.engine pc.conn pc.lreq s in
        Adds-trans s.pending r.0.pending _ (polite.new_conn f cm.engine pc.conn pc.lreq s)
          (tell_user-Adds (if is_done r.1 then pc.success_cb else pc.error_cb) cm pc r.0)

    post_authorization-answered :
        (cm : ConnManager) (pc : PendingConn) (f : ℕ) (s : Around S)
        → IsEngineAt env s.rest cm.engine f
        → post_authorization env cm pc s ≡ some (forget env pc (answered env cm pc f s))
    unfolding post_authorization vde_engine_new_connection
    post_authorization-answered cm pc f s at =
        let r = env.calls.new_conn f cm.engine pc.conn pc.lreq s in
        elim (Bool-cases (is_done r.1)) [
          | inl e ↦ ground (arith, at.here, at.kind, at.takes, e)
          | inr e ↦ ground (arith, at.here, at.kind, at.takes, e)
        ]

    pub engine_of_answer :
        (cm : ConnManager) (pc : PendingConn) (s s' : Around S)
        → post_authorization env cm pc s ≡ some s'
        → (f : ℕ) × IsEngineAt env s.rest cm.engine f
    unfolding post_authorization vde_engine_new_connection
    engine_of_answer cm pc s s' e = elim (Option-cases (env.component_at s.rest cm.engine)) [
      | inl absent ↦ absurd (ground (arith, e, absent))
      | inr (c, here) ↦ elim (Option-cases c.eng_new_conn) [
        | inl null ↦ absurd (ground (arith, e, here, null))
        | inr (f, takes) ↦ (
          f,
          record {
            component = c;
            here = here;
            kind = engine_kind c.kind (ground (arith, e, here, takes));
            takes = takes;
          },
        )
      ]
    ]

    -- A pending connection that is answered is out of the list, and those that were there before stay.
    settle :
        (cm : ConnManager) (pc : PendingConn) (f : ℕ) (s : Around S)
        → IsEngineAt env s.rest cm.engine f
        → cm.do_remote_authorization ≡ false
        → AreValid s.pending
        → mem pc.addr (addresses s.pending) ≡ true
        → (s' : Around S) × (authorize env cm pc s ≡ some s')
          × Adds (without pc.addr s.pending) s'.pending
          × (s'.rest ≡ (answered env cm (authorize_now pc) f (mark_authorized pc s)).rest)
    unfolding authorize forget
    settle cm pc f s at local v here =
        let pc' = authorize_now pc in
        let s1 = mark_authorized pc s in
        let after = answered env cm pc' f s1 in
        (
          forget env pc' after,
          ap (λ b. if b then some s else post_authorization env cm pc' s1) local
              ∙ post_authorization-answered cm pc' f s1 at,
          rw (g.remove_law (λ (p : PendingConn). p.addr) after.pending pc.addr) (
              Adds-without s.pending after.pending pc.addr authorized v here
                (answered-Adds cm pc' f s1)),
          refl,
        )

    -- Without remote authorization, a connection that was asked for and is made is given to the engine,
    -- and then its user is told, once, by the callback for success or for an error as the engine took it
    -- or not. It is out of the pending connections; the others stay, in their order, behind those that
    -- the engine and the user added. It is assumed that engine and user leave pending connections alone.
    pub connect_cb-settles :
        (cm : ConnManager) (conn f : ℕ) (pc : PendingConn) (s : Around S)
        → IsEngineAt env s.rest cm.engine f
        → cm.do_remote_authorization ≡ false
        → AreValid s.pending
        → lookup_pending_conn s.pending conn ≡ some pc
        → (s' : Around S) × (conn_manager_connect_cb env cm conn s ≡ some s')
          × Adds (without pc.addr s.pending) s'.pending
          × (s'.rest ≡ (answered env cm (authorize_now pc) f (mark_authorized pc s)).rest)
    unfolding conn_manager_connect_cb
    connect_cb-settles cm conn f pc s at local v found =
        rw (found, conn_manager_connect_cb)
          (settle cm pc f s at local v (mem-lookup_pending_conn s.pending conn pc found).0)

    -- Without remote authorization, a connection that the transport accepted, whose new address no pending
    -- connection has, is not pending any more when the callback returns: the others are as before, behind
    -- those that engine and user added. It is assumed that these leave pending connections alone.
    pub accept_cb-settles :
        (cm : ConnManager) (conn new f : ℕ) (s : Around S)
        → IsEngineAt env s.rest cm.engine f
        → cm.do_remote_authorization ≡ false
        → AreValid s.pending
        → mem new (addresses s.pending) ≡ false
        → (s' : Around S) × (conn_manager_accept_cb env (some new) cm conn s ≡ some s')
          × Adds s.pending s'.pending
    unfolding conn_manager_accept_cb
    accept_cb-settles cm conn new f s at local v fresh =
        let pc = accepted_conn new conn in
        let adds = Adds-prepend s.pending pc refl fresh in
        let (s', e, a, _) =
          settle cm pc f (record s { pending = pc ∷ s.pending }) at local
            (Adds-AreValid s.pending (pc ∷ s.pending) adds v) (ground (arith, ==_refl new)) in
        (
          s',
          rw (g.prepend_law s.pending pc) e,
          subst (λ l. Adds l s'.pending) (without-fresh s.pending pc) a,
        )
