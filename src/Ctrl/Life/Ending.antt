-- ===== src/Ctrl/Life/Ending.antt =====
-- The end of a connection of the control engine: ctrl_conn_fini, and ctrl_engine_errorcb, which calls it.
use vde.Base.{
  ℕ, Bool, ◌≡◌, refl, sym, subst, ap, ◌∙◌, Option, none, some, true, false, not, List, ◌==◌, mem,
  Distinct, All, arith, All-apart, All-mem, All-removed, mem-removed, Distinct-removed, done, fail,
  epipe, Status, ◌&&◌,
}
use vde.Glib.{Glib}
use vde.Context.{Context}
use vde.Connection.{
  ConnError, conn_ok, conn_read_closed, conn_read_delay, conn_write_closed, conn_write_delay,
}
use vde.Connection.Laws.{is_fatal}
use vde.Ctrl.Subscribe.{Registration}
use vde.Ctrl.Subscribe.Detached.{AllValid}
use vde.Ctrl.Subscribe.Ending.{IsLive, Fewer, Silent, detach_all-Silent}
use vde.Ctrl.Life.{
  Ctrl, CtrlConn, Addresses, update, subscriber, ctrl_conn_fini, hang_up, ctrl_engine_errorcb,
}
use vde.Ctrl.Life.Valid.{Attached, IsValid}

module _ ⦃g : Glib⦄ {S : Type 0} (at : Addresses) where
  -- Connection `a`, with these registered signals, is gone: it is freed and out of the list, none of its
  -- signals, for whose names there was memory, calls it, and the other connections are as they were.
  pub record Gone (a : ℕ) (regs : List Registration) (st st' : Ctrl S) : Type 0 where
    pub freed : st'.ctrl_conns a ≡ none
    pub listed :
        (b : ℕ) → mem b st'.engine.ctrl_conns ≡ (mem b st.engine.ctrl_conns && not (b == a))
    pub others : (b : ℕ) → (a == b) ≡ false → st'.ctrl_conns b ≡ st.ctrl_conns b
    pub conns : st'.conns ≡ st.conns
    pub rest : st'.rest ≡ st.rest
    pub silent : All (Silent (subscriber at a) st.world st'.world) regs
    pub fewer : Fewer (subscriber at a) st.world st'.world
    pub valid : IsValid st'

  fini-Gone :
      (a : ℕ) (st : Ctrl S)
      → IsValid st
      → IsLive (subscriber at a) st.world
      → AllValid st.world
      → (here : Attached st a)
      → (st' : Ctrl S) × (ctrl_conn_fini at a st ≡ some st') × Gone a here.entry.reg_signals st st'
  unfolding ctrl_conn_fini
  fini-Gone a st v live valid here =
      let l = g.list_remove (λ x. x) st.engine.ctrl_conns a in
      let law = g.remove_law (λ x. x) st.engine.ctrl_conns a in
      let (w, ran, few, silent) =
        detach_all-Silent (subscriber at a) st.world here.entry.reg_signals live valid in
      let st' : Ctrl S = record st {
        world = w;
        engine = record st.engine { ctrl_conns = l };
        ctrl_conns = update a none st.ctrl_conns;
      } in
      let listed : (b : ℕ) → mem b l ≡ (mem b st.engine.ctrl_conns && not (b == a)) =
        λ b. rw law (mem-removed st.engine.ctrl_conns a b v.distinct) in
      let kept : All (Attached st) l =
        subst (All (Attached st)) (sym law)
          (All-removed (Attached st) (λ x. x == a) st.engine.ctrl_conns v.attached) in
      (
        st',
        ground (arith, here.here, here.linked, here.inside, ran),
        record {
          freed = ground arith;
          listed = listed;
          others = λ b apart. ground (arith, apart);
          conns = refl;
          rest = refl;
          silent = silent;
          fewer = few;
          valid = record {
            distinct =
                subst Distinct (sym law) (Distinct-removed st.engine.ctrl_conns a v.distinct);
            attached =
                All-apart a l (ground (arith, listed a))
                  (λ x apart r. record {
                    entry = r.entry;
                    link = r.link;
                    here = ground (arith, apart, r.here);
                    linked = r.linked;
                    mine = r.mine;
                    inside = r.inside ∙ ap (λ (c : Context). some c.self) (sym few.ctx);
                    usable = r.usable;
                    fits = r.fits;
                  })
                  kept;
          };
        },
      )

  -- What a callback answers for connection `a`: it goes on as it was, or it is gone and the answer is EPIPE.
  abbrev pub Answered : Bool → ℕ → List Registration → Ctrl S → Option (Ctrl S × Status) → Type 0
  Answered false a regs st r = r ≡ some (st, done)
  Answered true a regs st r = (st' : Ctrl S) × (r ≡ some (st', fail epipe)) × Gone a regs st st'

  pub hang_up-Gone :
      (a : ℕ) (entry : CtrlConn) (st : Ctrl S)
      → IsValid st
      → IsLive (subscriber at a) st.world
      → AllValid st.world
      → mem a st.engine.ctrl_conns ≡ true
      → st.ctrl_conns a ≡ some entry
      → Answered true a entry.reg_signals st (hang_up at a st)
  unfolding hang_up
  hang_up-Gone a entry st v live valid listed found =
      let here = All-mem (Attached st) a st.engine.ctrl_conns v.attached listed in
      let (st', ran, gone) = fini-Gone a st v live valid here in
      let same : here.entry ≡ entry = ground (arith, here.here, found) in
      (st', rw (ran, hang_up), subst (λ (r : CtrlConn). Gone a r.reg_signals st st') same gone)

  -- An error of a connection of the engine. A delayed write is ignored. After any other the answer
  -- is EPIPE, and the connection is gone: it is freed and out of the list, no signal that it registered calls
  -- it, if there is memory for the two names of its path, and the other connections are as they were. It
  -- is assumed that the signals are valid and that the components that names find are there.
  pub ctrl_engine_errorcb-Answered :
      (err : ConnError) (a : ℕ) (entry : CtrlConn) (st : Ctrl S)
      → IsValid st
      → IsLive (subscriber at a) st.world
      → AllValid st.world
      → mem a st.engine.ctrl_conns ≡ true
      → st.ctrl_conns a ≡ some entry
      → Answered (is_fatal err) a entry.reg_signals st (ctrl_engine_errorcb at err a st)
  unfolding ctrl_engine_errorcb
  ctrl_engine_errorcb-Answered conn_write_delay a entry st v live valid listed found = refl
  ctrl_engine_errorcb-Answered conn_ok a entry st v live valid listed found =
      hang_up-Gone a entry st v live valid listed found
  ctrl_engine_errorcb-Answered conn_read_closed a entry st v live valid listed found =
      hang_up-Gone a entry st v live valid listed found
  ctrl_engine_errorcb-Answered conn_read_delay a entry st v live valid listed found =
      hang_up-Gone a entry st v live valid listed found
  ctrl_engine_errorcb-Answered conn_write_closed a entry st v live valid listed found =
      hang_up-Gone a entry st v live valid listed found
