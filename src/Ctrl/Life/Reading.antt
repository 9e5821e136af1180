-- ===== src/Ctrl/Life/Reading.antt =====
-- An engine that serves a connection, and what keeps it so.
use vde.Base.{
  sym, ap, ◌∙◌, ℕ, ◌≡◌, ◌≤◌, refl, subst, inl, inr, Option, some, true, List, ◌==◌, mem, All-each,
  All-mem, length, arith, Bool-cases, ==_iff,
}
use vde.Glib.{Glib}
use vde.Context.{World}
use vde.Ctrl.Split.{max_inbuf_sz}
use vde.Ctrl.Subscribe.Detached.{AllValid}
use vde.Ctrl.Subscribe.Ending.{IsLive}
use vde.Ctrl.Life.{Ctrl, CtrlConn, Addresses, update, subscriber, keep_inbuf}
use vde.Ctrl.Life.Valid.{Attached, IsValid}

module _ ⦃g : Glib⦄ {S : Type 0} (at : Addresses) (a : ℕ) where
  -- The engine is valid and has connection `a`; the signals are valid and the components that
  -- names find are there.
  pub record Serves (st : Ctrl S) : Type 0 where
    pub valid : IsValid st
    pub live : IsLive (subscriber at a) st.world
    pub signals : AllValid st.world
    pub listed : mem a st.engine.ctrl_conns ≡ true

  -- The entry of the connection.
  abbrev pub own : (st : Ctrl S) → Serves st → Attached st a
  own st r = All-mem (Attached st) a st.engine.ctrl_conns r.valid.attached r.listed

  -- The connection has changed, but for what it stands for, and so have the signals.
  pub renewed-Serves :
      (entry : CtrlConn) (w : World) (rest : S) (st : Ctrl S) (r : Serves st)
      → entry.conn ≡ (own st r).entry.conn
      → length entry.inbuf ≤ max_inbuf_sz
      → IsLive (subscriber at a) w
      → AllValid w
      → w.ctx.self ≡ st.world.ctx.self
      → Serves
          (record st { world = w; ctrl_conns = update a (some entry) st.ctrl_conns; rest = rest })
  renewed-Serves entry w rest st r same short live signals self =
      let here = own st r in
      let st' : Ctrl S = record st {
        world = w;
        ctrl_conns = update a (some entry) st.ctrl_conns;
        rest = rest;
      } in
      let back : (o : Option ℕ) → o ≡ some st.world.ctx.self → o ≡ some w.ctx.self =
        λ o e. e ∙ ap some (sym self) in
      record {
        valid = record {
          distinct = r.valid.distinct;
          attached =
              All-each (Attached st) (Attached st') st.engine.ctrl_conns
                (λ x t. elim (Bool-cases (a == x)) [
                  | inl mine ↦ subst (Attached st') ((==_iff a x).0 mine) (record {
                    entry = entry;
                    link = here.link;
                    here = ground arith;
                    linked = ap st.conns same ∙ here.linked;
                    mine = here.mine;
                    inside = back here.link.context here.inside;
                    usable = here.usable;
                    fits = short;
                  })
                  | inr other ↦ record {
                    entry = t.entry;
                    link = t.link;
                    here = ground (arith, other, t.here);
                    linked = t.linked;
                    mine = t.mine;
                    inside = back t.link.context t.inside;
                    usable = t.usable;
                    fits = t.fits;
                  }
                ])
                r.valid.attached;
        };
        live = live;
        signals = signals;
        listed = r.listed;
      }

  pub keep_inbuf-Serves :
      (inbuf : List ℕ) (st : Ctrl S)
      → length inbuf ≤ max_inbuf_sz
      → Serves st
      → (st' : Ctrl S) × (entry : CtrlConn) × (keep_inbuf a inbuf st ≡ some st')
        × Serves st'
        × (st'.ctrl_conns a ≡ some entry)
  keep_inbuf-Serves inbuf st short r =
      let here = own st r in
      let entry : CtrlConn = record here.entry { inbuf = inbuf } in
      (
        record st { ctrl_conns = update a (some entry) st.ctrl_conns },
        entry,
        ground (arith, here.here),
        renewed-Serves entry st.world st.rest st r refl short r.live r.signals refl,
        ground arith,
      )
