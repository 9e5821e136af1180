-- ===== src/Ctrl/Life/Valid.antt =====
-- The connections that the control engine has, and that newconn keeps them.
use vde.Base.{
  is_some, true, ◌<◌, ◌^◌, ℕ, ◌≡◌, ◌≤◌, refl, sym, subst, ap, none, some, false, [], ◌∷◌, ◌==◌, mem,
  Distinct, All, length, arith, All-apart, Bool-cases, inl, inr, done,
}
use vde.Glib.{Glib}
use vde.Connection.{Connection, vde_connection_set_callbacks, vde_connection_set_pkt_properties}
use vde.Ctrl.Split.{max_inbuf_sz}
use vde.Ctrl.Life.{Ctrl, CtrlConn, Addresses, update, ctrl_engine_newconn}

-- What vde_connection_init asserts, with a payload size that pkt_len can tell.
pub record IsUsable (link : Connection) : Type 0 where
  pub writes : is_some link.be_write ≡ true
  pub some_payload : 0 < link.max_pload
  pub small_payload : link.max_pload < 2 ^ 16

module _ ⦃g : Glib⦄ {S : Type 0} where
  -- A connection of the engine: it stands for a connection that is there and usable, belongs to the context and
  -- gives its callbacks this one; its buffer is not longer than it may be.
  pub record Attached (st : Ctrl S) (a : ℕ) : Type 0 where
    pub entry : CtrlConn
    pub link : Connection
    pub here : st.ctrl_conns a ≡ some entry
    pub linked : st.conns entry.conn ≡ some link
    pub mine : link.cb_priv ≡ some a
    pub inside : link.context ≡ some st.world.ctx.self
    pub usable : IsUsable link
    pub fits : length entry.inbuf ≤ max_inbuf_sz

  -- No connection is in the list of the engine twice, and each is as above.
  pub record IsValid (st : Ctrl S) : Type 0 where
    pub distinct : Distinct st.engine.ctrl_conns
    pub attached : All (Attached st) st.engine.ctrl_conns

  -- A usable new connection, which no callback uses yet, becomes the first of the engine: it has the three
  -- callbacks, each in its place, with the new entry as their argument, and asks for no head or tail space; the
  -- entry has an empty buffer, no packets and no signals; the others are as they were. The memory that
  -- it gets is not that of another.
  pub ctrl_engine_newconn-IsValid :
      (at : Addresses) (a conn : ℕ) (link : Connection) (st : Ctrl S)
      → IsValid st
      → mem a st.engine.ctrl_conns ≡ false
      → st.conns conn ≡ some link
      → link.cb_priv ≡ none
      → link.context ≡ some st.world.ctx.self
      → IsUsable link
      → (st' : Ctrl S) × (ctrl_engine_newconn at (some a) conn st ≡ some (st', done))
        × IsValid st'
        × (st'.engine.ctrl_conns ≡ a ∷ st.engine.ctrl_conns)
        × (st'.ctrl_conns a
            ≡ some (record { conn = conn; inbuf = []; out_queue = []; reg_signals = [] }))
        × ((b : ℕ) → (a == b) ≡ false → st'.ctrl_conns b ≡ st.ctrl_conns b)
        × (st'.conns conn
            ≡ some (record link {
              read_cb = some at.readcb;
              write_cb = some at.writecb;
              error_cb = some at.errorcb;
              cb_priv = some a;
              pkt_head_sz = 0;
              pkt_tail_sz = 0;
            }))
        × ((k : ℕ) → (conn == k) ≡ false → st'.conns k ≡ st.conns k)
  unfolding ctrl_engine_newconn vde_connection_set_callbacks vde_connection_set_pkt_properties
  ctrl_engine_newconn-IsValid at a conn link st v new there unused known usable =
      let link' : Connection = record link {
        read_cb = some at.readcb;
        write_cb = some at.writecb;
        error_cb = some at.errorcb;
        cb_priv = some a;
        pkt_head_sz = 0;
        pkt_tail_sz = 0;
      } in
      let entry : CtrlConn = record { conn = conn; inbuf = []; out_queue = []; reg_signals = [] } in
      let st' : Ctrl S = record st {
        engine = record st.engine { ctrl_conns = g.list_prepend st.engine.ctrl_conns a };
        ctrl_conns = update a (some entry) st.ctrl_conns;
        conns = update conn (some link') st.conns;
      } in
      let own : Attached st' a = record {
        entry = entry;
        link = link';
        here = ground arith;
        linked = ground arith;
        mine = refl;
        inside = known;
        usable = record {
          writes = usable.writes;
          some_payload = usable.some_payload;
          small_payload = usable.small_payload;
        };
        fits = omega arith;
      } in
      let others : All (Attached st') st.engine.ctrl_conns =
        All-apart a st.engine.ctrl_conns new
          (λ x apart r. record {
            entry = r.entry;
            link = r.link;
            here = ground (arith, apart, r.here);
            linked = elim (Bool-cases (conn == r.entry.conn)) [
              | inl same ↦ absurd (
                  ground (
                    arith,
                    there,
                    unused,
                    r.mine,
                    r.linked,
                    ap st.conns {x = conn} {y = r.entry.conn} (ground (arith, same)),
                  ))
              | inr other ↦ ground (arith, other, r.linked)
            ];
            mine = r.mine;
            inside = r.inside;
            usable = r.usable;
            fits = r.fits;
          })
          v.attached in
      let list = g.prepend_law st.engine.ctrl_conns a in
      (
        st',
        ground (arith, there),
        record {
          distinct = subst Distinct (sym list) (new, v.distinct);
          attached = subst (All (Attached st')) (sym list) (own, others);
        },
        list,
        ground arith,
        λ b apart. ground (arith, apart),
        ground arith,
        λ k apart. ground (arith, apart),
      )
