-- ===== src/Ctrl/Life/Fini.antt =====
-- The init and the fini of the control engine.
use vde.Base.{
  ℕ, ◌≡◌, refl, none, some, List, [], ◌∷◌, All, if◌then◌else◌, length, arith, CString, done,
}
use vde.Glib.{Glib}
use vde.Connection.{Connection, Runner}
use vde.Component.{Component, Command, vde_component_set_priv}
use vde.Component.Names.{Named-init}
use vde.Component.Commands.{vde_component_command_get}
use vde.Component.Commands.Arrays.{
  DistinctNames, command_named, AllFind-none, empty_get, commands_register_lem,
}
use vde.Ctrl.Split.{is_empty}
use vde.Ctrl.Life.{Ctrl, CtrlConn, Addresses, end_conns, engine_ctrl_fini, engine_ctrl_init}

module _ ⦃g : Glib⦄ where
  module _ {S : Type 0} (at : Addresses) where
    -- The backend of each connection can close it.
    abbrev pub CanClose : Ctrl S → ℕ → Type 0
    CanClose st a =
        (entry : CtrlConn) × (link : Connection) × (f : ℕ) × (st.ctrl_conns a ≡ some entry)
        × (st.conns entry.conn ≡ some link)
        × (link.be_close ≡ some f)

    -- An engine with a connection follows a pointer to what is freed when it ends, whatever closing a
    -- connection does: the loop deletes the connection before ctrl_conn_fini_noengine asks it for its
    -- context. An engine without connections ends as it is.
    pub engine_ctrl_fini-dangles :
        (run : Runner S) (st : Ctrl S)
        → All (CanClose st) st.engine.ctrl_conns
        → engine_ctrl_fini at run st ≡ (if is_empty st.engine.ctrl_conns then some st else none)
    unfolding engine_ctrl_fini
    engine_ctrl_fini-dangles run st closable = first_dangles st.engine.ctrl_conns closable
      where
        first_dangles :
            (l : List ℕ)
            → All (CanClose st) l
            → end_conns at run l st ≡ (if is_empty l then some st else none)
        first_dangles [] h = refl
        first_dangles (a ∷ l) ((entry, link, f, here, linked, close), h) =
            ground (arith, here, linked, close)

  -- Given memory, init on a component without commands succeeds: the private data is the engine, which
  -- has no connections, and each name finds its command of the array.
  pub engine_ctrl_init_lem :
      (commands : List Command) (ctrl_at : ℕ) (q : g.Quarks) (self : ℕ) (c : Component)
      → c.commands ≡ g.hash_init
      → DistinctNames commands
      → let (q', c', engine, st) = engine_ctrl_init commands (some ctrl_at) q self c in
        (st ≡ done)
        × (engine ≡ some (record { ctrl_conns = []; component = self }))
        × (c'.priv ≡ some ctrl_at)
        × ((u : CString) → vde_component_command_get q' c' u ≡ command_named commands u)
        × (g.hash_size c'.commands ≡ length commands)
  unfolding engine_ctrl_init vde_component_set_priv vde_component_command_get
  engine_ctrl_init_lem commands ctrl_at q self c e d =
      let (ok, named, get, size) =
        commands_register_lem q c commands (rw e (Named-init q)) d (AllFind-none q c commands e) in
      rw (ok, engine_ctrl_init)
        (
          refl,
          refl,
          refl,
          λ u. ground (arith, get u, empty_get q c e u),
          ground (arith, size, e, g.size_init Command),
        )
