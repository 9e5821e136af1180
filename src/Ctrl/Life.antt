-- ===== src/Ctrl/Life.antt =====
-- engine_ctrl.c: the life of the connections of the control engine, from ctrl_engine_newconn to
-- ctrl_conn_fini, and the init and fini of the engine. `none` is a call through NULL or a pointer to what is freed.
pub mod Valid
pub mod Ending
pub mod Reading
pub mod Handling
pub mod Fini
pub mod Tests
use vde.Base.{
  ℕ, zero, suc, Bool, true, false, Option, none, some, List, [], ◌∷◌, ◌++◌, ◌==◌, if◌then◌else◌,
  CString, Status, done, fail, enomem, epipe,
}
use vde.Glib.{Glib}
use vde.Packet.{Pkt}
use vde.Connection.{
  Connection, ConnError, conn_ok, conn_read_closed, conn_read_delay, conn_write_closed,
  conn_write_delay, Runner, vde_connection_set_callbacks, vde_connection_set_pkt_properties,
  vde_connection_fini,
}
use vde.Component.{Component, Command, vde_component_set_priv}
use vde.Component.Commands.{vde_component_commands_register}
use vde.Context.{World}
use vde.Ctrl.Split.{Passed, max_inbuf_sz, ctrl_split_payload}
use vde.Ctrl.Subscribe.{Registration, Subscriber, detach_all}

-- ctrl_conn, but for the pointer to the engine, of which there is one. `inbuf` is what is valid of the buffer.
pub record CtrlConn : Type 0 where
  pub conn : ℕ
  pub inbuf : List ℕ
  pub out_queue : List Pkt
  pub reg_signals : List Registration

pub record CtrlEngine : Type 0 where
  pub ctrl_conns : List ℕ
  pub component : ℕ

-- The addresses of the callbacks, and the memory for the names of paths when a connection ends.
pub record Addresses : Type 0 where
  pub readcb : ℕ
  pub writecb : ℕ
  pub errorcb : ℕ
  pub signal_cb : ℕ
  pub signal_destroy_cb : ℕ
  pub name_alloc : CString → Bool
  pub path_alloc : CString → Bool

abbrev pub update : {A : Type 0} → ℕ → Option A → (ℕ → Option A) → ℕ → Option A
update a v m b = if a == b then v else m b

-- The bytes of a string that has a NUL, or that and what is behind it in memory.
abbrev pub seen : (List ℕ → List ℕ) → Passed → CString
seen beyond p = if p.terminated then p.string else p.string ++ beyond p.string

module _ ⦃g : Glib⦄ where
  -- The program, the engine, its connections, the connections that they stand for, and the rest.
  pub record Ctrl (S : Type 0) : Type 0 where
    pub world : World
    pub engine : CtrlEngine
    pub ctrl_conns : ℕ → Option CtrlConn
    pub conns : ℕ → Option Connection
    pub rest : S

  abbrev pub subscriber : Addresses → ℕ → Subscriber
  subscriber at cc = record {
    callback = at.signal_cb;
    destroy = at.signal_destroy_cb;
    self = cc;
    name_alloc = at.name_alloc;
    path_alloc = at.path_alloc;
  }

  -- With a context that is NULL no component is found.
  unfoldable pub detach_signals :
      Addresses → Option ℕ → ℕ → List Registration → World → Option World
  detach_signals at none cc regs w = some w
  detach_signals at (some ctx) cc regs w = detach_all (subscriber at cc) w regs

  abbrev pub keep_inbuf : {S : Type 0} → ℕ → List ℕ → Ctrl S → Option (Ctrl S)
  keep_inbuf cc inbuf st = elim (st.ctrl_conns cc) [
    | none ↦ none
    | some r ↦
        some
          (record st { ctrl_conns = update cc (some (record r { inbuf = inbuf })) st.ctrl_conns })
  ]

  module _ {S : Type 0} (at : Addresses) where
    -- `new` is what vde_calloc returns.
    unfoldable pub ctrl_engine_newconn : Option ℕ → ℕ → Ctrl S → Option (Ctrl S × Status)
    ctrl_engine_newconn none conn st = some (st, fail enomem)
    ctrl_engine_newconn (some cc) conn st = elim (st.conns conn) [
      | none ↦ none
      | some k ↦
          elim (vde_connection_set_callbacks k (some at.readcb) (some at.writecb) (some at.errorcb)
            (some cc)) [
              | none ↦ none
              | some k' ↦ some (
                record st {
                  engine = record st.engine { ctrl_conns = g.list_prepend st.engine.ctrl_conns cc };
                  ctrl_conns =
                      update cc
                        (some
                          (record { conn = conn; inbuf = []; out_queue = []; reg_signals = [] }))
                        st.ctrl_conns;
                  conns = update conn (some (vde_connection_set_pkt_properties k' 0 0)) st.conns;
                },
                done,
              )
            ]
    ]

    unfoldable pub ctrl_conn_fini_noengine : ℕ → Ctrl S → Option (Ctrl S)
    unfolding detach_signals
    ctrl_conn_fini_noengine cc st = elim (st.ctrl_conns cc) [
      | none ↦ none
      | some r ↦ elim (st.conns r.conn) [
        | none ↦ none
        | some k ↦ elim (detach_signals at k.context cc r.reg_signals st.world) [
          | none ↦ none
          | some w ↦ some (record st { world = w; ctrl_conns = update cc none st.ctrl_conns })
        ]
      ]
    ]

    unfoldable pub ctrl_conn_fini : ℕ → Ctrl S → Option (Ctrl S)
    unfolding ctrl_conn_fini_noengine
    ctrl_conn_fini cc st = ctrl_conn_fini_noengine cc (record st {
      engine = record st.engine { ctrl_conns = g.list_remove (λ a. a) st.engine.ctrl_conns cc };
    })

    -- The end of a connection in a callback.
    unfoldable pub hang_up : ℕ → Ctrl S → Option (Ctrl S × Status)
    unfolding ctrl_conn_fini
    hang_up cc st = elim (ctrl_conn_fini cc st) [ none ↦ none | some st' ↦ some (st', fail epipe) ]

    unfoldable pub ctrl_engine_errorcb : ConnError → ℕ → Ctrl S → Option (Ctrl S × Status)
    unfolding hang_up
    ctrl_engine_errorcb conn_write_delay cc st = some (st, done)
    ctrl_engine_errorcb conn_ok cc st = hang_up cc st
    ctrl_engine_errorcb conn_read_closed cc st = hang_up cc st
    ctrl_engine_errorcb conn_read_delay cc st = hang_up cc st
    ctrl_engine_errorcb conn_write_closed cc st = hang_up cc st

    -- `handle` is ctrl_engine_deserialize_string with this connection, `beyond` what is in memory behind a
    -- string without a NUL.
    module _ (alloc : ℕ → Bool) (beyond : List ℕ → List ℕ)
        (handle : ℕ → CString → Ctrl S → Option (Ctrl S)) where
      abbrev pub handle_next : ℕ → Passed → Option (Ctrl S) → Option (Ctrl S)
      handle_next cc p none = none
      handle_next cc p (some st) = handle cc (seen beyond p) st

      -- The result of ctrl_split_payload.
      unfoldable pub after_split : ℕ → List ℕ → Option (Ctrl S) → Status → Option (Ctrl S × Status)
      unfolding hang_up
      after_split cc inbuf none st = none
      after_split cc inbuf (some s) st = elim (keep_inbuf cc inbuf s) [
        | none ↦ none
        | some s' ↦ elim st [ done ↦ some (s', done) | fail e ↦ hang_up cc s' ]
      ]

      unfoldable pub ctrl_engine_readcb : Pkt → ℕ → Ctrl S → Option (Ctrl S × Status)
      unfolding after_split
      ctrl_engine_readcb pkt cc st = elim (st.ctrl_conns cc) [
        | none ↦ none
        | some r ↦
            elim (ctrl_split_payload alloc (handle_next cc) pkt r.inbuf max_inbuf_sz (some st)) [
              | none ↦ none
              | some (inbuf, s, answer) ↦ after_split cc inbuf s answer
            ]
      ]

    -- The loop of engine_ctrl_fini. What closing a connection does is a parameter.
    unfoldable pub end_conns : Runner S → List ℕ → Ctrl S → Option (Ctrl S)
    unfolding ctrl_conn_fini_noengine
    end_conns run [] st = some st
    end_conns run (cc ∷ ccs) st = elim (st.ctrl_conns cc) [
      | none ↦ none
      | some r ↦ elim (st.conns r.conn) [
        | none ↦ none
        | some k ↦ elim (vde_connection_fini run k st.rest) [
          | none ↦ none
          | some s ↦
              elim (ctrl_conn_fini_noengine cc
                (record st { conns = update r.conn none st.conns; rest = s })) [
                  | none ↦ none
                  | some st' ↦ end_conns run ccs st'
                ]
        ]
      ]
    ]

    -- Only the engine is freed after the loop.
    unfoldable pub engine_ctrl_fini : Runner S → Ctrl S → Option (Ctrl S)
    unfolding end_conns
    engine_ctrl_fini run st = end_conns run st.engine.ctrl_conns st

  -- `ctrl_at` is what vde_calloc returns. The array of commands, which the build generates, is an argument.
  unfoldable pub engine_ctrl_init :
      List Command
      → Option ℕ
      → g.Quarks
      → ℕ
      → Component
      → g.Quarks × Component × Option CtrlEngine × Status
  engine_ctrl_init commands none q self c = (q, c, none, fail enomem)
  engine_ctrl_init commands (some ctrl_at) q self c =
      let (q', c', st) = vde_component_commands_register q c commands in
      elim st [
        | fail e ↦ (q', c', none, fail e)
        | done ↦ (
          q',
          vde_component_set_priv c' (some ctrl_at),
          some (record { ctrl_conns = []; component = self }),
          done,
        )
      ]
