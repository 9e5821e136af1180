-- ===== src/Ctrl/Life/Handling.antt =====
-- ctrl_engine_deserialize_string as the handler of the strings of a connection: a string is replied to, and
-- the reply goes out through the connection.
pub mod Laws
pub mod Packets
use vde.Base.{ℕ, Bool, Option, none, some, List, CString, Status}
use vde.Glib.{Glib}
use vde.Sobj.{Sobj}
use vde.Packet.{Pkt}
use vde.Connection.{Connection, Runner}
use vde.Ctrl.Subscribe.{Subs}
use vde.Ctrl.Calls.{Outside, ctrl_engine_deserialize_string}
use vde.Ctrl.Life.{Ctrl, CtrlConn, update}

module _ ⦃g : Glib⦄ ⦃s : Sobj⦄ (out : Outside) {S : Type 0} (run : Runner S) (alloc : ℕ → Bool)
    (name_alloc path_alloc : Bool) where
  -- `write` is the function of the backend.
  unfoldable pub handle_on : ℕ → Connection → ℕ → CtrlConn → CString → Ctrl S → Option (Ctrl S)
  handle_on write link cc r string st =
      elim (ctrl_engine_deserialize_string out (run.run_write write link.be_priv) alloc
        link.max_pload name_alloc path_alloc st.engine.component string
        (record { world = st.world; reg_signals = r.reg_signals }) r.out_queue st.rest) [
          | none ↦ none
          | some (w, queue, rest) ↦ some (record st {
            world = w.world;
            ctrl_conns =
                update cc (some (record r { out_queue = queue; reg_signals = w.reg_signals }))
                  st.ctrl_conns;
            rest = rest;
          })
        ]

  unfoldable pub handle_string : ℕ → CString → Ctrl S → Option (Ctrl S)
  unfolding handle_on
  handle_string cc string st = elim (st.ctrl_conns cc) [
    | none ↦ none
    | some r ↦ elim (st.conns r.conn) [
      | none ↦ none
      | some link ↦ elim link.be_write [
        | none ↦ none
        | some write ↦ handle_on write link cc r string st
      ]
    ]
  ]
