-- ===== src/Ctrl/Notices.antt =====
-- engine_ctrl.c: signal_callback and signal_destroy_callback, which a signal calls for a connection of the
-- control engine that has subscribed to it.
pub mod Laws
pub mod Tests
use vde.Base.{ℕ, Bool, Option, none, some, List, CString, Status}
use vde.Glib.{Glib}
use vde.Sobj.{Sobj}
use vde.Packet.{Pkt}
use vde.Ctrl.Paths.{build_signal_path}
use vde.Ctrl.Rpc.{rpc_10_build_notice}
use vde.Ctrl.Subscribe.{Registration, find_registration}
use vde.Ctrl.Write.{ctrl_engine_conn_write}

module _ ⦃g : Glib⦄ where
  module _ ⦃s : Sobj⦄ (to_string : s.Obj → Option CString) {C : Type 0}
      (send : Pkt → C → C × Status) (alloc : ℕ → Bool) (payload_sz : ℕ) where
    -- The queue of the connection, and what writing to it changes. `none` is an assertion that fails, or
    -- what ctrl_engine_conn_write does not survive.
    unfoldable pub signal_callback :
        CString → CString → Option s.Obj → List Pkt → C → Option (List Pkt × C)
    signal_callback component_name signal_path info queue c =
        elim (rpc_10_build_notice
          (some (s.new_string (build_signal_path component_name signal_path))) info) [
            | none ↦ none
            | some notice ↦
                elim (ctrl_engine_conn_write send alloc payload_sz (to_string notice) queue c) [
                  | none ↦ none
                  | some (queue', c', sent) ↦ some (queue', c')
                ]
          ]

  -- The first registered path that strncmp, over its own length, finds in the path of the signal.
  unfoldable pub signal_destroy_callback : CString → CString → List Registration → List Registration
  signal_destroy_callback component_name signal_path reg_signals =
      elim (find_registration reg_signals (build_signal_path component_name signal_path)) [
        | none ↦ reg_signals
        | some r ↦ g.list_remove (λ (x : Registration). x.addr) reg_signals r.addr
      ]
