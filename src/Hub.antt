-- ===== src/Hub.antt =====
-- engine_hub.c: the engine that writes each packet which it reads on a port to all other ports. A port
-- is the address of its connection.
pub mod Laws
pub mod Life
pub mod Tests
use vde.Base.{
  ℕ, Bool, true, false, Option, none, some, List, [], ◌∷◌, ◌==◌, ltb, not, ◌&&◌, if◌then◌else◌,
  CString, Status, done, fail, epipe,
}
use vde.Glib.{Glib}
use vde.Packet.{Pkt}
use vde.Signal.{Call}
use vde.Component.{Component}
use vde.Component.Signals.{vde_component_signal_raise}
use vde.Connection.{
  Connection, ConnError, conn_ok, conn_read_closed, conn_read_delay, conn_write_closed,
  conn_write_delay, vde_connection_max_payload, vde_connection_set_callbacks,
  vde_connection_set_pkt_properties, vde_connection_set_send_properties,
}

-- sizeof(struct eth_frame): a header of 14 bytes, 1500 bytes and a trailer of 4
abbrev pub eth_frame_sz : ℕ
eth_frame_sz = 1518

abbrev pub timeout : ℕ
timeout = 5

abbrev pub times : ℕ
times = 10

abbrev pub port_new : CString
port_new = b'p' ∷ b'o' ∷ b'r' ∷ b't' ∷ b'_' ∷ b'n' ∷ b'e' ∷ b'w' ∷ []

abbrev pub port_del : CString
port_del = b'p' ∷ b'o' ∷ b'r' ∷ b't' ∷ b'_' ∷ b'd' ∷ b'e' ∷ b'l' ∷ []

pub record HubEngine : Type 0 where
  pub component : ℕ
  pub ports : List ℕ

-- The addresses of hub_engine_readcb, of hub_engine_errorcb and of the hub.
pub record Addresses : Type 0 where
  pub readcb : ℕ
  pub errorcb : ℕ
  pub hub : ℕ

module _ {S : Type 0} (write : ℕ → Pkt → S → S × Status) where
  -- The loop; what a write returns is not looked at.
  pub write_loop : List ℕ → ℕ → Pkt → S → S
  write_loop [] conn pkt s = s
  write_loop (port ∷ ports) conn pkt s =
      write_loop ports conn pkt (if port == conn then s else (write port pkt s).0)

  pub hub_engine_readcb : HubEngine → ℕ → Pkt → S → S × Status
  unfolding write_loop
  hub_engine_readcb hub conn pkt s = (write_loop hub.ports conn pkt s, done)

module _ ⦃g : Glib⦄ where
  -- The fatal part of hub_engine_errorcb. The info of the signal is the number of the ports.
  pub remove_port : g.Quarks → Component → HubEngine → ℕ → HubEngine × List (Call ℕ) × Status
  remove_port q c hub conn =
      let hub' : HubEngine = record hub { ports = g.list_remove (λ p. p) hub.ports conn } in
      (
        hub',
        vde_component_signal_raise q hub.component c port_del (g.list_length hub'.ports),
        fail epipe,
      )

  -- `c` is the component of the hub.
  pub hub_engine_errorcb :
      g.Quarks → Component → HubEngine → ℕ → ConnError → HubEngine × List (Call ℕ) × Status
  unfolding remove_port
  hub_engine_errorcb q c hub conn conn_write_delay = (hub, [], done)
  hub_engine_errorcb q c hub conn conn_ok = remove_port q c hub conn
  hub_engine_errorcb q c hub conn conn_read_closed = remove_port q c hub conn
  hub_engine_errorcb q c hub conn conn_read_delay = remove_port q c hub conn
  hub_engine_errorcb q c hub conn conn_write_closed = remove_port q c hub conn

  -- The address of the connection, and the connection. The Boolean is `true` for a return of 0.
  pub hub_engine_newconn :
      Addresses
      → g.Quarks
      → Component
      → HubEngine
      → ℕ
      → Connection
      → Option (HubEngine × Connection × List (Call ℕ) × Bool)
  hub_engine_newconn at q c hub conn_at conn =
      let max_payload = vde_connection_max_payload conn in
      let hub' : HubEngine = record hub { ports = g.list_prepend hub.ports conn_at } in
      if not (max_payload == 0) && ltb max_payload eth_frame_sz
      then some (hub, conn, [], false)
      else elim (vde_connection_set_callbacks conn (some at.readcb) none (some at.errorcb)
          (some at.hub)) [
            | none ↦ none
            | some c1 ↦
                elim (vde_connection_set_send_properties (vde_connection_set_pkt_properties c1 0 0)
                  times (some (record { tv_sec = timeout; tv_usec = 0 }))) [
                    | none ↦ none
                    | some c2 ↦ some (
                      hub',
                      c2,
                      vde_component_signal_raise q hub.component c port_new
                          (g.list_length hub'.ports),
                      true,
                    )
                  ]
          ]
