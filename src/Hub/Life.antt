-- ===== src/Hub/Life.antt =====
-- engine_hub.c: engine_hub_init and engine_hub_fini, and the command
-- engine_hub_status. The array of the commands is in a header that the build generates: it is an argument.
pub mod Init
pub mod Fini
pub mod Tests
use vde.Base.{
  ℕ, Bool, true, false, Option, none, some, List, [], ◌∷◌, ◌==◌, if◌then◌else◌, CString, Status,
  done, fail, enomem,
}
use vde.Base.Int.{pos}
use vde.Glib.{Glib}
use vde.Sobj.{Sobj}
use vde.Signal.{Signal, Call}
use vde.Component.{Component, Command, vde_component_set_priv}
use vde.Component.Commands.{vde_component_commands_register, vde_component_commands_deregister}
use vde.Component.Signals.{vde_component_signals_register, vde_component_signals_deregister}
use vde.Connection.{Connection, Runner, vde_connection_fini}
use vde.Hub.{HubEngine, port_new, port_del}

-- A description that is NULL is empty.
abbrev pub port_signal : CString → Signal
port_signal name = record { name = name; description = []; args = []; callbacks = [] }

abbrev pub engine_hub_signals : List Signal
engine_hub_signals = port_signal port_new ∷ port_signal port_del ∷ []

-- The loop over the ports: a connection that is deleted is not there any more.
unfoldable pub close_ports :
    {S : Type 0} → Runner S → (ℕ → Option Connection) → List ℕ → S → Option S
close_ports run conns [] s = some s
close_ports run conns (port ∷ ports) s = elim (conns port) [
  | none ↦ none
  | some conn ↦ elim (vde_connection_fini run conn s) [
    | none ↦ none
    | some s' ↦ close_ports run (λ a. if a == port then none else conns a) ports s'
  ]
]

module _ ⦃g : Glib⦄ where
  -- `hub_at` is what vde_calloc returns for the hub, `news` what it returns for the signals. The hub is
  -- `none` where it is not made or is freed again.
  unfoldable pub engine_hub_init :
      List Command
      → Option ℕ
      → (ℕ → Option ℕ)
      → g.Quarks
      → ℕ
      → Component
      → g.Quarks × Component × Option HubEngine × Status
  engine_hub_init commands none news q self c = (q, c, none, fail enomem)
  engine_hub_init commands (some hub_at) news q self c =
      let (q1, c1, st1) = vde_component_commands_register q c commands in
      elim st1 [
        | fail e ↦ (q1, c1, none, fail e)
        | done ↦
            let (q2, c2, st2) = vde_component_signals_register news 0 q1 c1 engine_hub_signals in
            elim st2 [
              | fail e ↦ (q2, c2, none, fail e)
              | done ↦ (
                q2,
                vde_component_set_priv c2 (some hub_at),
                some (record { component = self; ports = [] }),
                done,
              )
            ]
      ]

  -- What the two calls at the end return is not looked at. The calls are those of the destroy callbacks.
  unfoldable pub engine_hub_fini :
      {S : Type 0}
      → Runner S
      → (ℕ → Option Connection)
      → List Command
      → g.Quarks
      → ℕ
      → Component
      → HubEngine
      → S
      → Option (S × Component × List (Call (Unit {0})))
  unfolding close_ports
  engine_hub_fini run conns commands q self c hub s = elim (close_ports run conns hub.ports s) [
    | none ↦ none
    | some s' ↦
        let (c1, st1) = vde_component_commands_deregister q c commands in
        let (c2, calls, st2) = vde_component_signals_deregister q self c1 engine_hub_signals in
        some (s', c2, calls)
  ]

  module _ ⦃o : Sobj⦄ where
    pub engine_hub_status : HubEngine → o.Obj × Status
    engine_hub_status hub = (o.new_int (pos (g.list_length hub.ports)), done)
