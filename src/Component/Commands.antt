-- ===== src/Component/Commands.antt =====
-- The commands of a component: component.c, vde_component_command_* and commands_*.
pub mod Laws
pub mod Arrays
use vde.Base.{
  ℕ, suc, ◌≡◌, ◌≢◌, Bool, true, false, not, Option, none, some, List, [], ◌∷◌, if◌then◌else◌,
  CString, Status, done, fail, eexist, enoent, enomem, is_some,
}
use vde.Glib.{Glib}
use vde.Component.{Component, Command}

module _ ⦃g : Glib⦄ where
  unfoldable pub vde_component_command_add :
      g.Quarks → Component → Command → g.Quarks × Component × Status
  vde_component_command_add q c command =
      let (qname, q') = g.quark_from_string q command.name in
      if is_some (g.hash_lookup c.commands qname)
      then (q', c, fail eexist)
      else (q', record c { commands = g.hash_insert c.commands qname command }, done)

  unfoldable pub vde_component_command_del : g.Quarks → Component → Command → Component × Status
  vde_component_command_del q c command =
      let (commands, found) = g.hash_remove c.commands (g.quark_try_string q command.name) in
      (record c { commands = commands }, if found then done else fail enoent)

  unfoldable pub vde_component_command_get : g.Quarks → Component → CString → Option Command
  vde_component_command_get q c name = g.hash_lookup c.commands (g.quark_try_string q name)

  -- The array of commands ends at a NULL name: it is the list of those before.
  unfoldable pub vde_component_commands_register :
      g.Quarks → Component → List Command → g.Quarks × Component × Status
  vde_component_commands_register q c [] = (q, c, done)
  vde_component_commands_register q c (command ∷ rest) =
      let (q', c', st) = vde_component_command_add q c command in
      elim st [ done ↦ vde_component_commands_register q' c' rest | fail e ↦ (q', c', fail e) ]

  unfoldable pub vde_component_commands_deregister :
      g.Quarks → Component → List Command → Component × Status
  vde_component_commands_deregister q c [] = (c, done)
  vde_component_commands_deregister q c (command ∷ rest) =
      let (c', st) = vde_component_command_del q c command in
      elim st [ done ↦ vde_component_commands_deregister q c' rest | fail e ↦ (c', fail e) ]
