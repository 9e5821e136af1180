-- ===== src/Component/Commands/Laws.antt =====
-- What registering and removing commands does to the commands that a component finds by name.
use vde.Base.{
  ◌+◌, ◌-◌, ◌≡◌, not, none, some, ◌&&◌, ◌==s◌, arith, if◌then◌else◌, is_some, is_done, CString,
  Bool-cases, inl, inr,
}
use vde.Glib.{Glib}
use vde.Component.{Component, Command}
use vde.Component.Names.{
  Named, Named-from, Named-insert, Named-remove, lookup-from, get-from, get-insert, get-remove,
}
use vde.Component.Commands.{
  vde_component_command_add, vde_component_command_del, vde_component_command_get,
}

module _ ⦃g : Glib⦄ where
  -- A command is added exactly when no command of its name is there; then its name finds it, and
  -- every other name finds what it found before. A refusal changes no command.
  pub vde_component_command_add_lem :
      (q : g.Quarks) (c : Component) (cmd : Command)
      → Named q c.commands
      → let (q', c', st) = vde_component_command_add q c cmd in
        Named q' c'.commands
        × (is_done st ≡ not (is_some (vde_component_command_get q c cmd.name)))
        × ((u : CString)
            → vde_component_command_get q' c' u ≡ (
                if is_done st && (cmd.name ==s u)
                then some cmd
                else vde_component_command_get q c u))
  unfolding vde_component_command_add vde_component_command_get
  vde_component_command_add_lem q c cmd n =
      elim (Bool-cases (is_some (g.hash_lookup c.commands (g.quark_from_string q cmd.name).0))) [
        | inl e ↦
            rw (e, vde_component_command_add)
              (
                Named-from q c.commands cmd.name n,
                ground (arith, lookup-from q c.commands cmd.name n),
                λ u. get-from q c.commands cmd.name u n,
              )
        | inr e ↦
            rw (e, vde_component_command_add)
              (
                Named-insert q c.commands cmd.name cmd n,
                ground (arith, lookup-from q c.commands cmd.name n),
                λ u. get-insert q c.commands cmd.name u cmd,
              )
      ]

  -- A command is removed exactly when its name finds one; then the name finds none, and every
  -- other name finds what it found before.
  pub vde_component_command_del_lem :
      (q : g.Quarks) (c : Component) (cmd : Command)
      → Named q c.commands
      → let (c', st) = vde_component_command_del q c cmd in
        Named q c'.commands
        × (is_done st ≡ is_some (vde_component_command_get q c cmd.name))
        × ((u : CString)
            → vde_component_command_get q c' u
              ≡ (if cmd.name ==s u then none else vde_component_command_get q c u))
  unfolding vde_component_command_del vde_component_command_get
  vde_component_command_del_lem q c cmd n = (
    Named-remove q c.commands (g.quark_try_string q cmd.name) n,
    ground (arith, g.remove_found c.commands (g.quark_try_string q cmd.name)),
    λ u. get-remove q c.commands cmd.name u n,
  )

  pub command_add-size :
      (q : g.Quarks) (c : Component) (cmd : Command)
      → Named q c.commands
      → let (q', c', st) = vde_component_command_add q c cmd in
        g.hash_size c'.commands
        ≡ (if is_done st then g.hash_size c.commands + 1 else g.hash_size c.commands)
  unfolding vde_component_command_add
  command_add-size q c cmd n =
      ground (arith, g.size_insert c.commands (g.quark_from_string q cmd.name).0 cmd)

  pub command_del-size :
      (q : g.Quarks) (c : Component) (cmd : Command)
      → let (c', st) = vde_component_command_del q c cmd in
        g.hash_size c'.commands
        ≡ (if is_done st then g.hash_size c.commands - 1 else g.hash_size c.commands)
  unfolding vde_component_command_del
  command_del-size q c cmd = ground (
    arith,
    g.size_remove c.commands (g.quark_try_string q cmd.name),
    g.remove_found c.commands (g.quark_try_string q cmd.name),
  )
