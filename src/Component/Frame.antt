-- ===== src/Component/Frame.antt =====
-- The commands and the signals of a component do not touch each other.
use vde.Base.{ℕ, ◌≡◌, refl, Option, List, [], ◌∷◌, arith}
use vde.Glib.{Glib}
use vde.Signal.{Signal}
use vde.Component.{Component, Command}
use vde.Component.Commands.{
  vde_component_command_add, vde_component_command_del, vde_component_commands_register,
  vde_component_commands_deregister,
}
use vde.Component.Signals.{vde_component_signal_add, vde_component_signal_del}

module _ ⦃g : Glib⦄ where
  pub command_add-signals :
      (q : g.Quarks) (c : Component) (x : Command)
      → (vde_component_command_add q c x).1.signals ≡ c.signals
  unfolding vde_component_command_add
  command_add-signals q c x = ground arith

  pub commands_register-signals :
      (q : g.Quarks) (c : Component) (xs : List Command)
      → (vde_component_commands_register q c xs).1.signals ≡ c.signals
  unfolding vde_component_commands_register
  commands_register-signals q c [] = refl
  commands_register-signals q c (x ∷ xs) =
      let (q', c', st) = vde_component_command_add q c x in
      ground (arith, command_add-signals q c x, commands_register-signals q' c' xs)

  pub commands_deregister-signals :
      (q : g.Quarks) (c : Component) (xs : List Command)
      → (vde_component_commands_deregister q c xs).0.signals ≡ c.signals
  unfolding vde_component_commands_deregister vde_component_command_del
  commands_deregister-signals q c [] = refl
  commands_deregister-signals q c (x ∷ xs) =
      let (c', st) = vde_component_command_del q c x in
      ground (arith, commands_deregister-signals q c' xs)

  pub signal_add-quarks :
      (new : Option ℕ) (q : g.Quarks) (c : Component) (s : Signal)
      → (vde_component_signal_add new q c s).0 ≡ (g.quark_from_string q s.name).1
  unfolding vde_component_signal_add
  signal_add-quarks new q c s = ground arith

  pub signal_add-commands :
      (new : Option ℕ) (q : g.Quarks) (c : Component) (s : Signal)
      → (vde_component_signal_add new q c s).1.commands ≡ c.commands
  unfolding vde_component_signal_add
  signal_add-commands new q c s = ground arith

  pub signal_del-commands :
      (q : g.Quarks) (self : ℕ) (c : Component) (s : Signal)
      → (vde_component_signal_del q self c s).0.commands ≡ c.commands
  unfolding vde_component_signal_del
  signal_del-commands q self c s = ground arith
