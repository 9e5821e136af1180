-- ===== src/Component/Commands/Arrays.antt =====
-- Whole arrays of commands, as an engine registers and removes them.
use vde.Base.{
  ◌+◌, ◌-◌, ◌≡◌, refl, ap, Bool, true, false, Option, none, some, List, [], ◌∷◌, ◌==s◌, arith,
  if◌then◌else◌, is_some, done_of_is_done, done, CString, length, ==s_iff, ==s_refl,
}
use vde.Glib.{Glib}
use vde.Component.{Component, Command}
use vde.Component.Names.{Named, Named-init}
use vde.Component.Commands.{
  vde_component_command_add, vde_component_command_del, vde_component_command_get,
  vde_component_commands_register, vde_component_commands_deregister,
}
use vde.Component.Commands.Laws.{
  vde_component_command_add_lem, vde_component_command_del_lem, command_add-size, command_del-size,
}

-- The first command of the array that has this name.
abbrev pub command_named : List Command → CString → Option Command
command_named [] u = none
command_named (c ∷ cs) u = if c.name ==s u then some c else command_named cs u

-- No two commands of the array share a name.
abbrev pub DistinctNames : List Command → Type 0
DistinctNames [] = Unit
DistinctNames (c ∷ cs) = (is_some (command_named cs c.name) ≡ false) × DistinctNames cs

-- What the names of the array find: nothing, or something.
abbrev pub AllFind : Bool → (CString → Option Command) → List Command → Type 0
AllFind b f [] = Unit
AllFind b f (x ∷ xs) = (is_some (f x.name) ≡ b) × AllFind b f xs

-- A change at one name that is not in the array changes nothing for the array.
AllFind-other :
    (b : Bool) (f h : CString → Option Command) (n : CString) (o : Option Command)
    (xs : List Command)
    → is_some (command_named xs n) ≡ false
    → ((u : CString) → h u ≡ (if n ==s u then o else f u))
    → AllFind b f xs
    → AllFind b h xs
AllFind-other b f h n o [] d e a = tt
AllFind-other b f h n o (x ∷ xs) d e a = (
  ground (arith, e x.name, ==s_iff n x.name, ==s_iff x.name n),
  AllFind-other b f h n o xs (ground arith) e a.1,
)

pub AllFind-array :
    (f : CString → Option Command) (xs : List Command)
    → ((u : CString) → is_some (command_named xs u) ≡ true → is_some (f u) ≡ true)
    → AllFind true f xs
AllFind-array f [] h = tt
AllFind-array f (x ∷ xs) h =
    (h x.name (ground (arith, ==s_refl x.name)), AllFind-array f xs (λ u m. h u (ground arith)))

module _ ⦃g : Glib⦄ where
  pub empty_get :
      (q : g.Quarks) (c : Component)
      → c.commands ≡ g.hash_init
      → (u : CString) → vde_component_command_get q c u ≡ none
  unfolding vde_component_command_get
  empty_get q c e u = rw e (g.lookup_init Command (g.quark_try_string q u))

  pub AllFind-none :
      (q : g.Quarks) (c : Component) (cmds : List Command)
      → c.commands ≡ g.hash_init
      → AllFind false (vde_component_command_get q c) cmds
  AllFind-none q c [] e = tt
  AllFind-none q c (x ∷ xs) e = (ap is_some (empty_get q c e x.name), AllFind-none q c xs e)

  -- Registering an array of commands with distinct names that are not there yet succeeds; then each
  -- name finds the command of the array, or what it found before, and the table has grown by them.
  pub commands_register_lem :
      (q : g.Quarks) (c : Component) (cmds : List Command)
      → Named q c.commands
      → DistinctNames cmds
      → AllFind false (vde_component_command_get q c) cmds
      → let (q', c', st) = vde_component_commands_register q c cmds in
        (st ≡ done)
        × Named q' c'.commands
        × ((u : CString)
            → vde_component_command_get q' c' u ≡ (
                if is_some (command_named cmds u)
                then command_named cmds u
                else vde_component_command_get q c u))
        × (g.hash_size c'.commands ≡ g.hash_size c.commands + length cmds)
  unfolding vde_component_commands_register
  commands_register_lem q c [] n d a = (refl, n, λ u. refl, omega arith)
  commands_register_lem q c (x ∷ xs) n d a =
      let (q', c', st) = vde_component_command_add q c x in
      let (n', ok, get) = vde_component_command_add_lem q c x n in
      let e : st ≡ done = done_of_is_done st (ground (arith, ok, a.0)) in
      let get' : (u : CString)
          → vde_component_command_get q' c' u
            ≡ (if x.name ==s u then some x else vde_component_command_get q c u) =
        λ u. ground (arith, get u, e) in
      let (e', n'', get'', size) = commands_register_lem q' c' xs n' d.1 (
        AllFind-other false (vde_component_command_get q c) (vde_component_command_get q' c') x.name
          (some x) xs d.0 get' a.1) in
      rw (e, vde_component_commands_register)
        (
          e',
          n'',
          λ u. ground (arith, get'' u, get' u, d.0, ==s_iff x.name u),
          ground (arith, size, e, command_add-size q c x n),
        )

  -- Removing an array of commands with distinct names that are all there succeeds; then none of
  -- the names finds a command, every other name finds what it found before, and the table has
  -- shrunk by them.
  pub commands_deregister_lem :
      (q : g.Quarks) (c : Component) (cmds : List Command)
      → Named q c.commands
      → DistinctNames cmds
      → AllFind true (vde_component_command_get q c) cmds
      → let (c', st) = vde_component_commands_deregister q c cmds in
        (st ≡ done)
        × Named q c'.commands
        × ((u : CString)
            → vde_component_command_get q c' u
              ≡ (if is_some (command_named cmds u) then none else vde_component_command_get q c u))
        × (g.hash_size c'.commands ≡ g.hash_size c.commands - length cmds)
  unfolding vde_component_commands_deregister
  commands_deregister_lem q c [] n d a = (refl, n, λ u. refl, omega arith)
  commands_deregister_lem q c (x ∷ xs) n d a =
      let (c', st) = vde_component_command_del q c x in
      let (n', ok, get) = vde_component_command_del_lem q c x n in
      let e : st ≡ done = done_of_is_done st (ground (arith, ok, a.0)) in
      let (e', n'', get'', size) = commands_deregister_lem q c' xs n' d.1 (
        AllFind-other true (vde_component_command_get q c) (vde_component_command_get q c') x.name
          none xs d.0 get a.1) in
      rw (e, vde_component_commands_deregister)
        (
          e',
          n'',
          λ u. ground (arith, get'' u, get u),
          ground (arith, size, e, command_del-size q c x),
        )

  -- A component whose command table was empty, and which registers an array of commands with
  -- distinct names and later removes it, has an empty table again: what vde_component_fini asserts.
  pub deregister-register :
      (q : g.Quarks) (c : Component) (cmds : List Command)
      → c.commands ≡ g.hash_init
      → DistinctNames cmds
      → let (q', c', st) = vde_component_commands_register q c cmds in
        let (c'', st') = vde_component_commands_deregister q' c' cmds in
        (st ≡ done)
        × (st' ≡ done)
        × (g.hash_size c''.commands ≡ 0)
        × ((u : CString) → vde_component_command_get q' c'' u ≡ none)
  deregister-register q c cmds e d =
      let (q', c', st) = vde_component_commands_register q c cmds in
      let empty : (u : CString) → vde_component_command_get q c u ≡ none = empty_get q c e in
      let n : Named q c.commands = rw e (Named-init q) in
      let (ok, n', get, size) = commands_register_lem q c cmds n d (AllFind-none q c cmds e) in
      let there : AllFind true (vde_component_command_get q' c') cmds =
        AllFind-array (vde_component_command_get q' c') cmds (λ u m. ground (arith, get u)) in
      let (ok', n'', get', size') = commands_deregister_lem q' c' cmds n' d there in
      (
        ok,
        ok',
        ground (arith, size, size', e, g.size_init Command),
        λ u. ground (arith, get' u, get u, empty u),
      )
