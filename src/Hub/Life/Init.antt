-- ===== src/Hub/Life/Init.antt =====
-- engine_hub_init: the names that the component of the hub has then.
use vde.Base.{
  ℕ, ◌≡◌, refl, ap, ◌∙◌, false, Option, none, some, List, [], ◌==s◌, if◌then◌else◌, done,
  done_of_is_done, arith, CString, length, ==s_iff,
}
use vde.Glib.{Glib}
use vde.Signal.{Signal}
use vde.Component.{Component, Command, vde_component_set_priv}
use vde.Component.Names.{Named, Named-init, Named-from, get-from}
use vde.Component.Commands.{vde_component_command_get, vde_component_commands_register}
use vde.Component.Commands.Arrays.{
  DistinctNames, command_named, AllFind-none, empty_get, commands_register_lem,
}
use vde.Component.Signals.{
  vde_component_signal_add, vde_component_signal_get, vde_component_signals_register,
}
use vde.Component.Frame.{commands_register-signals, signal_add-quarks, signal_add-commands}
use vde.Component.Signals.Laws.{vde_component_signal_add_lem}
use vde.Hub.{port_new, port_del}
use vde.Hub.Life.{port_signal, engine_hub_signals, engine_hub_init}

pub ports-differ : (port_new ==s port_del) ≡ false
unfolding ◌==s◌
ports-differ = refl

module _ ⦃g : Glib⦄ where
  -- The component has the commands of the array and the signals `new` and `del` of the hub, and no others.
  pub record Ready (commands : List Command) (new del : Signal) (q : g.Quarks) (c : Component)
      : Type 0 where
    pub commands_named : Named q c.commands
    pub signals_named : Named q c.signals
    pub command_of : (u : CString) → vde_component_command_get q c u ≡ command_named commands u
    pub signal_of :
        (u : CString)
        → vde_component_signal_get q c u
          ≡ (if port_new ==s u then some new else if port_del ==s u then some del else none)
    pub size : g.hash_size c.commands ≡ length commands

  -- A signal that is not there is added, and the commands keep their names.
  record Added (q : g.Quarks) (c : Component) (s : Signal) (q' : g.Quarks) (c' : Component)
      : Type 0 where
    commands_named : Named q' c'.commands
    signals_named : Named q' c'.signals
    command_of : (u : CString) → vde_component_command_get q' c' u ≡ vde_component_command_get q c u
    signal_of :
        (u : CString)
        → vde_component_signal_get q' c' u ≡ (
            if s.name ==s u
            then some (record s { callbacks = [] })
            else vde_component_signal_get q c u)
    size : g.hash_size c'.commands ≡ g.hash_size c.commands

  signal_add-Added :
      (new : Option ℕ) (a : ℕ) (q : g.Quarks) (c : Component) (s : Signal)
      → new ≡ some a
      → Named q c.commands
      → Named q c.signals
      → vde_component_signal_get q c s.name ≡ none
      → let (q', c', st) = vde_component_signal_add new q c s in (st ≡ done) × Added q c s q' c'
  unfolding vde_component_command_get
  signal_add-Added new a q c s there nc ns free = rw there (
      let (q', c', st) = vde_component_signal_add (some a) q c s in
      let (ns', ok, get) = vde_component_signal_add_lem q c s a ns in
      let e : st ≡ done = done_of_is_done st (ground (arith, ok, free)) in
      let same = signal_add-commands (some a) q c s in
      let quarks = signal_add-quarks (some a) q c s in
      (
        e,
        record {
          commands_named = rw (quarks, same) (Named-from q c.commands s.name nc);
          signals_named = ns';
          command_of = λ u.
              ap (λ (t : g.Hash Command). g.hash_lookup t (g.quark_try_string q' u)) same
              ∙ rw quarks (get-from q c.commands s.name u nc);
          signal_of = λ u. ground (arith, get u, e);
          size = ap g.hash_size same;
        },
      ))

  -- The two signals are added to a component that has none.
  signals-Ready :
      (news : ℕ → Option ℕ) (n0 n1 : ℕ) (q : g.Quarks) (c : Component) (commands : List Command)
      → news 0 ≡ some n0
      → news 1 ≡ some n1
      → Named q c.commands
      → ((u : CString) → vde_component_command_get q c u ≡ command_named commands u)
      → g.hash_size c.commands ≡ length commands
      → c.signals ≡ g.hash_init
      → let (q', c', st) = vde_component_signals_register news 0 q c engine_hub_signals in
        (st ≡ done) × Ready commands (port_signal port_new) (port_signal port_del) q' c'
  unfolding vde_component_signals_register vde_component_signal_get
  signals-Ready news n0 n1 q c commands e0 e1 nc get size none_yet =
      let empty : (u : CString) → vde_component_signal_get q c u ≡ none =
        λ u. rw none_yet (g.lookup_init Signal (g.quark_try_string q u)) in
      let (d1, a1) =
        signal_add-Added (news 0) n0 q c (port_signal port_new) e0 nc (rw none_yet (Named-init q))
          (empty port_new) in
      let (q1, c1, st1) = vde_component_signal_add (news 0) q c (port_signal port_new) in
      let (d2, a2) =
        signal_add-Added (news 1) n1 q1 c1 (port_signal port_del) e1 a1.commands_named
          a1.signals_named (ground (arith, a1.signal_of port_del, empty port_del, ports-differ)) in
      rw (d1, d2, vde_component_signals_register)
        (
          refl,
          record {
            commands_named = a2.commands_named;
            signals_named = a2.signals_named;
            command_of = λ u. a2.command_of u ∙ (a1.command_of u ∙ get u);
            signal_of = λ u. ground (
              arith,
              a2.signal_of u,
              a1.signal_of u,
              empty u,
              ==s_iff port_new u,
              ==s_iff port_del u,
            );
            size = a2.size ∙ (a1.size ∙ size);
          },
        )

  set_priv-priv : (c : Component) (p : ℕ) → (vde_component_set_priv c (some p)).priv ≡ some p
  unfolding vde_component_set_priv
  set_priv-priv c p = refl

  set_priv-Ready :
      (commands : List Command) (new del : Signal) (q : g.Quarks) (c : Component) (p : ℕ)
      → Ready commands new del q c
      → Ready commands new del q (vde_component_set_priv c (some p))
  unfolding vde_component_set_priv vde_component_command_get vde_component_signal_get
  set_priv-Ready commands new del q c p r = record {
    commands_named = r.commands_named;
    signals_named = r.signals_named;
    command_of = r.command_of;
    signal_of = r.signal_of;
    size = r.size;
  }

  -- Given memory, on a component that has no commands and no signals, init succeeds: the private
  -- data is the hub, which has no ports, and the component has the commands of the array and the two signals.
  pub engine_hub_init-Ready :
      (commands : List Command) (hub_at n0 n1 : ℕ) (news : ℕ → Option ℕ) (q : g.Quarks) (self : ℕ)
      (c : Component)
      → news 0 ≡ some n0
      → news 1 ≡ some n1
      → c.commands ≡ g.hash_init
      → c.signals ≡ g.hash_init
      → DistinctNames commands
      → let (q', c', hub, st) = engine_hub_init commands (some hub_at) news q self c in
        (st ≡ done)
        × (hub ≡ some (record { component = self; ports = [] }))
        × (c'.priv ≡ some hub_at)
        × Ready commands (port_signal port_new) (port_signal port_del) q' c'
  unfolding engine_hub_init
  engine_hub_init-Ready commands hub_at n0 n1 news q self c e0 e1 ec es d =
      let (q1, c1, st1) = vde_component_commands_register q c commands in
      let (ok1, nc, get, size) =
        commands_register_lem q c commands (rw ec (Named-init q)) d
          (AllFind-none q c commands ec) in
      let (ok2, ready) =
        signals-Ready news n0 n1 q1 c1 commands e0 e1 nc
          (λ u. ground (arith, get u, empty_get q c ec u))
          (ground (arith, size, ec, g.size_init Command))
          (commands_register-signals q c commands ∙ es) in
      rw (ok1, ok2, engine_hub_init)
        (
          refl,
          refl,
          set_priv-priv (vde_component_signals_register news 0 q1 c1 engine_hub_signals).1 hub_at,
          set_priv-Ready commands (port_signal port_new) (port_signal port_del) _ _ hub_at ready,
        )
