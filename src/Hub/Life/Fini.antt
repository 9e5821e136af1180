-- ===== src/Hub/Life/Fini.antt =====
-- engine_hub_fini: the ports are closed, and the names of the component of the hub are gone.
use vde.Base.{
  ℕ, ◌≡◌, refl, ap, ◌∙◌, false, Option, none, some, List, [], ◌∷◌, All, ◌==◌, ◌==s◌, mem, Distinct,
  if◌then◌else◌, done, done_of_is_done, arith, CString, ==s_iff,
}
use vde.Glib.{Glib}
use vde.Signal.{Signal, Call, vde_signal_fini}
use vde.Component.{Component, Command}
use vde.Component.Names.{Named}
use vde.Component.Commands.{vde_component_command_get, vde_component_commands_deregister}
use vde.Component.Commands.Arrays.{DistinctNames, AllFind-array, commands_deregister_lem}
use vde.Component.Signals.{
  vde_component_signal_del, vde_component_signal_get, vde_component_signals_deregister,
}
use vde.Component.Frame.{commands_deregister-signals, signal_del-commands}
use vde.Component.Signals.Laws.{vde_component_signal_del_lem}
use vde.Connection.{Connection, Runner, vde_connection_fini}
use vde.Hub.{HubEngine, port_new, port_del}
use vde.Hub.Life.{port_signal, engine_hub_signals, close_ports, engine_hub_init, engine_hub_fini}
use vde.Base.{◌++◌, append-nil}
use vde.Hub.Life.Init.{Ready, ports-differ, engine_hub_init-Ready}

-- What closing the ports does, from the first to the last, each at the connection that was there at the start.
abbrev pub closes : {S : Type 0} → Runner S → (ℕ → Option Connection) → List ℕ → S → S
closes run conns [] s = s
closes run conns (port ∷ ports) s = closes run conns ports (elim (conns port) [
  | none ↦ s
  | some conn ↦ elim conn.be_close [ none ↦ s | some f ↦ run.run_close f conn.be_priv s ]
])

-- A connection is there, and its backend can close it.
abbrev pub IsOpen : Option Connection → Type 0
IsOpen o = (conn : Connection) × (f : ℕ) × (o ≡ some conn) × (conn.be_close ≡ some f)

-- The entries for the ports are those that were there.
abbrev Agree : (ℕ → Option Connection) → (ℕ → Option Connection) → List ℕ → Type 0
Agree conns before ports = All (λ p. conns p ≡ before p) ports

Agree-without :
    (conns before : ℕ → Option Connection) (port : ℕ) (ports : List ℕ)
    → mem port ports ≡ false
    → Agree conns before ports
    → Agree (λ a. if a == port then none else conns a) before ports
Agree-without conns before port [] d a = tt
Agree-without conns before port (p ∷ ports) d (e, a) =
    (ground (arith, e, d), Agree-without conns before port ports (ground (arith, d)) a)

close_ports-closes :
    {S : Type 0} (run : Runner S) (conns before : ℕ → Option Connection) (ports : List ℕ) (s : S)
    → Distinct ports
    → Agree conns before ports
    → All (λ p. IsOpen (before p)) ports
    → close_ports run conns ports s ≡ some (closes run before ports s)
unfolding close_ports vde_connection_fini
close_ports-closes run conns before [] s d a o = refl
close_ports-closes run conns before (port ∷ ports) s (fresh, d) (e, a)
      ((conn, f, here, closable), o) =
    let rest =
      close_ports-closes run (λ x. if x == port then none else conns x) before ports
        (run.run_close f conn.be_priv s) d (Agree-without conns before port ports fresh a) o in
    rw (e, here, closable, close_ports) rest

Agree-refl : (conns : ℕ → Option Connection) (ports : List ℕ) → Agree conns conns ports
Agree-refl conns [] = tt
Agree-refl conns (p ∷ ports) = (refl, Agree-refl conns ports)

-- The calls of the destroy callbacks of a signal that may be there.
abbrev destroyed : ℕ → Option Signal → List (Call (Unit {0}))
destroyed self none = []
destroyed self (some dup) = (vde_signal_fini dup self).0

module _ ⦃g : Glib⦄ where
  -- Both signals are removed, and the commands stay.
  signals_gone :
      (q : g.Quarks) (self : ℕ) (c : Component) (new del : Signal)
      → Named q c.signals
      → ((u : CString)
          → vde_component_signal_get q c u
            ≡ (if port_new ==s u then some new else if port_del ==s u then some del else none))
      → let (c', calls, st) = vde_component_signals_deregister q self c engine_hub_signals in
        (calls ≡ (vde_signal_fini new self).0 ++ (vde_signal_fini del self).0)
        × ((u : CString) → vde_component_signal_get q c' u ≡ none)
        × (c'.commands ≡ c.commands)
  unfolding vde_component_signals_deregister
  signals_gone q self c new del n get =
      let (c1, calls1, st1) = vde_component_signal_del q self c (port_signal port_new) in
      let (c2, calls2, st2) = vde_component_signal_del q self c1 (port_signal port_del) in
      let (n1, ok1, called1, get1) =
        vde_component_signal_del_lem q self c (port_signal port_new) n in
      let (n2, ok2, called2, get2) =
        vde_component_signal_del_lem q self c1 (port_signal port_del) n1 in
      let has_new : vde_component_signal_get q c port_new ≡ some new =
        ground (arith, get port_new, ==s_iff port_new port_new) in
      let has_del : vde_component_signal_get q c1 port_del ≡ some del =
        ground (arith, get1 port_del, get port_del, ports-differ, ==s_iff port_del port_del) in
      let d1 : st1 ≡ done = done_of_is_done st1 (ground (arith, ok1, has_new)) in
      let d2 : st2 ≡ done = done_of_is_done st2 (ground (arith, ok2, has_del)) in
      rw (d1, d2, vde_component_signals_deregister)
        (
          ap (λ (x : List (Call (Unit {0}))). x ++ (calls2 ++ []))
                (called1 ∙ ap (destroyed self) has_new)
              ∙ ap (λ (x : List (Call (Unit {0}))). (vde_signal_fini new self).0 ++ x)
                  (append-nil calls2 ∙ (called2 ∙ ap (destroyed self) has_del)),
          λ u. ground (arith, get2 u, get1 u, get u),
          signal_del-commands q self c1 (port_signal port_del)
              ∙ signal_del-commands q self c (port_signal port_new),
        )

  -- Fini closes each port once, in the order of the list, and frees it; the names of the commands and
  -- of the signals find nothing then, and the table of the commands is empty. The destroy callbacks of the
  -- two signals are called. It is assumed that no port is in the list twice and that each is of a
  -- connection that can be closed.
  pub engine_hub_fini-closes :
      {S : Type 0} (run : Runner S) (conns : ℕ → Option Connection) (commands : List Command)
      (new del : Signal) (q : g.Quarks) (self : ℕ) (c : Component) (hub : HubEngine) (s : S)
      → DistinctNames commands
      → Ready commands new del q c
      → Distinct hub.ports
      → All (λ p. IsOpen (conns p)) hub.ports
      → (c' : Component) × (engine_hub_fini run conns commands q self c hub s
          ≡ some (
            closes run conns hub.ports s,
            c',
            (vde_signal_fini new self).0 ++ (vde_signal_fini del self).0,
          ))
        × ((u : CString) → vde_component_command_get q c' u ≡ none)
        × (g.hash_size c'.commands ≡ 0)
        × ((u : CString) → vde_component_signal_get q c' u ≡ none)
  unfolding engine_hub_fini vde_component_command_get vde_component_signal_get
  engine_hub_fini-closes run conns commands new del q self c hub s d r once closable =
      let (c1, st1) = vde_component_commands_deregister q c commands in
      let (ok, nc, get, size) = commands_deregister_lem q c commands r.commands_named d (
        AllFind-array (vde_component_command_get q c) commands
          (λ u m. ground (arith, r.command_of u, m))) in
      let same = commands_deregister-signals q c commands in
      let (calls, none_left, kept) = signals_gone q self c1 new del (rw same r.signals_named) (λ u.
        ap (λ (t : g.Hash Signal). g.hash_lookup t (g.quark_try_string q u)) same
        ∙ r.signal_of u) in
      let c2 = (vde_component_signals_deregister q self c1 engine_hub_signals).0 in
      let closed =
        close_ports-closes run conns conns hub.ports s once (Agree-refl conns hub.ports) closable in
      (
        c2,
        rw (closed, engine_hub_fini)
            (ap (λ (x : List (Call (Unit {0}))). some (closes run conns hub.ports s, c2, x)) calls),
        λ u.
            ap (λ (t : g.Hash Command). g.hash_lookup t (g.quark_try_string q u)) kept
            ∙ ground (arith, get u, r.command_of u),
        ap g.hash_size kept ∙ ground (arith, size, r.size),
        none_left,
      )

  -- A component without commands and signals, on which init succeeds with memory, and which ends
  -- as a hub with some ports: each port is closed once, in the order of the list, no name finds a command or
  -- a signal, and the table of the commands is empty again. It is assumed that the names of the
  -- commands are distinct, that no port is in the list twice and that each is of a connection that can be closed.
  pub engine_hub_fini-init :
      {S : Type 0} (run : Runner S) (conns : ℕ → Option Connection) (commands : List Command)
      (hub_at n0 n1 : ℕ) (news : ℕ → Option ℕ) (q : g.Quarks) (self : ℕ) (c : Component)
      (ports : List ℕ) (s : S)
      → news 0 ≡ some n0
      → news 1 ≡ some n1
      → c.commands ≡ g.hash_init
      → c.signals ≡ g.hash_init
      → DistinctNames commands
      → Distinct ports
      → All (λ p. IsOpen (conns p)) ports
      → let (q', c', made, st) = engine_hub_init commands (some hub_at) news q self c in
        (hub : HubEngine) × (c'' : Component) × (calls : List (Call (Unit {0}))) × (st ≡ done)
        × (made ≡ some hub)
        × (c'.priv ≡ some hub_at)
        × (engine_hub_fini run conns commands q' self c' (record hub { ports = ports }) s
            ≡ some (closes run conns ports s, c'', calls))
        × ((u : CString) → vde_component_command_get q' c'' u ≡ none)
        × (g.hash_size c''.commands ≡ 0)
        × ((u : CString) → vde_component_signal_get q' c'' u ≡ none)
  engine_hub_fini-init run conns commands hub_at n0 n1 news q self c ports s e0 e1 ec es d once
        closable =
      let (q', c', made, st) = engine_hub_init commands (some hub_at) news q self c in
      let (ok, is_made, priv, ready) =
        engine_hub_init-Ready commands hub_at n0 n1 news q self c e0 e1 ec es d in
      let hub : HubEngine = record { component = self; ports = [] } in
      let (c'', ended, no_command, size, no_signal) =
        engine_hub_fini-closes run conns commands (port_signal port_new) (port_signal port_del) q'
          self c' (record hub { ports = ports }) s d ready once closable in
      (hub, c'', _, ok, is_made, priv, ended, no_command, size, no_signal)
