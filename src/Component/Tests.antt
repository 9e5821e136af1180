-- ===== src/Component/Tests.antt =====
-- Components at concrete commands and signals: the theorems at their inputs.
use vde.Base.{◌≡◌, refl, false, none, some, List, [], ◌∷◌, ◌==s◌, done, CString}
use vde.Base.Int.{pos}
use vde.Glib.Instance.{glib}
use vde.Signal.{Signal}
use vde.Component.{Component, Command, engine}
use vde.Component.Names.{Named, Named-init, Named-insert}
use vde.Component.Commands.Arrays.{DistinctNames}
use vde.Component.Signals.{vde_component_signal_attach, vde_component_signal_get}
use vde.Component.Signals.Laws.{raise-attach}

abbrev pub blank : Component
blank = record {
  ctx = none;
  cops = none;
  qname = 1;
  kind = engine;
  family = [];
  refcount = pos 0;
  commands = [];
  signals = [];
  priv = none;
  initialized = false;
  cm_listen = none;
  cm_connect = none;
  tr_listen = none;
  tr_connect = none;
  eng_new_conn = none;
  cm_connect_cb = none;
  cm_accept_cb = none;
  cm_error_cb = none;
  cm_cb_arg = none;
}

-- "status" and "printport" by their first letters
abbrev status : Command
status = record { name = b's' ∷ []; func = 1; description = []; args = [] }

abbrev printport : Command
printport = record { name = b'p' ∷ []; func = 2; description = []; args = [] }

abbrev hub_commands : List Command
hub_commands = status ∷ printport ∷ []

abbrev port_new : Signal
port_new = record { name = b'n' ∷ []; description = []; args = []; callbacks = [] }

blank-Named : Named [] blank.commands
blank-Named = Named-init []

hub_commands-DistinctNames : DistinctNames hub_commands
unfolding ◌==s◌
hub_commands-DistinctNames = (refl, (refl, tt))

signals-Named : Named {V = Signal} [] []
signals-Named = Named-init []

-- The component after "n" has been interned and added.
abbrev with_signal : Component
with_signal = record blank { signals = (1, port_new) ∷ [] }

abbrev interned : List CString
interned = (b'n' ∷ []) ∷ []

with_signal-Named : Named interned with_signal.signals
unfolding ◌==s◌
with_signal-Named = Named-insert [] [] (b'n' ∷ []) port_new (Named-init [])

raise-attach_example :
    (vde_component_signal_attach (some 60) interned with_signal (b'n' ∷ []) 1 2 11).1 ≡ done
unfolding vde_component_signal_get ◌==s◌
raise-attach_example =
    (raise-attach interned with_signal (b'n' ∷ []) (b'n' ∷ []) port_new 60 1 2 11 40 tt
      with_signal-Named refl refl).0
