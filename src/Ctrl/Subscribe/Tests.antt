-- ===== src/Ctrl/Subscribe/Tests.antt =====
-- A connection that subscribes to a signal of a hub: the theorem at its inputs.
use vde.Ctrl.Subscribe.{Registration}
use vde.Ctrl.Subscribe.Detached.{AllValid}
use vde.Signal.Registered
use vde.Base.{
  List, Bool-cases, inl, inr, ◌≡◌, refl, true, none, some, [], ◌∷◌, ◌==◌, ◌==s◌, if◌then◌else◌,
  CString, done,
}
use vde.Glib.Instance.{glib}
use vde.OrdHash.{vde_ordhash_new, vde_ordhash_insert, vde_ordhash_lookup}
use vde.Signal.{Signal}
use vde.Component.{Component}
use vde.Component.Signals.{vde_component_signal_get}
use vde.Component.Tests.{blank}
use vde.Context.{World, no_handler}
use vde.Context.Life.{vde_context_get_component}
use vde.Ctrl.Paths.{check_split_path, check_parts, find_sep}
use vde.Ctrl.Subscribe.{
  attached, detached, Subscriber, Subs, engine_ctrl_notify_add, engine_ctrl_notify_del,
}
use vde.Ctrl.Subscribe.Laws.{Restored, notify_del-add}

abbrev pub port_new : Signal
port_new = record { name = b'p' ∷ []; description = []; args = []; callbacks = [] }

abbrev pub hub : Component
hub = record blank { signals = (1, port_new) ∷ [] }

-- The signal "p" has quark 1, the component "h" has quark 2.
abbrev pub world : World
world = record {
  quarks = (b'h' ∷ []) ∷ (b'p' ∷ []) ∷ [];
  heap = λ a. if a == 5 then some hub else none;
  ctx = record {
    self = 9;
    initialized = 1;
    event_handler = no_handler;
    components = vde_ordhash_insert vde_ordhash_new 2 5;
    modules = [];
  };
}

-- The path "h" is registered already: it is a prefix of "h.p", but is not taken for it.
abbrev subscribed : Subs
subscribed = record { world = world; reg_signals = record { addr = 70; path = b'h' ∷ [] } ∷ [] }

abbrev subscriber : Subscriber
subscriber = record {
  callback = 60;
  destroy = 61;
  self = 62;
  name_alloc = λ p. true;
  path_alloc = λ p. true;
}

abbrev pub path : CString
path = b'h' ∷ b'.' ∷ b'p' ∷ []

notify_example :
    (s1 : Subs) × (engine_ctrl_notify_add subscriber true true (some 80) 81 subscribed path
      ≡ some (s1, attached, done))
    × (s1.reg_signals ≡ record { addr = 81; path = path } ∷ subscribed.reg_signals)
    × ((s2 : Subs) × (engine_ctrl_notify_del subscriber true true s1 path
          ≡ some (s2, detached, done))
        × Restored subscribed s2 5 hub)
unfolding check_split_path check_parts find_sep vde_context_get_component vde_ordhash_new
    vde_ordhash_insert vde_ordhash_lookup ◌==s◌ vde_component_signal_get
notify_example =
    notify_del-add subscriber subscribed path (b'h' ∷ []) (b'p' ∷ []) 5 80 81 hub port_new refl refl
      refl refl refl

-- The signal with the callback of the connection, in a hub that is at every address.
abbrev pub watched : Signal
watched = record port_new {
  callbacks = record { addr = 80; cb = 60; destroy_cb = 61; priv_data = 62 } ∷ [];
}

abbrev pub watched_world : World
watched_world = record world { heap = λ a. some (record hub { signals = (1, watched) ∷ [] }) }

watched-IsValid : Registered.IsValid watched
watched-IsValid = record { once = (refl, tt); distinct = (refl, tt) }

pub watched_world-AllValid : AllValid watched_world
watched_world-AllValid a k = elim (Bool-cases (1 == k)) [
  | inl here ↦ rw here watched-IsValid
  | inr other ↦ rw other tt
]

abbrev pub registrations : List Registration
registrations = record { addr = 81; path = path } ∷ []
