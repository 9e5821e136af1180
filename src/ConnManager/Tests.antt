-- ===== src/ConnManager/Tests.antt =====
-- A connection manager at concrete components: the theorems at their inputs.
use vde.Context.{World, store, no_handler}
use vde.Context.Life.{vde_context_get_component}
use vde.Context.Modules.{same_kind}
use vde.Component.{vde_component_get, vde_component_set_priv}
use vde.Component.Kinds.{vde_transport_set_cm_callbacks}
use vde.OrdHash.{vde_ordhash_new, vde_ordhash_insert, vde_ordhash_lookup}
use vde.ConnManager.Init.{
  begin, track, pick, pick_remote_auth, with_engine, with_transport, with_params,
}
use vde.Base.Int.{pos}
use vde.Sobj.Instance.{sobj, Json, hash, entry, text}
use vde.ConnManager.Init.{
  begin, track, pick, pick_remote_auth, with_engine, with_transport, with_params, Managing,
  Callbacks, conn_manager_init, conn_manager_fini, transport_key, engine_key,
}
use vde.ConnManager.Init.Laws.{count, CallsBack}
use vde.ConnManager.Init.Outcome.{IsLive, Outcome, conn_manager_init-Outcome}
use vde.ConnManager.Init.Fini.{fini-init}
use vde.Base.{
  arith, ◌==s◌, ℕ, ◌≡◌, refl, false, Option, none, some, List, [], ◌∷◌, done, fail, ebusy, ◌==◌,
  if◌then◌else◌,
}
use vde.Glib.Instance.{glib}
use vde.Sobj.Instance.{sobj}
use vde.Component.{Component, engine, transport}
use vde.Component.Kinds.{vde_transport_connect}
use vde.Component.Tests.{blank}
use vde.ConnManager.{
  PendingConn, ConnManager, Around, Environment, connect_wait, lookup_pending_conn,
  conn_manager_connect, conn_manager_connect_cb,
}
use vde.ConnManager.Pending.{Adds, Adds-refl, without, AreValid}
use vde.ConnManager.Events.{
  ArePolite, IsEngineAt, authorize_now, mark_authorized, answered, connect_cb-settles,
}
use vde.ConnManager.Reach.{Reached, start, connect, Reached-AreValid}

-- The transport is at 1, the engine at 2.
abbrev socket : Component
socket = record blank { kind = transport; tr_connect = some 10; tr_listen = some 11 }

abbrev hub : Component
hub = record blank { kind = engine; eng_new_conn = some 20 }

abbrev at_address : ℕ → Option Component
at_address a = if a == 1 then some socket else if a == 2 then some hub else none

-- The rest of the program is a log of what was called. The engine takes the connections below 50.
abbrev env : Environment (List ℕ)
env = record {
  calls = record {
    new_conn = λ f at conn req s.
        (record s { rest = conn ∷ s.rest }, if conn == 50 then fail ebusy else done);
    tr_listen = λ f at s. (s, done);
    tr_connect = λ f at conn s. (s, done);
    connect_cb = λ f conn arg s. s;
    accept_cb = λ f conn arg s. s;
    error_cb = λ f conn err arg s. s;
    cm_listen = λ f at s. (s, done);
    cm_connect = λ f at lreq rreq ok bad arg s. (s, done);
  };
  user_cb = λ f at arg s. record s { rest = f ∷ s.rest };
  close = λ conn s. s;
  component_at = λ s. at_address;
}

env-ArePolite : ArePolite env
env-ArePolite = record {
  new_conn = λ f at conn req s. Adds-refl s.pending;
  tr_connect = λ f at conn s. Adds-refl s.pending;
  tr_listen = λ f at s. Adds-refl s.pending;
  user_cb = λ f at arg s. Adds-refl s.pending;
  close = λ conn s. Adds-refl s.pending;
}

abbrev manager : ConnManager
manager = record { transport = 1; engine = 2; component = 3; do_remote_authorization = false }

abbrev asked : PendingConn
asked = record {
  addr = 100;
  conn = 50;
  lreq = none;
  rreq = none;
  state = connect_wait;
  success_cb = some 70;
  error_cb = some 71;
  connect_cb_arg = none;
}

abbrev waiting : Around (List ℕ)
waiting = record { pending = asked ∷ []; rest = [] }

waiting-AreValid : AreValid waiting.pending
waiting-AreValid = record { distinct = (refl, tt); waiting = (refl, tt) }

hub-IsEngineAt : IsEngineAt env [] 2 20
hub-IsEngineAt = record { component = hub; here = refl; kind = refl; takes = refl }

connect_cb_example :
    (s' : Around (List ℕ)) × (conn_manager_connect_cb env manager 50 waiting ≡ some s')
    × Adds (without asked.addr waiting.pending) s'.pending
    × (s'.rest
        ≡ (answered env manager (authorize_now asked) 20 (mark_authorized asked waiting)).rest)
unfolding lookup_pending_conn
connect_cb_example =
    connect_cb-settles env env-ArePolite manager 50 20 asked waiting hub-IsEngineAt refl
      waiting-AreValid refl

asked-Reached : Reached env manager waiting
unfolding conn_manager_connect vde_transport_connect
asked-Reached = connect 50 100 none none (some 70) (some 71) none done (start []) refl refl

reached_example : AreValid waiting.pending
reached_example = Reached-AreValid env env-ArePolite manager waiting refl asked-Reached

abbrev world : World
world = record {
  quarks = (b't' ∷ []) ∷ (b'e' ∷ []) ∷ [];
  heap = λ a. if a == 1 then some socket else if a == 2 then some hub else some blank;
  ctx = record {
    self = 9;
    initialized = 1;
    event_handler = no_handler;
    components = vde_ordhash_insert (vde_ordhash_insert vde_ordhash_new 2 1) 1 2;
    modules = [];
  };
}

-- {"transport": "t", "engine": "e"}
abbrev params : Json
params = entry transport_key (text (b't' ∷ [])) (entry engine_key (text (b'e' ∷ [])) hash)

abbrev callbacks : Callbacks
callbacks = record { connect_cb = 80; accept_cb = 81; error_cb = 82 }

all_there : IsLive world
all_there name p e = ground arith

manager_init_example :
    Outcome callbacks
      (some 90)
      world
      3
      (some params)
      (conn_manager_init callbacks (some 90) world 3 (some params))
manager_init_example =
    conn_manager_init-Outcome callbacks (some 90) world 3 (some params) all_there refl

abbrev managing : Managing
managing = record { manager = manager; pending_conns = [] }

-- The world when the manager is made.
abbrev made : World
made =
    store
      (store
        (store (store world 1 (some (record socket { refcount = pos 1 }))) 2
          (some (record hub { refcount = pos 1 })))
        1
        (some (record socket {
          refcount = pos 1;
          cm_connect_cb = some 80;
          cm_accept_cb = some 81;
          cm_error_cb = some 82;
          cm_cb_arg = some 3;
        })))
      3 (some (record blank { priv = some 90 }))

manager_fini_example :
    (v : World) × (conn_manager_fini made manager ≡ some v)
    × ((a : ℕ) → count v a ≡ count world a)
    × CallsBack v 1 3 callbacks
unfolding begin track pick pick_remote_auth with_engine with_transport with_params conn_manager_init
    vde_context_get_component vde_ordhash_lookup vde_ordhash_insert vde_ordhash_new ◌==s◌ same_kind
    vde_component_get vde_component_set_priv vde_transport_set_cm_callbacks
manager_fini_example =
    fini-init callbacks (some 90) world made 3 params managing all_there refl refl
