-- ===== src/Context/Tests.antt =====
-- A context at concrete modules and components: the theorems at their inputs.
use vde.Base.{ℕ, ◌≡◌, refl, true, none, some, [], ◌∷◌, ◌&&◌, done}
use vde.Base.Int.{pos}
use vde.Glib.Instance.{glib}
use vde.OrdHash.{vde_ordhash_new, vde_ordhash_insert}
use vde.OrdHash.Repr.{vde_ordhash_new-Repr}
use vde.Component.{Component, ComponentOps, Module, engine}
use vde.Component.Names.{Named-init}
use vde.Component.Tests.{blank}
use vde.Context.{World, Plugin, no_handler, store}
use vde.Context.Modules.{kind_ops_present, cops_present}
use vde.Context.Life.{vde_context_new_component}
use vde.Context.Life.Laws.{IsTame}
use vde.Context.Life.Valid.{IsValid}
use vde.Context.Life.Create.{Created, vde_context_new_component-Created}

abbrev ops : ComponentOps
ops = record {
  init = some 100;
  fini = some 101;
  get_configuration = none;
  set_configuration = none;
  get_policy = none;
  set_policy = none;
}

-- "hub" by its first letter
abbrev hub_module : Module
hub_module = record {
  kind = engine;
  family = b'h' ∷ [];
  cops = some ops;
  cm_connect = none;
  cm_listen = none;
  eng_new_conn = some 102;
  tr_connect = none;
  tr_listen = none;
  dlhandle = none;
}

abbrev empty : World
empty = record {
  quarks = [];
  heap = λ a. none;
  ctx = record {
    self = 9;
    initialized = 1;
    event_handler = no_handler;
    components = vde_ordhash_new;
    modules = hub_module ∷ [];
  };
}

hub_module-acceptable : (kind_ops_present hub_module engine && cops_present hub_module.cops) ≡ true
unfolding kind_ops_present cops_present
hub_module-acceptable = refl

empty-IsValid : IsValid empty []
unfolding vde_ordhash_new
empty-IsValid = record {
  ready = refl;
  repr = vde_ordhash_new-Repr;
  named = Named-init [];
  modules = (hub_module-acceptable, refl, tt);
}

-- A plugin whose functions do nothing.
abbrev quiet : Plugin ℕ
quiet = record { run_init = λ f p params w. (w, done); run_fini = λ f p w. w }

quiet-IsTame : IsTame quiet
quiet-IsTame = record {
  init_ctx = λ f p params w. refl;
  init_quarks = λ f p params w s h. refl;
  init_heap = λ f p params w h. h;
  fini_ctx = λ f p w. refl;
  fini_quarks = λ f p w s h. refl;
  fini_heap = λ f p w h. h;
}

new_component_example :
    Created empty []
      (b'a' ∷ [])
      (some 5)
      (vde_context_new_component quiet (some 5) empty engine (b'h' ∷ []) (b'a' ∷ []) none)
new_component_example =
    vde_context_new_component-Created quiet quiet-IsTame empty [] (some 5) engine (b'h' ∷ [])
      (b'a' ∷ []) none empty-IsValid

-- The component "a" with one reference, in the context and in the heap at 5.
abbrev hub : Component
hub = record blank { cops = some ops; refcount = pos 1 }

abbrev running : World
running =
    store
      (record empty {
        quarks = (b'a' ∷ []) ∷ [];
        ctx = record empty.ctx { components = vde_ordhash_insert vde_ordhash_new 1 5 };
      })
      5 (some hub)
