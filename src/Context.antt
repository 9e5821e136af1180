-- ===== src/Context.antt =====
-- context.c and include/vde3/context.h, with vde_component_new, _init, _fini and _delete of
-- component.c: the context, the modules it knows, and the life of its components. A component is an
-- address in a heap; NULL is `none`. The functions of a module are reached through function
-- pointers, so what they do is a parameter: `Plugin`. An operation returns `none` where the C code
-- follows a pointer that is NULL or dangling.
pub mod Modules
pub mod Life
pub mod Fini
pub mod Tests
pub mod Ends
use vde.Base.{
  ℕ, Bool, true, false, Option, none, some, List, [], ◌==◌, if◌then◌else◌, CString, Status,
}
use vde.Base.Int.{pos}
use vde.Glib.{Glib}
use vde.OrdHash.{OrdHash, vde_ordhash_new}
use vde.Component.{Component, Module, engine}

-- vde_event_handler of include/vde3.h
pub record EventHandler : Type 0 where
  pub event_add : Option ℕ
  pub event_del : Option ℕ
  pub timeout_add : Option ℕ
  pub timeout_del : Option ℕ

abbrev pub no_handler : EventHandler
no_handler = record { event_add = none; event_del = none; timeout_add = none; timeout_del = none }

module _ ⦃g : Glib⦄ where
  -- `components` maps the quark of a name to the address of the component. It stands for a pointer
  -- that is not followed while `initialized` is not 1. `self` is the address of the context.
  pub record Context : Type 0 where
    pub self : ℕ
    pub initialized : ℕ
    pub event_handler : EventHandler
    pub components : OrdHash ℕ
    pub modules : List Module

  pub record World : Type 0 where
    pub quarks : g.Quarks
    pub heap : ℕ → Option Component
    pub ctx : Context

  -- What the `init` and `fini` functions of a module do, given the address of the function, the
  -- address of the component and the parameters, NULL or not.
  pub record Plugin (P : Type 0) : Type 0 where
    pub run_init : ℕ → ℕ → Option P → World → World × Status
    pub run_fini : ℕ → ℕ → World → World

  abbrev pub put_cell : (ℕ → Option Component) → ℕ → Option Component → ℕ → Option Component
  put_cell h p c a = if p == a then c else h a

  abbrev pub store : World → ℕ → Option Component → World
  store w p c = record w { heap = put_cell w.heap p c }

  -- A component as vde_calloc leaves it; the tables are NULL until vde_component_init makes them.
  abbrev pub zeroed : Component
  zeroed = record {
    ctx = none;
    cops = none;
    qname = 0;
    kind = engine;
    family = [];
    refcount = pos 0;
    commands = g.hash_init;
    signals = g.hash_init;
    priv = none;
    initialized = false;
    cm_listen = none;
    cm_connect = none;
    tr_listen = none;
    tr_connect = none;
    eng_new_conn = none;
    cm_connect_cb = none;
    cm_accept_cb = none;
    cm_error_cb = none;
    cm_cb_arg = none;
  }

  -- `new` is what vde_calloc returns.
  pub vde_context_new : Option ℕ → Option Context
  vde_context_new none = none
  vde_context_new (some a) = some (record {
    self = a;
    initialized = 0;
    event_handler = no_handler;
    components = vde_ordhash_new;
    modules = [];
  })
