-- ===== src/Component.antt =====
-- component.c, with include/vde3/command.h: the state of a component, its references, its
-- commands and its signals. Functions and private data are addresses, and a pointer that may be
-- NULL is an option. A command belongs to a static array; a signal is copied into the component,
-- which holds the only pointer to the copy, so a change of the copy is a change of the table.
pub mod Names
pub mod Kinds
pub mod Commands
pub mod Signals
pub mod Frame
pub mod Tests
use vde.Base.{
  ℕ, Bool, true, false, Option, none, some, List, [], ◌∷◌, ◌++◌, if◌then◌else◌, CString, Status,
  done, fail, eexist, enoent, enomem, is_some,
}
use vde.Base.Int.{ℤ, incr, decr, is_one}
use vde.Glib.{Glib}
use vde.Signal.{
  Argument, Signal, Call, vde_signal_attach, vde_signal_detach, vde_signal_raise, vde_signal_dup,
  vde_signal_fini,
}

-- vde_component_kind of include/vde3.h
pub data Kind : Type 0 where
  engine transport connection_manager : Kind

abbrev pub is_connection_manager : Kind → Bool
is_connection_manager connection_manager = true
is_connection_manager engine = false
is_connection_manager transport = false

pub record Command : Type 0 where
  pub name : CString
  pub func : ℕ
  pub description : CString
  pub args : List Argument

-- component_ops and vde_module of include/vde3/module.h
pub record ComponentOps : Type 0 where
  pub init : Option ℕ
  pub fini : Option ℕ
  pub get_configuration : Option ℕ
  pub set_configuration : Option ℕ
  pub get_policy : Option ℕ
  pub set_policy : Option ℕ

pub record Module : Type 0 where
  pub kind : Kind
  pub family : CString
  pub cops : Option ComponentOps
  pub cm_connect : Option ℕ
  pub cm_listen : Option ℕ
  pub eng_new_conn : Option ℕ
  pub tr_connect : Option ℕ
  pub tr_listen : Option ℕ
  pub dlhandle : Option ℕ

module _ ⦃g : Glib⦄ where
  pub record Component : Type 0 where
    pub ctx : Option ℕ
    pub cops : Option ComponentOps
    pub qname : ℕ
    pub kind : Kind
    pub family : CString
    pub refcount : ℤ
    pub commands : g.Hash Command
    pub signals : g.Hash Signal
    pub priv : Option ℕ
    pub initialized : Bool
    pub cm_listen : Option ℕ
    pub cm_connect : Option ℕ
    pub tr_listen : Option ℕ
    pub tr_connect : Option ℕ
    pub eng_new_conn : Option ℕ
    pub cm_connect_cb : Option ℕ
    pub cm_accept_cb : Option ℕ
    pub cm_error_cb : Option ℕ
    pub cm_cb_arg : Option ℕ

  -- The new count is returned: the callers may ask for it.
  unfoldable pub vde_component_get : Component → Component × ℤ
  vde_component_get c = (record c { refcount = incr c.refcount }, incr c.refcount)

  unfoldable pub vde_component_put : Component → Component × ℤ
  vde_component_put c = (record c { refcount = decr c.refcount }, decr c.refcount)

  -- `true` is the return of 0: the last reference is gone.
  unfoldable pub vde_component_put_if_last : Component → Component × Bool
  unfolding vde_component_put
  vde_component_put_if_last c =
      if is_one c.refcount then ((vde_component_put c).0, true) else (c, false)

  unfoldable pub vde_component_set_priv : Component → Option ℕ → Component
  vde_component_set_priv c priv = record c { priv = priv }
