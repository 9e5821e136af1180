-- ===== src/Component/Kinds.antt =====
-- The functions of component.c for one kind of component: engines, transports and connection managers.
-- They call what the module of the component gives, which `Calls` says by the address of the function.
-- The assertions are those of a build with VDE3_DEBUG: `none` is one that fails, or a call through NULL.
use vde.Base.{ℕ, Bool, true, false, Option, none, some, if◌then◌else◌, ◌&&◌, is_some, Status}
use vde.Glib.{Glib}
use vde.Component.{Component, Kind, engine, transport, connection_manager, is_connection_manager}

abbrev pub is_engine : Kind → Bool
is_engine engine = true
is_engine transport = false
is_engine connection_manager = false

abbrev pub is_transport : Kind → Bool
is_transport transport = true
is_transport engine = false
is_transport connection_manager = false

-- A call through a pointer that may be NULL, behind an assertion.
abbrev pub call_if {ℓ} : {R : Type ℓ} → Bool → Option ℕ → (ℕ → R) → Option R
call_if ok none run = none
call_if ok (some f) run = if ok then some (run f) else none

module _ ⦃g : Glib⦄ where
  -- What the functions of a module do to the state of the program, by their address, the address of
  -- the component, and the addresses of their arguments.
  pub record Calls (S : Type 0) : Type 0 where
    pub new_conn : ℕ → ℕ → ℕ → Option ℕ → S → S × Status
    pub tr_listen : ℕ → ℕ → S → S × Status
    pub tr_connect : ℕ → ℕ → ℕ → S → S × Status
    pub connect_cb : ℕ → ℕ → Option ℕ → S → S
    pub accept_cb : ℕ → ℕ → Option ℕ → S → S
    pub error_cb : ℕ → ℕ → ℕ → Option ℕ → S → S
    pub cm_listen : ℕ → ℕ → S → S × Status
    pub cm_connect : ℕ → ℕ → Option ℕ → Option ℕ → Option ℕ → Option ℕ → Option ℕ → S → S × Status

  unfoldable pub vde_transport_set_cm_callbacks :
      Component → Option ℕ → Option ℕ → Option ℕ → Option ℕ → Option Component
  vde_transport_set_cm_callbacks c connect_cb accept_cb error_cb arg =
      if is_transport c.kind && (is_some connect_cb && (is_some accept_cb && is_some error_cb))
      then some (record c {
        cm_connect_cb = connect_cb;
        cm_accept_cb = accept_cb;
        cm_error_cb = error_cb;
        cm_cb_arg = arg;
      })
      else none

  -- `at` is the address of the component.
  module _ {S : Type 0} (run : Calls S) where
    unfoldable pub vde_engine_new_connection :
        ℕ → Component → ℕ → Option ℕ → S → Option (S × Status)
    vde_engine_new_connection at c conn req s =
        call_if (is_engine c.kind) c.eng_new_conn (λ f. run.new_conn f at conn req s)

    unfoldable pub vde_transport_listen : ℕ → Component → S → Option (S × Status)
    vde_transport_listen at c s =
        call_if (is_transport c.kind) c.tr_listen (λ f. run.tr_listen f at s)

    unfoldable pub vde_transport_connect : ℕ → Component → ℕ → S → Option (S × Status)
    vde_transport_connect at c conn s =
        call_if (is_transport c.kind) c.tr_connect (λ f. run.tr_connect f at conn s)

    unfoldable pub vde_transport_call_cm_connect_cb : Component → ℕ → S → Option S
    vde_transport_call_cm_connect_cb c conn s =
        call_if (is_transport c.kind) c.cm_connect_cb (λ f. run.connect_cb f conn c.cm_cb_arg s)

    unfoldable pub vde_transport_call_cm_accept_cb : Component → ℕ → S → Option S
    vde_transport_call_cm_accept_cb c conn s =
        call_if (is_transport c.kind) c.cm_accept_cb (λ f. run.accept_cb f conn c.cm_cb_arg s)

    unfoldable pub vde_transport_call_cm_error_cb : Component → ℕ → ℕ → S → Option S
    vde_transport_call_cm_error_cb c conn tr_errno s =
        call_if (is_transport c.kind) c.cm_error_cb
          (λ f. run.error_cb f conn tr_errno c.cm_cb_arg s)

    unfoldable pub vde_conn_manager_listen : ℕ → Component → S → Option (S × Status)
    vde_conn_manager_listen at c s =
        call_if (is_connection_manager c.kind) c.cm_listen (λ f. run.cm_listen f at s)

    unfoldable pub vde_conn_manager_connect :
        ℕ
        → Component
        → Option ℕ
        → Option ℕ
        → Option ℕ
        → Option ℕ
        → Option ℕ
        → S
        → Option (S × Status)
    vde_conn_manager_connect at c local remote success_cb error_cb arg s =
        call_if (is_connection_manager c.kind) c.cm_connect
          (λ f. run.cm_connect f at local remote success_cb error_cb arg s)
