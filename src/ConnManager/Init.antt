-- ===== src/ConnManager/Init.antt =====
-- conn_manager_init and conn_manager_fini of conn_manager.c. The parameters are an object; the
-- components that they name are looked up in the context of the manager. `none` is a call through a
-- pointer to a component that is not there, or a failed assertion.
pub mod Laws
pub mod Outcome
pub mod Fini
use vde.Base.{
  ℕ, Bool, true, false, Option, none, some, List, [], ◌∷◌, if◌then◌else◌, CString, Status, done,
  fail, einval, enomem,
}
use vde.Sobj.{Sobj, string_type, hash_type, bool_type}
use vde.Glib.{Glib}
use vde.Component.{
  Component, Kind, engine, transport, vde_component_get, vde_component_put, vde_component_set_priv,
}
use vde.Component.Kinds.{vde_transport_set_cm_callbacks}
use vde.Context.{World, store}
use vde.Context.Modules.{same_kind}
use vde.Context.Life.{vde_context_get_component}
use vde.ConnManager.{ConnManager, PendingConn}

abbrev pub transport_key : CString
transport_key = b't' ∷ b'r' ∷ b'a' ∷ b'n' ∷ b's' ∷ b'p' ∷ b'o' ∷ b'r' ∷ b't' ∷ []

abbrev pub engine_key : CString
engine_key = b'e' ∷ b'n' ∷ b'g' ∷ b'i' ∷ b'n' ∷ b'e' ∷ []

-- "remote_authorization"
abbrev pub remote_key : CString
remote_key =
    b'r' ∷ b'e' ∷ b'm' ∷ b'o' ∷ b't' ∷ b'e' ∷ b'_' ∷ b'a' ∷ b'u' ∷ b't' ∷ b'h' ∷ b'o' ∷ b'r' ∷ b'i'
    ∷ b'z' ∷ b'a' ∷ b't' ∷ b'i' ∷ b'o' ∷ b'n' ∷ []

-- The structure that conn_manager_init allocates, with its list of pending connections.
pub record Managing : Type 0 where
  pub manager : ConnManager
  pub pending_conns : List PendingConn

-- The addresses of conn_manager_connect_cb, conn_manager_accept_cb and conn_manager_error_cb.
pub record Callbacks : Type 0 where
  pub connect_cb : ℕ
  pub accept_cb : ℕ
  pub error_cb : ℕ

module _ ⦃g : Glib⦄ where
  -- A change of the component at an address.
  abbrev pub at_component : World → ℕ → (Component → Option Component) → Option World
  at_component w p f = elim (w.heap p) [
    | none ↦ none
    | some c ↦ elim (f c) [ none ↦ none | some c' ↦ some (store w p (some c')) ]
  ]

  abbrev pub and_then : Option World → (World → Option World) → Option World
  and_then none f = none
  and_then (some w) f = f w

  -- What follows the allocation.
  unfoldable pub track : Callbacks → ℕ → World → ℕ → ConnManager → Option World
  unfolding vde_component_get vde_component_set_priv
  track callbacks new w component cm =
      and_then (at_component w cm.transport (λ c. some (vde_component_get c).0)) (λ w1.
        and_then (at_component w1 cm.engine (λ c. some (vde_component_get c).0)) (λ w2.
          and_then
            (at_component w2 cm.transport (λ c.
              vde_transport_set_cm_callbacks c (some callbacks.connect_cb)
                (some callbacks.accept_cb) (some callbacks.error_cb) (some component)))
            (λ w3. at_component w3 component (λ c. some (vde_component_set_priv c (some new))))))

  pub conn_manager_fini : World → ConnManager → Option World
  unfolding vde_component_put
  conn_manager_fini w cm =
      and_then (at_component w cm.transport (λ c. some (vde_component_put c).0))
        (λ w1. at_component w1 cm.engine (λ c. some (vde_component_put c).0))

  module _ ⦃s : Sobj⦄ where
    -- The component that a parameter names; `some none` where it is refused, with EINVAL.
    unfoldable pub pick : World → s.Obj → CString → Kind → Option (Option ℕ)
    pick w params key kind = elim (s.hash_lookup params key) [
      | none ↦ some none
      | some o ↦
          if s.is_type o string_type
          then elim (vde_context_get_component w (s.get_string o)) [
            | none ↦ some none
            | some p ↦ elim (w.heap p) [
              | none ↦ none
              | some c ↦ some (if same_kind c.kind kind then some p else none)
            ]
          ]
          else some none
    ]

    unfoldable pub pick_remote_auth : s.Obj → Option Bool
    pick_remote_auth params = elim (s.hash_lookup params remote_key) [
      | none ↦ some false
      | some o ↦ if s.is_type o bool_type then some (s.get_bool o) else none
    ]

    unfoldable pub begin :
        Callbacks → Option ℕ → World → ℕ → ConnManager → Option (World × Option Managing × Status)
    unfolding track
    begin callbacks none w component cm = some (w, none, fail enomem)
    begin callbacks (some new) w component cm = elim (track callbacks new w component cm) [
      | none ↦ none
      | some w' ↦ some (w', some (record { manager = cm; pending_conns = [] }), done)
    ]

    unfoldable pub with_engine :
        Callbacks
        → Option ℕ
        → World
        → ℕ
        → s.Obj
        → ℕ
        → Option ℕ
        → Option (World × Option Managing × Status)
    unfolding pick_remote_auth begin
    with_engine callbacks new w component params at none = some (w, none, fail einval)
    with_engine callbacks new w component params at (some e) = elim (pick_remote_auth params) [
      | none ↦ some (w, none, fail einval)
      | some remote_auth ↦ begin callbacks new w component (record {
        transport = at;
        engine = e;
        component = component;
        do_remote_authorization = remote_auth;
      })
    ]

    unfoldable pub with_transport :
        Callbacks
        → Option ℕ
        → World
        → ℕ
        → s.Obj
        → Option ℕ
        → Option (World × Option Managing × Status)
    unfolding pick with_engine
    with_transport callbacks new w component params none = some (w, none, fail einval)
    with_transport callbacks new w component params (some at) =
        elim (pick w params engine_key engine) [
          | none ↦ none
          | some picked ↦ with_engine callbacks new w component params at picked
        ]

    unfoldable pub with_params :
        Callbacks → Option ℕ → World → ℕ → Option s.Obj → Option (World × Option Managing × Status)
    unfolding pick with_transport
    with_params callbacks new w component none = some (w, none, fail einval)
    with_params callbacks new w component (some params) =
        if s.is_type params hash_type
        then elim (pick w params transport_key transport) [
          | none ↦ none
          | some picked ↦ with_transport callbacks new w component params picked
        ]
        else some (w, none, fail einval)

    -- `new` is what vde_calloc returns.
    unfoldable pub conn_manager_init :
        Callbacks → Option ℕ → World → ℕ → Option s.Obj → Option (World × Option Managing × Status)
    unfolding with_params
    conn_manager_init callbacks new w component params = elim (w.heap component) [
      | none ↦ none
      | some c ↦ with_params callbacks new w component params
    ]
