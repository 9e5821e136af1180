-- ===== src/ConnManager/Init/Laws.antt =====
-- conn_manager.c: what the manager holds once it is made, and what its end gives back.
use vde.Base.{
  ℕ, ◌≡◌, refl, ap, ◌∙◌, true, false, Option, none, some, ◌==◌, if◌then◌else◌, arith, Option-cases,
  Bool-cases, inl, inr, is_some,
}
use vde.Base.Int.{ℤ, incr}
use vde.Glib.{Glib}
use vde.Component.{Component, Kind, engine, transport, vde_component_get, vde_component_set_priv}
use vde.Component.Kinds.{vde_transport_set_cm_callbacks}
use vde.Context.{World, store}
use vde.ConnManager.{ConnManager}
use vde.ConnManager.Init.{Callbacks, at_component, and_then, track}

module _ ⦃g : Glib⦄ where
  -- A component of a kind is at the address.
  pub record IsKindAt (w : World) (at : ℕ) (kind : Kind) : Type 0 where
    pub component : Component
    pub here : w.heap at ≡ some component
    pub is : component.kind ≡ kind

  -- The transport calls the manager at `component`.
  pub record CallsBack (w : World) (at component : ℕ) (callbacks : Callbacks) : Type 0 where
    pub transport : Component
    pub here : w.heap at ≡ some transport
    pub connect_cb : transport.cm_connect_cb ≡ some callbacks.connect_cb
    pub accept_cb : transport.cm_accept_cb ≡ some callbacks.accept_cb
    pub error_cb : transport.cm_error_cb ≡ some callbacks.error_cb
    pub arg : transport.cm_cb_arg ≡ some component

  abbrev pub count_of : Option Component → Option ℤ
  count_of none = none
  count_of (some c) = some c.refcount

  -- The references to the component at an address.
  abbrev pub count : World → ℕ → Option ℤ
  count w a = count_of (w.heap a)

  -- One reference more to each of the two components, and to no other.
  abbrev pub one_more : ℕ → ℕ → ℕ → Option ℤ → Option ℤ
  one_more t e a none = none
  one_more t e a (some i) = some (if t == a then incr i else if e == a then incr i else i)

  abbrev kind_of : Option Component → Kind
  kind_of none = engine
  kind_of (some c) = c.kind

  pub kinds_differ :
      (w : World) (t e : ℕ) → IsKindAt w t transport → IsKindAt w e engine → (t == e) ≡ false
  kinds_differ w t e at_t at_e = elim (Bool-cases (t == e)) [
    | inr differ ↦ differ
    | inl same ↦ absurd (
        ground (
          arith,
          ap (λ a. kind_of (w.heap a)) {x = t} {y = e} (ground (arith, same)),
          at_t.here,
          at_e.here,
          at_t.is,
          at_e.is,
        ))
  ]

  pub at-store :
      (w : World) (p : ℕ) (f : Component → Option Component) (c c' : Component)
      → w.heap p ≡ some c
      → f c ≡ some c'
      → at_component w p f ≡ some (store w p (some c'))
  at-store w p f c c' here e = ground (arith, here, e)

  pub then_lem :
      (o : Option World) (f : World → Option World) (w : World) (r : Option World)
      → o ≡ some w
      → f w ≡ r
      → and_then o f ≡ r
  then_lem o f w r e h = ap (λ o. and_then o f) e ∙ h

  pub record Tracked (w w' : World) (component : ℕ) (cm : ConnManager) (callbacks : Callbacks)
      : Type 0 where
    pub ctx : w'.ctx ≡ w.ctx
    pub counts : (a : ℕ) → count w' a ≡ one_more cm.transport cm.engine a (count w a)
    pub calls : CallsBack w' cm.transport component callbacks

  pub track-Tracked :
      (callbacks : Callbacks) (new : ℕ) (w : World) (component : ℕ) (cm : ConnManager)
      → IsKindAt w cm.transport transport
      → IsKindAt w cm.engine engine
      → is_some (w.heap component) ≡ true
      → (w' : World) × (track callbacks new w component cm ≡ some w')
        × Tracked w w' component cm callbacks
  unfolding track vde_component_get vde_component_set_priv vde_transport_set_cm_callbacks
  track-Tracked callbacks new w component cm at_t at_e there =
      elim (Option-cases (w.heap component)) [
        | inl lost ↦ absurd (ground (arith, lost, there))
        | inr (c, here) ↦
            let differ = kinds_differ w cm.transport cm.engine at_t at_e in
            let t1 = (vde_component_get at_t.component).0 in
            let e1 = (vde_component_get at_e.component).0 in
            let t2 : Component = record t1 {
              cm_connect_cb = some callbacks.connect_cb;
              cm_accept_cb = some callbacks.accept_cb;
              cm_error_cb = some callbacks.error_cb;
              cm_cb_arg = some component;
            } in
            let c1 =
              if cm.transport == component then t2 else if cm.engine == component then e1 else c in
            let set : Component → Option Component = λ c.
              vde_transport_set_cm_callbacks c (some callbacks.connect_cb)
                (some callbacks.accept_cb) (some callbacks.error_cb) (some component) in
            let hold : Component → Option Component = λ c. some (vde_component_get c).0 in
            let own : Component → Option Component =
              λ c. some (vde_component_set_priv c (some new)) in
            let last : World → Option World = λ w3. at_component w3 component own in
            let third : World → Option World =
              λ w2. and_then (at_component w2 cm.transport set) last in
            let second : World → Option World =
              λ w1. and_then (at_component w1 cm.engine hold) third in
            let w1 = store w cm.transport (some t1) in
            let w2 = store w1 cm.engine (some e1) in
            let w3 = store w2 cm.transport (some t2) in
            (
              store w3 component (some (vde_component_set_priv c1 (some new))),
              then_lem (at_component w cm.transport hold) second w1 _
                  (at-store w cm.transport hold at_t.component t1 at_t.here refl)
                  (then_lem (at_component w1 cm.engine hold) third w2 _
                    (at-store w1 cm.engine hold at_e.component e1
                      (ground (arith, differ, at_e.here)) refl)
                    (then_lem (at_component w2 cm.transport set) last w3 _
                      (at-store w2 cm.transport set t1 t2 (ground (arith, differ))
                        (ground (arith, at_t.is)))
                      (at-store w3 component own c1 (vde_component_set_priv c1 (some new))
                        (ground (arith, here, differ)) refl))),
              record {
                ctx = refl;
                counts = λ a. ground (arith, differ, here, at_t.here, at_e.here);
                calls = record {
                  transport =
                      if component == cm.transport
                      then vde_component_set_priv c1 (some new)
                      else t2;
                  here = ground (arith, differ);
                  connect_cb = ground arith;
                  accept_cb = ground arith;
                  error_cb = ground arith;
                  arg = ground arith;
                };
              },
            )
      ]
