-- ===== src/ConnManager/Init/Fini.antt =====
-- conn_manager.c: conn_manager_fini after conn_manager_init.
use vde.Base.{
  done, is_some, subst, true, ℕ, ◌≡◌, refl, ap, ◌∙◌, false, Option, none, some, ◌==◌, if◌then◌else◌,
  arith, Option-cases, Bool-cases, inl, inr,
}
use vde.Base.Int.{ℤ, decr, decr-incr}
use vde.Sobj.{Sobj}
use vde.Glib.{Glib}
use vde.Component.{Component, vde_component_put}
use vde.Context.{World, store}
use vde.ConnManager.Init.{conn_manager_init, Managing, Callbacks, at_component, conn_manager_fini}
use vde.ConnManager.Init.Laws.{CallsBack, count, kinds_differ, one_more, at-store, then_lem}
use vde.ConnManager.Init.Outcome.{Begun, IsLive, Outcome, conn_manager_init-Outcome}

module _ ⦃g : Glib⦄ ⦃s : Sobj⦄ where
  -- One reference less to each of the two components.
  abbrev one_less : ℕ → ℕ → ℕ → Option ℤ → Option ℤ
  one_less t e a none = none
  one_less t e a (some i) = some (if t == a then decr i else if e == a then decr i else i)

  one_less-one_more : (t e a : ℕ) (o : Option ℤ) → one_less t e a (one_more t e a o) ≡ o
  one_less-one_more t e a none = refl
  one_less-one_more t e a (some i) = ground (arith, decr-incr i)

  dropped :
      (w : World) (t e a : ℕ) (ct ce : Component)
      → w.heap t ≡ some ct
      → w.heap e ≡ some ce
      → (t == e) ≡ false
      → count
          (store (store w t (some (vde_component_put ct).0)) e (some (vde_component_put ce).0))
          a
        ≡ one_less t e a (count w a)
  unfolding vde_component_put
  dropped w t e a ct ce at_t at_e differ = elim (Bool-cases (t == a)) [
    | inl is_t ↦
        ground (arith, differ, is_t, at_t, ap (count w) {x = t} {y = a} (ground (arith, is_t)))
    | inr not_t ↦ elim (Bool-cases (e == a)) [
      | inl is_e ↦
          ground (arith, not_t, is_e, at_e, ap (count w) {x = e} {y = a} (ground (arith, is_e)))
      | inr not_e ↦ elim (Option-cases (w.heap a)) [
        | inl gone ↦ ground (arith, not_t, not_e, gone)
        | inr (c, is_there) ↦ ground (arith, not_t, not_e, is_there)
      ]
    ]
  ]

  fini-Begun :
      (callbacks : Callbacks) (new : Option ℕ) (w w' : World) (component : ℕ) (params : s.Obj)
      (m : Managing)
      → Begun callbacks new w w' component params m
      → (v : World) × (conn_manager_fini w' m.manager ≡ some v)
        × ((a : ℕ) → count v a ≡ count w a)
        × CallsBack v m.manager.transport component callbacks
  unfolding conn_manager_fini vde_component_put
  fini-Begun callbacks new w w' component params m b =
      let t = m.manager.transport in
      let e = m.manager.engine in
      let differ = kinds_differ w t e b.transport_named.at b.engine_named.at in
      let calls = b.tracked.calls in
      elim (Option-cases (w'.heap e)) [
        | inl lost ↦ absurd (ground (arith, lost, b.tracked.counts e, b.engine_named.at.here))
        | inr (ce, here) ↦
            let drop : Component → Option Component = λ c. some (vde_component_put c).0 in
            let t1 = (vde_component_put calls.transport).0 in
            let e1 = (vde_component_put ce).0 in
            let v1 = store w' t (some t1) in
            (
              store v1 e (some e1),
              then_lem (at_component w' t drop) (λ v. at_component v e drop) v1 _
                  (at-store w' t drop calls.transport t1 calls.here refl)
                  (at-store v1 e drop ce e1 (ground (arith, differ, here)) refl),
              λ a.
                  dropped w' t e a calls.transport ce calls.here here differ
                  ∙ (ap (one_less t e a) (b.tracked.counts a)
                      ∙ one_less-one_more t e a (count w a)),
              record {
                transport = t1;
                here = ground (arith, differ);
                connect_cb = calls.connect_cb;
                accept_cb = calls.accept_cb;
                error_cb = calls.error_cb;
                arg = calls.arg;
              },
            )
      ]

  -- The references that a manager takes when it is made are given back when it ends, to every component;
  -- but the transport that it had still has the addresses of its callbacks, and of the manager, which may
  -- then be deleted.
  pub fini-init :
      (callbacks : Callbacks) (new : Option ℕ) (w w' : World) (component : ℕ) (params : s.Obj)
      (m : Managing)
      → IsLive w
      → is_some (w.heap component) ≡ true
      → conn_manager_init callbacks new w component (some params) ≡ some (w', some m, done)
      → (v : World) × (conn_manager_fini w' m.manager ≡ some v)
        × ((a : ℕ) → count v a ≡ count w a)
        × CallsBack v m.manager.transport component callbacks
  fini-init callbacks new w w' component params m live there e =
      fini-Begun callbacks new w w' component params m (
        subst (Outcome callbacks new w component (some params)) e
          (conn_manager_init-Outcome callbacks new w component (some params) live there))
