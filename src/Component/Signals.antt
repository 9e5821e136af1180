-- ===== src/Component/Signals.antt =====
-- The signals of a component: component.c, vde_component_signal_* and signals_*.
pub mod Laws
use vde.Base.{
  ℕ, suc, Option, none, some, List, [], ◌∷◌, ◌++◌, if◌then◌else◌, CString, Status, done, fail,
  eexist, enoent, enomem, is_some,
}
use vde.Glib.{Glib}
use vde.Signal.{
  Signal, Call, vde_signal_attach, vde_signal_detach, vde_signal_raise, vde_signal_dup,
  vde_signal_fini,
}
use vde.Component.{Component}

module _ ⦃g : Glib⦄ where
  -- `new` is what vde_calloc returns for the copy.
  unfoldable pub vde_component_signal_add :
      Option ℕ → g.Quarks → Component → Signal → g.Quarks × Component × Status
  vde_component_signal_add new q c signal =
      let (qname, q') = g.quark_from_string q signal.name in
      if is_some (g.hash_lookup c.signals qname)
      then (q', c, fail eexist)
      else elim (vde_signal_dup new signal) [
        | none ↦ (q', c, fail enomem)
        | some dup ↦ (q', record c { signals = g.hash_insert c.signals qname dup }, done)
      ]

  -- `self` is the address of the component, which the destroy callbacks are given.
  unfoldable pub vde_component_signal_del :
      g.Quarks → ℕ → Component → Signal → Component × List (Call (Unit {0})) × Status
  vde_component_signal_del q self c signal =
      let qname = g.quark_try_string q signal.name in
      elim (g.hash_lookup c.signals qname) [
        | none ↦ (c, [], fail enoent)
        | some dup ↦ (
          record c { signals = (g.hash_remove c.signals qname).0 },
          (vde_signal_fini dup self).0,
          done,
        )
      ]

  unfoldable pub vde_component_signal_get : g.Quarks → Component → CString → Option Signal
  vde_component_signal_get q c name = g.hash_lookup c.signals (g.quark_try_string q name)

  -- `news i` is what the allocation for the signal at place `i` returns.
  unfoldable pub vde_component_signals_register :
      (ℕ → Option ℕ) → ℕ → g.Quarks → Component → List Signal → g.Quarks × Component × Status
  vde_component_signals_register news i q c [] = (q, c, done)
  vde_component_signals_register news i q c (signal ∷ rest) =
      let (q', c', st) = vde_component_signal_add (news i) q c signal in
      elim st [
        | done ↦ vde_component_signals_register news (suc i) q' c' rest
        | fail e ↦ (q', c', fail e)
      ]

  unfoldable pub vde_component_signals_deregister :
      g.Quarks → ℕ → Component → List Signal → Component × List (Call (Unit {0})) × Status
  vde_component_signals_deregister q self c [] = (c, [], done)
  vde_component_signals_deregister q self c (signal ∷ rest) =
      let (c', calls, st) = vde_component_signal_del q self c signal in
      elim st [
        | done ↦
            let (c'', later, st') = vde_component_signals_deregister q self c' rest in
            (c'', calls ++ later, st')
        | fail e ↦ (c', calls, fail e)
      ]

  -- The signal is changed in place; `new` is what vde_calloc returns for the entry.
  unfoldable pub vde_component_signal_attach :
      Option ℕ → g.Quarks → Component → CString → ℕ → ℕ → ℕ → Component × Status
  vde_component_signal_attach new q c signal cb destroy_cb priv_data =
      let qname = g.quark_try_string q signal in
      elim (g.hash_lookup c.signals qname) [
        | none ↦ (c, fail enoent)
        | some sig ↦
            let (sig', st) = vde_signal_attach new sig cb destroy_cb priv_data in
            (record c { signals = g.hash_insert c.signals qname sig' }, st)
      ]

  unfoldable pub vde_component_signal_detach :
      g.Quarks → Component → CString → ℕ → ℕ → ℕ → Component × Status
  vde_component_signal_detach q c signal cb destroy_cb priv_data =
      let qname = g.quark_try_string q signal in
      elim (g.hash_lookup c.signals qname) [
        | none ↦ (c, fail enoent)
        | some sig ↦
            let (sig', st) = vde_signal_detach sig cb destroy_cb priv_data in
            (record c { signals = g.hash_insert c.signals qname sig' }, st)
      ]

  -- The calls that raising makes, none where the component has no such signal.
  pub vde_component_signal_raise :
      {I : Type 0} → g.Quarks → ℕ → Component → CString → I → List (Call I)
  vde_component_signal_raise q self c signal info =
      elim (g.hash_lookup c.signals (g.quark_try_string q signal)) [
        | none ↦ []
        | some sig ↦ vde_signal_raise sig info self
      ]
