-- ===== src/Component/Signals/Laws.antt =====
-- What the signals of a component do by name.
use vde.Base.{
  ℕ, ◌≡◌, refl, false, not, none, some, List, [], ◌∷◌, ◌&&◌, ◌==s◌, ==s_iff, arith, if◌then◌else◌,
  is_some, is_done, done, CString, Bool-cases, inl, inr, Option-cases,
}
use vde.Glib.{Glib}
use vde.Signal.{Signal, Call, vde_signal_attach, vde_signal_raise, vde_signal_dup, vde_signal_fini}
use vde.Signal.Registered.{registered}
use vde.Signal.Calls.{raise-attach_signal}
use vde.Component.{Component}
use vde.Component.Names.{
  named_get, Named, Named-from, Named-insert, Named-remove, lookup-from, get-from, get-insert,
  get-remove,
}
use vde.Component.Signals.{
  vde_component_signal_add, vde_component_signal_del, vde_component_signal_get,
  vde_component_signal_attach, vde_component_signal_raise,
}

module _ ⦃g : Glib⦄ where
  -- With memory, a signal is added exactly when no signal of its name is there; then its name finds
  -- a copy without callbacks, and every other name finds what it found before. A refusal changes
  -- no signal.
  pub vde_component_signal_add_lem :
      (q : g.Quarks) (c : Component) (s : Signal) (a : ℕ)
      → Named q c.signals
      → let (q', c', st) = vde_component_signal_add (some a) q c s in
        Named q' c'.signals
        × (is_done st ≡ not (is_some (vde_component_signal_get q c s.name)))
        × ((u : CString)
            → vde_component_signal_get q' c' u ≡ (
                if is_done st && (s.name ==s u)
                then some (record s { callbacks = [] })
                else vde_component_signal_get q c u))
  unfolding vde_component_signal_add vde_component_signal_get vde_signal_dup
  vde_component_signal_add_lem q c s a n =
      elim (Bool-cases (is_some (g.hash_lookup c.signals (g.quark_from_string q s.name).0))) [
        | inl e ↦
            rw (e, vde_component_signal_add)
              (
                Named-from q c.signals s.name n,
                ground (arith, lookup-from q c.signals s.name n),
                λ u. get-from q c.signals s.name u n,
              )
        | inr e ↦
            rw (e, vde_component_signal_add)
              (
                Named-insert q c.signals s.name (record s { callbacks = [] }) n,
                ground (arith, lookup-from q c.signals s.name n),
                λ u. get-insert q c.signals s.name u (record s { callbacks = [] }),
              )
      ]

  -- A signal is removed exactly when its name finds one; then the destroy callbacks of that one
  -- are called, the name finds none, and every other name finds what it found before.
  pub vde_component_signal_del_lem :
      (q : g.Quarks) (self : ℕ) (c : Component) (s : Signal)
      → Named q c.signals
      → let (c', calls, st) = vde_component_signal_del q self c s in
        Named q c'.signals
        × (is_done st ≡ is_some (vde_component_signal_get q c s.name))
        × (calls ≡ elim (vde_component_signal_get q c s.name) [
          | none ↦ []
          | some dup ↦ (vde_signal_fini dup self).0
        ])
        × ((u : CString)
            → vde_component_signal_get q c' u
              ≡ (if s.name ==s u then none else vde_component_signal_get q c u))
  unfolding vde_component_signal_del vde_component_signal_get
  vde_component_signal_del_lem q self c s n =
      elim (Option-cases (g.hash_lookup c.signals (g.quark_try_string q s.name))) [
        | inl e ↦
            rw (e, vde_component_signal_del) (n, refl, refl, λ u. ground (arith, ==s_iff s.name u))
        | inr (dup, e) ↦
            rw (e, vde_component_signal_del)
              (
                Named-remove q c.signals (g.quark_try_string q s.name) n,
                refl,
                refl,
                λ u. get-remove q c.signals s.name u n,
              )
      ]

  -- The name under which an entry is stored keeps it apart from those of all other names.
  store_get :
      (q : g.Quarks) (t : g.Hash Signal) (s u : CString) (old new : Signal)
      → Named q t
      → named_get q t s ≡ some old
      → named_get q (g.hash_insert t (g.quark_try_string q s) new) u
        ≡ (if s ==s u then some new else named_get q t u)
  store_get q t s u old new n e = ground (
    arith,
    g.lookup_insert t (g.quark_try_string q s) new (g.quark_try_string q u),
    g.try_injective q s u,
    ==s_iff s u,
    n.zero_free,
  )

  raise-stored :
      {I : Type 0} (q : g.Quarks) (c : Component) (n u : CString) (old new : Signal) (self : ℕ)
      (info : I) (calls : List (Call I))
      → Named q c.signals
      → g.hash_lookup c.signals (g.quark_try_string q n) ≡ some old
      → vde_signal_raise new info self ≡ calls
      → vde_component_signal_raise q self
          (record c { signals = g.hash_insert c.signals (g.quark_try_string q n) new })
          u
          info
        ≡ (if n ==s u then calls else vde_component_signal_raise q self c u info)
  unfolding vde_component_signal_raise
  raise-stored q c n u old new self info calls named e h =
      ground (arith, store_get q c.signals n u old new named e, h)

  -- Attaching a callback that is not registered, with memory, succeeds on a signal that is there.
  -- Raising this signal then calls the new callback first and the older ones as before, and raising
  -- any other signal of the component calls what it called before.
  pub raise-attach :
      {I : Type 0} (q : g.Quarks) (c : Component) (n u : CString) (sig : Signal) (a cb d p self : ℕ)
      (info : I)
      → Named q c.signals
      → vde_component_signal_get q c n ≡ some sig
      → registered sig.callbacks cb d p ≡ false
      → let (c', st) = vde_component_signal_attach (some a) q c n cb d p in
        (st ≡ done)
        × (vde_component_signal_raise q self c' u info ≡ (
            if n ==s u
            then record {
              callee = cb;
              component = self;
              signal = sig.name;
              info = info;
              priv_data = p;
            }
              ∷ vde_component_signal_raise q self c u info
            else vde_component_signal_raise q self c u info))
  unfolding vde_component_signal_get vde_component_signal_attach vde_component_signal_raise
  raise-attach q c n u sig a cb d p self info named e fresh =
      let (ok, calls) = raise-attach_signal sig a cb d p self info fresh in
      let raised =
        raise-stored q c n u sig (vde_signal_attach (some a) sig cb d p).0 self info
          (record { callee = cb; component = self; signal = sig.name; info = info; priv_data = p }
            ∷ vde_signal_raise sig info self)
          named e calls in
      rw (e, vde_component_signal_attach) (ok, ground (arith, raised, e, ==s_iff n u))
