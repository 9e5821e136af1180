-- ===== src/Ctrl/Subscribe/Laws.antt =====
-- engine_ctrl.c: subscribing to a signal, and ending the subscription.
use vde.Base.{
  true, ◌==◌, inr, ℕ, ◌≡◌, refl, ap, ◌∙◌, false, some, List, [], ◌∷◌, CString, Status, done, take,
  length, ==_refl, ==_iff, ==s_refl, arith,
}
use vde.Glib.{Glib}
use vde.Signal.{Signal, vde_signal_attach}
use vde.Signal.Registered.{registered, detach-attach}
use vde.Signal.Calls.{raise-attach_signal}
use vde.Component.{Component}
use vde.Component.Signals.{
  vde_component_signal_attach, vde_component_signal_detach, vde_component_signal_get,
}
use vde.Context.{store}
use vde.Context.Life.{vde_context_get_component}
use vde.Ctrl.Paths.{check_split_path}
use vde.Ctrl.Subscribe.{
  attached, detached, Subscriber, Subs, add_at, detach_at, engine_ctrl_notify_add,
  engine_ctrl_notify_del, Registration, find_registration,
}

take-length : (p : CString) → take (length p) p ≡ p
take-length [] = refl
take-length (x ∷ p) = ap (λ l. x ∷ l) (take-length p)

find-head :
    (a : ℕ) (p : CString) (rs : List Registration)
    → find_registration (record { addr = a; path = p } ∷ rs) p
      ≡ some (record { addr = a; path = p })
unfolding find_registration
find-head a p rs = rw (take-length p) (rw (==s_refl p) refl)

module _ ⦃g : Glib⦄ where
  -- The two components have the same signals with the same callbacks, and are alike otherwise.
  pub record SameSignals (c d : Component) : Type 0 where
    pub signals : (j : ℕ) → g.hash_lookup d.signals j ≡ g.hash_lookup c.signals j
    pub rest : d ≡ record c { signals = d.signals }

  component_detach-attach :
      (q : g.Quarks) (c : Component) (n : CString) (sig : Signal) (a cb d p : ℕ)
      → vde_component_signal_get q c n ≡ some sig
      → registered sig.callbacks cb d p ≡ false
      → let r = vde_component_signal_attach (some a) q c n cb d p in
        (r.1 ≡ done)
        × ((c2 : Component) × (vde_component_signal_detach q r.0 n cb d p ≡ (c2, done))
            × SameSignals c c2)
  unfolding vde_component_signal_attach vde_component_signal_detach vde_component_signal_get
  component_detach-attach q c n sig a cb d p here fresh =
      let k = g.quark_try_string q n in
      let sig' = (vde_signal_attach (some a) sig cb d p).0 in
      let back = detach-attach sig a cb d p fresh in
      let t = g.hash_insert c.signals k sig' in
      let found : g.hash_lookup t k ≡ some sig' =
        g.lookup_insert c.signals k sig' k ∙ ground (arith, ==_refl k) in
      let c2 : Component = record c { signals = g.hash_insert t k sig } in
      rw (here, vde_component_signal_attach)
        (
          (raise-attach_signal sig a cb d p 0 p fresh).0,
          (
            c2,
            rw (found, vde_component_signal_detach)
                (ap (λ (r : Signal × Status). (record c { signals = g.hash_insert t k r.0 }, r.1))
                  back),
            record {
              signals = λ j. ground (
                arith,
                g.lookup_insert t k sig j,
                g.lookup_insert c.signals k sig' j,
                here,
                ==_iff k j,
              );
              rest = refl;
            },
          ),
        )

  -- What is left of a subscription: the list of registered paths, the context and the other components are
  -- as before, and so is the component of the signal, but for the table that holds its signals.
  pub record Restored (s t : Subs) (p : ℕ) (c : Component) : Type 0 where
    pub paths : t.reg_signals ≡ s.reg_signals
    pub ctx : t.world.ctx ≡ s.world.ctx
    pub quarks : t.world.quarks ≡ s.world.quarks
    pub others : (b : ℕ) → (p == b) ≡ false → t.world.heap b ≡ s.world.heap b
    pub component : Component
    pub there : t.world.heap p ≡ some component
    pub same : SameSignals c component

  module _ (cc : Subscriber) where
    -- A connection subscribes to a signal of a component by its path, with memory, if it has not yet; the
    -- path is then the first of the registered ones. Ending the subscription by the same path takes the
    -- entry back, whatever paths were registered before, and every signal has the callbacks that it had.
    pub notify_del-add :
        (s : Subs) (full_path name sig_name : CString) (p entry copy : ℕ) (c : Component)
        (sig : Signal)
        → check_split_path true true full_path ≡ inr (name, sig_name)
        → vde_context_get_component s.world name ≡ some p
        → s.world.heap p ≡ some c
        → vde_component_signal_get s.world.quarks c sig_name ≡ some sig
        → registered sig.callbacks cc.callback cc.destroy cc.self ≡ false
        → (s1 : Subs) × (engine_ctrl_notify_add cc true true (some entry) copy s full_path
            ≡ some (s1, attached, done))
          × (s1.reg_signals ≡ record { addr = copy; path = full_path } ∷ s.reg_signals)
          × ((s2 : Subs) × (engine_ctrl_notify_del cc true true s1 full_path
                ≡ some (s2, detached, done))
              × Restored s s2 p c)
    unfolding engine_ctrl_notify_add engine_ctrl_notify_del add_at detach_at
        vde_context_get_component
    notify_del-add s full_path name sig_name p entry copy c sig splits finds here has fresh =
        let (ok, (c2, gone, same)) =
          component_detach-attach s.world.quarks c sig_name sig entry cc.callback cc.destroy cc.self
            has fresh in
        let c1 =
          (vde_component_signal_attach (some entry) s.world.quarks c sig_name cc.callback cc.destroy
            cc.self).0 in
        let r : Registration = record { addr = copy; path = full_path } in
        let s1 : Subs = record {
          world = store s.world p (some c1);
          reg_signals = r ∷ s.reg_signals;
        } in
        let s2 : Subs = record {
          world = store s1.world p (some c2);
          reg_signals = s.reg_signals;
        } in
        (
          s1,
          ground (arith, splits, finds, here, ok, g.prepend_law s.reg_signals r),
          refl,
          (
            s2,
            ground (
              arith,
              find-head copy full_path s.reg_signals,
              splits,
              finds,
              gone,
              ==_refl p,
              ==_refl copy,
              g.remove_law (λ (x : Registration). x.addr) (r ∷ s.reg_signals) copy,
            ),
            record {
              paths = refl;
              ctx = refl;
              quarks = refl;
              others = λ b other. ground (arith, other);
              component = c2;
              there = ground (arith, ==_refl p);
              same = same;
            },
          ),
        )
