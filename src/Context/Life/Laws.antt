-- ===== src/Context/Life/Laws.antt =====
-- Creating and deleting components: what a caller finds by name afterwards.
use vde.Base.{
  ℕ, ◌≡◌, true, Option, none, some, Status, is_some, Status-cases, ==_refl, Option-cases, inl, inr,
}
use vde.Glib.{Glib}
use vde.Component.{Module}
use vde.Component.Names.{Grows}
use vde.Context.{World, Plugin, store}
use vde.Context.Life.{mark, init_of, set_module, run_module_init, vde_component_init}

module _ ⦃g : Glib⦄ where
  -- A call that has run to its end, with the context and the component in place.
  abbrev pub Ran : ℕ → World → Option (World × Status) → Type 0
  Ran p w none = ⊥
  Ran p w (some (w', st)) =
      (w'.ctx ≡ w.ctx) × Grows w.quarks w'.quarks × (is_some (w'.heap p) ≡ true)

module _ ⦃g : Glib⦄ {P : Type 0} where
  -- What the context relies on of the functions of a module: they leave the context and the component
  -- that they are called for in place, and take no quark away.
  pub record IsTame (plugin : Plugin P) : Type 0 where
    pub init_ctx :
        (f p : ℕ) (params : Option P) (w : World) → (plugin.run_init f p params w).0.ctx ≡ w.ctx
    pub init_quarks :
        (f p : ℕ) (params : Option P) (w : World)
        → Grows w.quarks (plugin.run_init f p params w).0.quarks
    pub init_heap :
        (f p : ℕ) (params : Option P) (w : World)
        → is_some (w.heap p) ≡ true
        → is_some ((plugin.run_init f p params w).0.heap p) ≡ true
    pub fini_ctx : (f p : ℕ) (w : World) → (plugin.run_fini f p w).ctx ≡ w.ctx
    pub fini_quarks : (f p : ℕ) (w : World) → Grows w.quarks (plugin.run_fini f p w).quarks
    pub fini_heap :
        (f p : ℕ) (w : World)
        → is_some (w.heap p) ≡ true
        → is_some ((plugin.run_fini f p w).heap p) ≡ true

  module _ (plugin : Plugin P) (tame : IsTame plugin) where
    run_init_Ran :
        (w : World) (p : ℕ) (params : Option P) (f : ℕ)
        → is_some (w.heap p) ≡ true
        → Ran p w (run_module_init plugin w p params (some f))
    unfolding run_module_init mark
    run_init_Ran w p params f h =
        let w' = (plugin.run_init f p params w).0 in
        let there = tame.init_heap f p params w h in
        elim (Status-cases (plugin.run_init f p params w).1) [
          | inr (e, failed) ↦
              rw (failed, run_module_init)
                (tame.init_ctx f p params w, tame.init_quarks f p params w, there)
          | inl ok ↦ elim (Option-cases (w'.heap p)) [
            | inl lost ↦ cc (lost, there)
            | inr (c, found) ↦
                rw (ok, found, run_module_init)
                  (tame.init_ctx f p params w, tame.init_quarks f p params w, rw (==_refl p))
          ]
        ]

    -- Initializing a component runs to its end if its module has an `init`, and leaves the context.
    pub component_init_Ran :
        (w : World) (p qname : ℕ) (m : Module) (params : Option P)
        → is_some (w.heap p) ≡ true
        → is_some (init_of m.cops) ≡ true
        → Ran p w (vde_component_init plugin w p qname m params)
    unfolding vde_component_init
    component_init_Ran w p qname m params h i = elim (Option-cases (w.heap p)) [
      | inl lost ↦ cc (lost, h)
      | inr (c, found) ↦ elim (Option-cases (init_of m.cops)) [
        | inl bad ↦ cc (bad, i)
        | inr (f, ok) ↦
            rw (found, ok, vde_component_init)
              (run_init_Ran (store w p (some (set_module c w.ctx.self qname m m.kind))) p params f
                (rw (==_refl p)))
      ]
    ]
