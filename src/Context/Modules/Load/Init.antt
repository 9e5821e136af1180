-- ===== src/Context/Modules/Load/Init.antt =====
-- vde_modules_load of module.c and vde_context_init of context.c, from their first statements.
use vde.Base.{
  suc, ◌≡◌, refl, sym, ap, ◌∙◌, subst, true, Option, some, List, [], append-nil, CString, Status,
  fail, All, arith, Option-cases, inl, inr,
}
use vde.Glib.{Glib}
use vde.OrdHash.{vde_ordhash_new}
use vde.OrdHash.Repr.{Repr, vde_ordhash_new-Repr}
use vde.Component.Names.{Named, Named-init}
use vde.Context.{World, Context, EventHandler}
use vde.Context.Modules.Laws.{AreValid}
use vde.Context.Modules.Load.{
  Dl, Fts, Loading, or_default, vde_modules_load, vde_context_init, is_complete,
}
use vde.Context.Modules.Load.Laws.{HasHandle, Loaded, Loaded-refl, loop-Loaded}
use vde.Context.Life.Valid.{IsValid}

module _ ⦃g : Glib⦄ ⦃dl : Dl⦄ ⦃fts : Fts⦄ where
  -- Loading runs to its end, whatever the files are, and only adds modules, which are valid and have a
  -- handle; the rest of the context and the components are as before.
  pub vde_modules_load-Loaded :
      (default : List CString) (l : Loading) (path : Option (List CString))
      → AreValid l.world.ctx.modules
      → (l' : Loading) × (st : Status) × (vde_modules_load default l path ≡ some (l', st))
        × Loaded l.world l'.world
  unfolding vde_modules_load
  vde_modules_load-Loaded default l path v =
      elim (Option-cases (fts.fts_open (or_default default path))) [
        | inl shut ↦
            (l, fail fts.open_errno, rw (shut, vde_modules_load) refl, Loaded-refl l.world v)
        | inr (h, opened) ↦
            let (l', h', ran, loaded) = loop-Loaded (suc (fts.left h)) l h v (omega arith) in
            (l', fts.fts_close h', rw (opened, ran, vde_modules_load) refl, loaded)
      ]

  -- With an event handler that has all its functions, a context is valid afterwards, whatever the files
  -- are, with no component, and only modules with a handle; also where -1 is returned.
  pub vde_context_init-IsValid :
      (default : List CString) (l : Loading) (handler : EventHandler) (path : Option (List CString))
      → is_complete handler ≡ true
      → (l' : Loading) × (st : Status) × (vde_context_init default l (some handler) path
          ≡ some (l', st))
        × IsValid l'.world []
        × (l'.world.ctx.event_handler ≡ handler)
        × All HasHandle l'.world.ctx.modules
  unfolding vde_context_init vde_ordhash_new
  vde_context_init-IsValid default l handler path complete =
      let w0 : World = record l.world {
        ctx = record l.world.ctx {
          event_handler = handler;
          modules = [];
          components = vde_ordhash_new;
          initialized = 1;
        };
      } in
      let (l', st, ran, loaded) =
        vde_modules_load-Loaded default (record l { world = w0 }) path tt in
      let same : l'.world.ctx ≡ record w0.ctx { modules = l'.world.ctx.modules } =
        ap (λ (w : World). w.ctx) loaded.rest in
      (
        l',
        st,
        rw (complete, vde_context_init) ran,
        record {
          ready = ap (λ (c : Context). c.initialized) same;
          repr = subst (λ (c : Context). Repr c.components []) (sym same) vde_ordhash_new-Repr;
          named =
              subst (λ (c : Context). Named l'.world.quarks c.components.hash) (sym same)
                (Named-init l'.world.quarks);
          modules = loaded.valid;
        },
        ap (λ (c : Context). c.event_handler) same,
        subst (All HasHandle) (sym (loaded.in_front ∙ append-nil loaded.added)) loaded.handles,
      )
