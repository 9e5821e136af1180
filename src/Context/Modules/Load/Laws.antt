-- ===== src/Context/Modules/Load/Laws.antt =====
-- Loading modules adds valid modules with a handle to those of a context, and does nothing else to it.
use vde.Base.{
  ℕ, zero, suc, ◌<◌, ◌≤◌, ◌≡◌, refl, sym, ap, ◌∙◌, true, Option, some, List, [], ◌∷◌, ◌++◌, ◌&&◌,
  CString, is_some, All, arith, Option-cases, Bool-cases, Status-cases, inl, inr, append_assoc,
}
use vde.Glib.{Glib}
use vde.Component.{Module, Kind, engine, transport, connection_manager}
use vde.Component.Names.{Grows, Grows-trans}
use vde.Context.{World}
use vde.Context.Modules.{
  vde_context_register_module, cops_present, kind_ops_present, vde_context_lookup_module,
}
use vde.Context.Modules.Laws.{AreValid, vde_context_register_module_lem, Grows-lookup_module}
use vde.Context.Modules.Load.{
  Dl, Fts, FtsInfo, FtsEntry, file, dir, fts_error, other_info, Symbol, missing, null_symbol, start,
  Loading, set_dlhandle, keep_module, with_symbol, module_try_load, visit, load_loop, has_suffix,
}

abbrev pub HasHandle : Module → Type 0
HasHandle m = is_some m.dlhandle ≡ true

ops_of_handle :
    (m : Module) (h : Option ℕ) (k : Kind)
    → kind_ops_present (record m { dlhandle = h }) k ≡ kind_ops_present m k
unfolding kind_ops_present
ops_of_handle m h engine = refl
ops_of_handle m h transport = refl
ops_of_handle m h connection_manager = refl

set_dlhandle-AreValid : (h : ℕ) (ms : List Module) → AreValid ms → AreValid (set_dlhandle h ms)
set_dlhandle-AreValid h [] v = tt
set_dlhandle-AreValid h (m ∷ ms) (good, only, v) =
    (ground (arith, ops_of_handle m (some h) m.kind, good), only, v)

module _ ⦃g : Glib⦄ where
  -- The world has valid modules, with handles, in front of those that it had, and more quarks; the rest
  -- of it is as it was.
  pub record Loaded (w w' : World) : Type 0 where
    pub added : List Module
    pub in_front : w'.ctx.modules ≡ added ++ w.ctx.modules
    pub handles : All HasHandle added
    pub valid : AreValid w'.ctx.modules
    pub grows : Grows w.quarks w'.quarks
    pub rest : w' ≡ record w { quarks = w'.quarks; ctx = record w.ctx { modules = w'.ctx.modules } }

  pub Loaded-refl : (w : World) → AreValid w.ctx.modules → Loaded w w
  Loaded-refl w v = record {
    added = [];
    in_front = refl;
    handles = tt;
    valid = v;
    grows = λ s h. refl;
    rest = refl;
  }

  All-append :
      (xs ys : List Module) → All HasHandle xs → All HasHandle ys → All HasHandle (xs ++ ys)
  All-append [] ys h k = k
  All-append (x ∷ xs) ys (p, h) k = (p, All-append xs ys h k)

  Loaded-trans : (u v w : World) → Loaded u v → Loaded v w → Loaded u w
  Loaded-trans u v w a b = record {
    added = b.added ++ a.added;
    in_front =
        b.in_front
        ∙ (ap (λ l. b.added ++ l) a.in_front ∙ sym (append_assoc b.added a.added u.ctx.modules));
    handles = All-append b.added a.added b.handles a.handles;
    valid = b.valid;
    grows = Grows-trans u.quarks v.quarks w.quarks a.grows b.grows;
    rest =
        b.rest
        ∙ ap
            (λ (x : World). record x {
              quarks = w.quarks;
              ctx = record x.ctx { modules = w.ctx.modules };
            })
            a.rest;
  }

  keep_module-rest :
      (w : World) (m : Module)
      → let w' = (vde_context_register_module w m).0 in
        Grows w.quarks w'.quarks
        × (w' ≡ record w { quarks = w'.quarks; ctx = record w.ctx { modules = w'.ctx.modules } })
  unfolding vde_context_register_module
  keep_module-rest w m =
      let grows = Grows-lookup_module w.quarks w.ctx m.kind m.family in
      elim (Bool-cases (is_some (vde_context_lookup_module w.quarks w.ctx m.kind m.family).1)) [
        | inl e ↦ rw (e, vde_context_register_module) (grows, refl)
        | inr e ↦ elim (Bool-cases (kind_ops_present m m.kind && cops_present m.cops)) [
          | inl good ↦ rw (e, good, vde_context_register_module) (grows, refl)
          | inr bad ↦ rw (e, bad, vde_context_register_module) (grows, refl)
        ]
      ]

  module _ ⦃dl : Dl⦄ where
    keep_module-Loaded :
        (l : Loading) (handle : ℕ) (m : Module)
        → AreValid l.world.ctx.modules
        → Loaded l.world (keep_module l handle m).0.world
    unfolding keep_module
    keep_module-Loaded l handle m v =
        let r = vde_context_register_module l.world m in
        let (valid, answer, modules) = vde_context_register_module_lem l.world m v in
        let (grows, rest) = keep_module-rest l.world m in
        elim (Status-cases r.1) [
          | inl ok ↦
              let new : r.0.ctx.modules ≡ m ∷ l.world.ctx.modules = ground (arith, ok, modules) in
              rw (ok, keep_module)
                (record {
                  added = record m { dlhandle = some handle } ∷ [];
                  in_front = ap (set_dlhandle handle) new;
                  handles = (refl, tt);
                  valid = set_dlhandle-AreValid handle r.0.ctx.modules valid;
                  grows = grows;
                  rest =
                      ap
                        (λ (x : World). record x {
                          ctx = record x.ctx { modules = set_dlhandle handle r.0.ctx.modules };
                        })
                        rest;
                })
          | inr (e, bad) ↦
              rw (bad, keep_module)
                (record {
                  added = [];
                  in_front = ground (arith, bad, modules);
                  handles = tt;
                  valid = valid;
                  grows = grows;
                  rest = rest;
                })
        ]

    with_symbol-Loaded :
        (l : Loading) (handle : ℕ) (s : Symbol)
        → AreValid l.world.ctx.modules
        → Loaded l.world (with_symbol l handle s).0.world
    unfolding with_symbol
    with_symbol-Loaded l handle missing v = Loaded-refl l.world v
    with_symbol-Loaded l handle null_symbol v = Loaded-refl l.world v
    with_symbol-Loaded l handle (start m) v = keep_module-Loaded l handle m v

    try_load-Loaded :
        (l : Loading) (path : CString)
        → AreValid l.world.ctx.modules
        → Loaded l.world (module_try_load l path).0.world
    unfolding module_try_load
    try_load-Loaded l path v =
        let s = (dl.dlopen l.linker path).0 in
        elim (Option-cases (dl.dlopen l.linker path).1) [
          | inl shut ↦ rw (shut, module_try_load) (Loaded-refl l.world v)
          | inr (handle, opened) ↦
              rw (opened, module_try_load)
                (with_symbol-Loaded (record l { linker = (dl.dlsym s handle).0 }) handle
                  (dl.dlsym s handle).1 v)
        ]

    module _ ⦃fts : Fts⦄ where
      visit-Loaded :
          (i : FtsInfo) (l : Loading) (e : FtsEntry) (h : fts.Handle)
          → AreValid l.world.ctx.modules
          → Loaded l.world (visit i l e h).0.world × (fts.left (visit i l e h).1 ≤ fts.left h)
      unfolding visit
      visit-Loaded fts_error l e h v = (Loaded-refl l.world v, omega arith)
      visit-Loaded other_info l e h v = (Loaded-refl l.world v, omega arith)
      visit-Loaded dir l e h v = (Loaded-refl l.world v, ground (arith, fts.skip_left h e))
      visit-Loaded file l e h v = elim (Bool-cases (has_suffix e.path && dl.readable e.path)) [
        | inl is_module ↦ rw (is_module, visit) (try_load-Loaded l e.path v, omega arith)
        | inr other ↦ rw (other, visit) (Loaded-refl l.world v, omega arith)
      ]

      pub loop-Loaded :
          (fuel : ℕ) (l : Loading) (h : fts.Handle)
          → AreValid l.world.ctx.modules
          → fts.left h < fuel
          → (l' : Loading) × (h' : fts.Handle) × (load_loop fuel l h ≡ some (l', h'))
            × Loaded l.world l'.world
      unfolding load_loop
      loop-Loaded zero l h v enough = elim enough [ ]
      loop-Loaded (suc fuel) l h v enough = elim (Option-cases (fts.fts_read h)) [
        | inl finished ↦ (l, h, rw (finished, load_loop) refl, Loaded-refl l.world v)
        | inr ((e, h1), entry) ↦
            let next = visit e.info l e h1 in
            let (now, fewer) = visit-Loaded e.info l e h1 v in
            let (l', h', ran, later) =
              loop-Loaded fuel next.0 next.1 now.valid
                (omega (arith, fewer, fts.read_left h h1 e entry, enough)) in
            (
              l',
              h',
              rw (entry, load_loop) ran,
              Loaded-trans l.world next.0.world l'.world now later,
            )
      ]
