-- ===== src/Context/Life/Create.antt =====
-- Creating a component: what a caller finds by name afterwards, on every branch.
use vde.Base.{
  ℕ, ◌≡◌, refl, ap, sym, subst, ◌∙◌, true, Option, none, some, List, [], ◌∷◌, ◌++◌, ◌==s◌, arith,
  if◌then◌else◌, CString, Status, done, fail, is_some, Option-cases, Status-cases, inl, inr,
  ==_refl,
}
use vde.Glib.{Glib}
use vde.OrdHash.{vde_ordhash_insert, vde_ordhash_lookup}
use vde.OrdHash.Repr.{vde_ordhash_insert-Repr}
use vde.Component.{Component, ComponentOps, Module, Kind}
use vde.Component.Names.{
  Named, Grows, Grows-from, Grows-trans, get-grow, Named-grow, get-insert, Named-insert,
  lookup-from,
}
use vde.Context.{World, Plugin, store, zeroed}
use vde.Context.Modules.{vde_context_lookup_module, cops_present}
use vde.Context.Modules.Laws.{
  lookup_module-module_of, Grows-lookup_module, IsAcceptable, module_of-IsAcceptable,
}
use vde.Context.Life.{
  vde_context_new_component, init_of, vde_component_init, vde_component_delete,
  vde_context_get_component, add_component, create,
}
use vde.Context.Life.Laws.{IsTame, Ran, component_init_Ran}
use vde.Context.Life.Valid.{
  IsValid, get_component-named_get, grow_IsValid, grow_get, is_ready, ctx_path,
}

-- An acceptable module has an `init`.
init_of-IsAcceptable : (m : Module) → IsAcceptable m → is_some (init_of m.cops) ≡ true
unfolding init_of cops_present
init_of-IsAcceptable m ok = present m.cops (ground (arith, ok))
  where
    present : (o : Option ComponentOps) → cops_present o ≡ true → is_some (init_of o) ≡ true
    present none e = cc
    present (some ops) e = ground arith

module _ ⦃g : Glib⦄ where
  -- What *component is after a failure: as it was, or a pointer to the component, which is deleted.
  abbrev pub Stored : World → Option ℕ → Option ℕ → Type 0
  Stored w new none = Unit
  Stored w new (some p) = (new ≡ some p) × (w.heap p ≡ none)

  -- What a creation has done: a failure leaves the context, and no component is at the
  -- address that it may have stored; a success gives
  -- the new address, which is the youngest component and is found by the new name, that was free;
  -- every other name finds what it found before.
  abbrev pub Created :
      World → List (ℕ × ℕ) → CString → Option ℕ → Option (World × Option ℕ × Status) → Type 0
  Created w xs name new none = ⊥
  Created w xs name new (some (w', out, fail e)) =
      IsValid w' xs
      × (w'.ctx ≡ w.ctx)
      × Stored w' new out
      × ((u : CString) → vde_context_get_component w' u ≡ vde_context_get_component w u)
  Created w xs name new (some (w', out, done)) =
      (k : ℕ) × (p : ℕ) × IsValid w' (xs ++ ((k, p) ∷ []))
      × (new ≡ some p)
      × (out ≡ new)
      × (vde_context_get_component w name ≡ none)
      × ((u : CString)
          → vde_context_get_component w' u
            ≡ (if name ==s u then new else vde_context_get_component w u))

  -- The name is entered in the table after the module has run, under the quark it had before.
  entered_get :
      (w : World) (r : g.Quarks) (h : ℕ → Option Component) (name u : CString) (p : ℕ)
      → w.ctx.initialized ≡ 1
      → Named w.quarks w.ctx.components.hash
      → Grows (g.quark_from_string w.quarks name).1 r
      → vde_context_get_component
          (record w {
            quarks = r;
            heap = h;
            ctx = record w.ctx {
              components =
                  vde_ordhash_insert w.ctx.components (g.quark_from_string w.quarks name).0 p;
            };
          })
          u
        ≡ (if name ==s u then some p else vde_context_get_component w u)
  unfolding vde_ordhash_insert
  entered_get w r h name u p i n grows =
      let t = w.ctx.components.hash in
      let q = (g.quark_from_string w.quarks name).1 in
      let t' = g.hash_insert t (g.quark_from_string w.quarks name).0 p in
      get_component-named_get
        (record w {
          quarks = r;
          heap = h;
          ctx = record w.ctx {
            components = record {
              hash = t';
              list = g.list_append w.ctx.components.list (g.quark_from_string w.quarks name).0;
            };
          };
        })
        u i
      ∙ (get-grow q r t' u grows (Named-insert w.quarks t name p n)
          ∙ (get-insert w.quarks t name u p
              ∙ ap (λ o. if name ==s u then some p else o) (sym (get_component-named_get w u i))))

  entered_IsValid :
      (w : World) (r : g.Quarks) (h : ℕ → Option Component) (xs : List (ℕ × ℕ)) (name : CString)
      (p : ℕ)
      → IsValid w xs
      → vde_context_get_component w name ≡ none
      → Grows (g.quark_from_string w.quarks name).1 r
      → IsValid
          (record w {
            quarks = r;
            heap = h;
            ctx = record w.ctx {
              components =
                  vde_ordhash_insert w.ctx.components (g.quark_from_string w.quarks name).0 p;
            };
          })
          (xs ++ (((g.quark_from_string w.quarks name).0, p) ∷ []))
  unfolding vde_ordhash_insert vde_ordhash_lookup
  entered_IsValid w r h xs name p v free grows =
      let t = w.ctx.components.hash in
      record {
        ready = v.ready;
        repr =
            vde_ordhash_insert-Repr w.ctx.components xs (g.quark_from_string w.quarks name).0 p
              v.repr
              (lookup-from w.quarks t name v.named
                ∙ (sym (get_component-named_get w name v.ready) ∙ free));
        named =
            Named-grow (g.quark_from_string w.quarks name).1 r
              (g.hash_insert t (g.quark_from_string w.quarks name).0 p) grows
              (Named-insert w.quarks t name p v.named);
        modules = v.modules;
      }

  -- A creation in a world with more interned strings is one in the world before.
  from_Created :
      (w w1 : World) (xs : List (ℕ × ℕ)) (name : CString) (new : Option ℕ)
      (r : Option (World × Option ℕ × Status))
      → ((u : CString) → vde_context_get_component w1 u ≡ vde_context_get_component w u)
      → w1.ctx ≡ w.ctx
      → Created w1 xs name new r
      → Created w xs name new r
  from_Created w w1 xs name new none kept same c = c
  from_Created w w1 xs name new (some (w', out, fail e)) kept same c =
      (c.0, c.1 ∙ same, c.2, λ u. c.3 u ∙ kept u)
  from_Created w w1 xs name new (some (w', out, done)) kept same (k, p, v, e, o, free, get) =
      (k, p, v, e, o, sym (kept name) ∙ free, λ u. ground (arith, get u, kept u))

  module _ {P : Type 0} (plugin : Plugin P) (tame : IsTame plugin) where
    create-Created :
        (w : World) (xs : List (ℕ × ℕ)) (name : CString) (new : Option ℕ) (m : Module)
        (params : Option P)
        → IsValid w xs
        → vde_context_get_component w name ≡ none
        → is_some (init_of m.cops) ≡ true
        → Created w xs name new (create plugin new w m name params)
    unfolding create add_component vde_component_delete
    create-Created w xs name none m params v free i = (v, refl, tt, λ u. refl)
    create-Created w xs name (some p) m params v free i =
        let k = (g.quark_from_string w.quarks name).0 in
        let q = (g.quark_from_string w.quarks name).1 in
        let w1 : World = store (record w { quarks = q }) p (some zeroed) in
        let ran : Ran p w1 (vde_component_init plugin w1 p k m params) =
          component_init_Ran plugin tame w1 p k m params (rw (==_refl p)) i in
        elim (Option-cases (vde_component_init plugin w1 p k m params)) [
          | inl lost ↦ absurd (subst (Ran p w1) lost ran)
          | inr ((w2, st), e) ↦
              let (same, grows, there) = subst (Ran p w1) e ran in
              let w2' : World = record w { quarks = w2.quarks; heap = w2.heap } in
              let e' : vde_component_init plugin w1 p k m params ≡ some (w2', st) =
                e ∙ ap (λ x. some (x, st)) (ctx_path w w2 same) in
              let grows' = Grows-trans w.quarks q w2.quarks (Grows-from w.quarks name) grows in
              elim (Status-cases st) [
                | inr (x, failed) ↦
                    rw (e', failed, create)
                      (
                        grow_IsValid w w2.quarks _ xs v grows',
                        refl,
                        (refl, ground (arith, ==_refl p)),
                        λ u. grow_get w w2.quarks _ u v.ready v.named grows',
                      )
                | inl ok ↦ elim (Option-cases (w2.heap p)) [
                  | inl gone ↦ cc (gone, there)
                  | inr (c, here) ↦
                      rw (e', ok, here, create)
                        (
                          k,
                          p,
                          entered_IsValid w w2.quarks _ xs name p v free grows,
                          refl,
                          refl,
                          free,
                          λ u. entered_get w w2.quarks _ name u p v.ready v.named grows,
                        )
                ]
              ]
        ]

    -- Creating a component in a valid context runs to its end on every branch, where the functions of
    -- modules leave the context and the component in place and keep the quarks. A failure
    -- leaves the context and what each name finds, and where it has stored the new address, as it does when
    -- the init of the module fails, nothing is there any more. A success gives the new address,
    -- which is the youngest component and is found by its name, that was free; every other name finds
    -- what it found before. The context stays valid.
    pub vde_context_new_component-Created :
        (w : World) (xs : List (ℕ × ℕ)) (new : Option ℕ) (kind : Kind) (family name : CString)
        (params : Option P)
        → IsValid w xs
        → Created w xs name new (vde_context_new_component plugin new w kind family name params)
    unfolding vde_context_new_component
    vde_context_new_component-Created w xs new kind family name params v =
        elim (Option-cases (vde_context_get_component w name)) [
          | inr (p, used) ↦
              rw (is_ready w v.ready, used, vde_context_new_component) (v, refl, tt, λ u. refl)
          | inl free ↦
              let q = (vde_context_lookup_module w.quarks w.ctx kind family).0 in
              let w1 : World = record w { quarks = q } in
              let grows = Grows-lookup_module w.quarks w.ctx kind family in
              let v1 = grow_IsValid w q w.heap xs v grows in
              let kept = λ (u : CString). grow_get w q w.heap u v.ready v.named grows in
              elim (Option-cases (vde_context_lookup_module w.quarks w.ctx kind family).1) [
                | inl e ↦
                    rw (is_ready w v.ready, free, e, vde_context_new_component) (v1, refl, tt, kept)
                | inr (m, e) ↦
                    let found = sym (lookup_module-module_of w.quarks w.ctx kind family) ∙ e in
                    let ok = module_of-IsAcceptable w.ctx.modules kind family m v.modules found in
                    rw (is_ready w v.ready, free, e, vde_context_new_component)
                      (from_Created w w1 xs name new _ kept refl (
                        create-Created w1 xs name new m params v1 (kept name ∙ free)
                          (init_of-IsAcceptable m ok)))
              ]
        ]
