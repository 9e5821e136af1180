-- ===== src/Context/Life/Valid.antt =====
-- The well-formedness of a context, and what keeps it.
use vde.Base.{◌==◌, ℕ, ◌≡◌, sym, ◌∙◌, true, Option, List, arith, CString}
use vde.Glib.{Glib}
use vde.OrdHash.{vde_ordhash_lookup}
use vde.OrdHash.Repr.{Repr}
use vde.Component.{Component}
use vde.Component.Names.{named_get, Named, Grows, get-grow, Named-grow}
use vde.Context.{World}
use vde.Context.Modules.Laws.{AreValid}
use vde.Context.Life.{vde_context_get_component}

module _ ⦃g : Glib⦄ where
  -- The context is initialized, its table stands for `xs`, every component in it has an interned
  -- name, and its modules are valid.
  pub record IsValid (w : World) (xs : List (ℕ × ℕ)) : Type 0 where
    pub ready : w.ctx.initialized ≡ 1
    pub repr : Repr w.ctx.components xs
    pub named : Named w.quarks w.ctx.components.hash
    pub modules : AreValid w.ctx.modules

  pub get_component-named_get :
      (w : World) (u : CString)
      → w.ctx.initialized ≡ 1
      → vde_context_get_component w u ≡ named_get w.quarks w.ctx.components.hash u
  unfolding vde_context_get_component vde_ordhash_lookup
  get_component-named_get w u h = rw h

  pub grow_IsValid :
      (w : World) (q : g.Quarks) (h : ℕ → Option Component) (xs : List (ℕ × ℕ))
      → IsValid w xs
      → Grows w.quarks q
      → IsValid (record w { quarks = q; heap = h }) xs
  grow_IsValid w q h xs v grows = record {
    ready = v.ready;
    repr = v.repr;
    named = Named-grow w.quarks q w.ctx.components.hash grows v.named;
    modules = v.modules;
  }

  pub grow_get :
      (w : World) (q : g.Quarks) (h : ℕ → Option Component) (u : CString)
      → w.ctx.initialized ≡ 1
      → Named w.quarks w.ctx.components.hash
      → Grows w.quarks q
      → vde_context_get_component (record w { quarks = q; heap = h }) u
        ≡ vde_context_get_component w u
  grow_get w q h u i n grows =
      get_component-named_get (record w { quarks = q; heap = h }) u i
      ∙ (get-grow w.quarks q w.ctx.components.hash u grows n ∙ sym (get_component-named_get w u i))

  pub is_ready : (w : World) → w.ctx.initialized ≡ 1 → (w.ctx.initialized == 1) ≡ true
  is_ready w h = ground arith

  pub ctx_path :
      (w w2 : World) → w2.ctx ≡ w.ctx → w2 ≡ record w { quarks = w2.quarks; heap = w2.heap }
  ctx_path w w2 e = λ i. record { quarks = w2.quarks; heap = w2.heap; ctx = e i }
