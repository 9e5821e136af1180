-- ===== src/Context/Fini.antt =====
-- vde_context_fini and vde_context_delete of context.c. The loops over the components take one round for
-- each entry, on fuel: `none` is a pointer to a component that is not there, or fuel that ran out.
pub mod Laws
pub mod Order
use vde.Base.{
  ℕ, zero, suc, Bool, true, false, not, Option, none, some, List, [], ◌==◌, if◌then◌else◌, length,
}
use vde.Glib.{Glib}
use vde.OrdHash.{
  Entry, vde_ordhash_first, vde_ordhash_next, vde_ordhash_entry_lookup, vde_ordhash_remove_all,
}
use vde.Component.{Kind, is_connection_manager}
use vde.Context.{World, Context, Plugin, no_handler}
use vde.Context.Life.{vde_component_fini, vde_component_delete}

module _ ⦃g : Glib⦄ where
  -- The rounds that a loop over the components needs.
  abbrev pub rounds : World → ℕ
  rounds w = suc (length w.ctx.components.list)

  -- What follows the third loop.
  pub close_context : World → World
  close_context w = record w {
    ctx = record w.ctx {
      components = vde_ordhash_remove_all w.ctx.components;
      modules = [];
      initialized = 0;
    };
  }

  -- The third loop.
  pub delete_loop : ℕ → World → Option Entry → Option World
  unfolding vde_component_delete
  delete_loop zero w e = none
  delete_loop (suc fuel) w none = some w
  delete_loop (suc fuel) w (some e) = elim (vde_ordhash_entry_lookup w.ctx.components e) [
    | none ↦ none
    | some p ↦ delete_loop fuel (vde_component_delete w p) (vde_ordhash_next e)
  ]

  module _ {P : Type 0} (plugin : Plugin P) where
    pub fini_if : Bool → World → ℕ → Option World
    fini_if true w p = vde_component_fini plugin w p
    fini_if false w p = some w

    -- The body of the first two loops, which differ in the kinds that they want.
    pub fini_round : (Kind → Bool) → World → Entry → Option World
    unfolding fini_if
    fini_round want w e = elim (vde_ordhash_entry_lookup w.ctx.components e) [
      | none ↦ none
      | some p ↦ elim (w.heap p) [ none ↦ none | some c ↦ fini_if (want c.kind) w p ]
    ]

    pub fini_loop : (Kind → Bool) → ℕ → World → Option Entry → Option World
    unfolding fini_round
    fini_loop want zero w e = none
    fini_loop want (suc fuel) w none = some w
    fini_loop want (suc fuel) w (some e) = elim (fini_round want w e) [
      | none ↦ none
      | some w' ↦ fini_loop want fuel w' (vde_ordhash_next e)
    ]

    pub fini_all : World → Option World
    unfolding fini_loop delete_loop close_context
    fini_all w =
        elim (fini_loop is_connection_manager (rounds w) w (vde_ordhash_first w.ctx.components)) [
          | none ↦ none
          | some w1 ↦
              elim (fini_loop (λ k. not (is_connection_manager k)) (rounds w1) w1
                (vde_ordhash_first w1.ctx.components)) [
                  | none ↦ none
                  | some w2 ↦
                      elim (delete_loop (rounds w2) w2 (vde_ordhash_first w2.ctx.components)) [
                        | none ↦ none
                        | some w3 ↦ some (close_context w3)
                      ]
                ]
        ]

    pub vde_context_fini : World → Option World
    unfolding fini_all
    vde_context_fini w =
        if w.ctx.initialized == 1
        then fini_all (record w { ctx = record w.ctx { event_handler = no_handler } })
        else some w

  -- `none` is a context that has been freed.
  pub vde_context_delete : Context → Option Context
  vde_context_delete ctx = if ctx.initialized == 0 then none else some ctx
