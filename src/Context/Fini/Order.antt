-- ===== src/Context/Fini/Order.antt =====
-- vde_context_fini, from the first loop to the last statement.
use vde.Base.{ℕ, ◌≡◌, Bool, not, none, some, List, [], ◌∷◌, ◌++◌, All}
use vde.Glib.{Glib}
use vde.OrdHash.Repr.{Repr}
use vde.Component.{Kind, is_connection_manager}
use vde.Context.{World, Context, Plugin, no_handler, store}
use vde.Context.Fini.{close_context}
use vde.Context.Fini.Laws.{fini_each, wanted}

-- The components of a table.
abbrev pub values : List (ℕ × ℕ) → List ℕ
values [] = []
values ((k, p) ∷ xs) = p ∷ values xs

abbrev pub is_other : Kind → Bool
is_other k = not (is_connection_manager k)

module _ ⦃g : Glib⦄ where
  abbrev pub delete_each : World → List ℕ → World
  delete_each w [] = w
  delete_each w (p ∷ ps) = delete_each (store w p none) ps

  abbrev pub without_handler : World → World
  without_handler w = record w { ctx = record w.ctx { event_handler = no_handler } }

  module _ {P : Type 0} (plugin : Plugin P) where
    -- How a context ends.
    pub record Ended (w : World) (xs : List (ℕ × ℕ)) (v : World) : Type 0 where
      pub finished : World
      pub managers_first :
          fini_each plugin
            (without_handler w)
            (wanted is_connection_manager w xs ++ wanted is_other w xs)
          ≡ some finished
      pub then_deleted : v ≡ close_context (delete_each finished (values xs))
      pub gone : All (λ p. v.heap p ≡ none) (values xs)
      pub emptied : Repr v.ctx.components []
      pub closed : v.ctx.initialized ≡ 0
      pub no_modules : v.ctx.modules ≡ []
      pub unhandled : v.ctx.event_handler ≡ no_handler
