-- ===== src/Context/Life/Delete.antt =====
-- Deleting a component: when it is refused, and what a caller finds by name afterwards.
use vde.Base.{
  ℕ, ◌≡◌, true, false, Option, none, some, List, ◌==s◌, ◌⊎◌, if◌then◌else◌, CString, Status, done,
  fail, enoent, ebusy,
}
use vde.Base.Int.{is_one}
use vde.Glib.{Glib}
use vde.OrdHash.Repr.{drop_key}
use vde.Component.{Component}
use vde.Context.{World}
use vde.Context.Life.{vde_context_get_component}
use vde.Context.Life.Valid.{IsValid}

module _ ⦃g : Glib⦄ where
  -- What a deletion has done: a refusal leaves the world, and has one of two reasons; a success
  -- takes the component that had one reference out of the context and frees it, its name finds
  -- nothing, and every other name finds what it found before.
  abbrev pub Deleted :
      World → List (ℕ × ℕ) → ℕ → Component → CString → Option (World × Status) → Type 0
  Deleted w xs p c name none = ⊥
  Deleted w xs p c name (some (w', fail e)) =
      (w' ≡ w)
      × (((e ≡ enoent) × (vde_context_get_component w name ≡ none))
          ⊎ ((e ≡ ebusy) × (is_one c.refcount ≡ false)))
  Deleted w xs p c name (some (w', done)) =
      (is_one c.refcount ≡ true)
      × IsValid w' (drop_key xs c.qname)
      × (w'.heap p ≡ none)
      × ((u : CString)
          → vde_context_get_component w' u
            ≡ (if name ==s u then none else vde_context_get_component w u))
