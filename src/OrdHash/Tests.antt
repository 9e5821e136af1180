-- ===== src/OrdHash/Tests.antt =====
-- The ordered hash at concrete tables: tests, and the theorems at their inputs.
use vde.Base.{ℕ, ◌≡◌, refl, List, [], ◌∷◌, ◌++◌, is_some}
use vde.Glib.Instance.{glib}
use vde.OrdHash.{
  OrdHash, vde_ordhash_new, vde_ordhash_insert, vde_ordhash_remove, vde_ordhash_lookup,
}
use vde.OrdHash.Repr.{Repr, vde_ordhash_new-Repr, vde_ordhash_insert-Repr, vde_ordhash_remove-Repr}

abbrev two_pairs : List (ℕ × ℕ)
two_pairs = (7, 70) ∷ (3, 30) ∷ []

abbrev two_keys : OrdHash ℕ
two_keys = vde_ordhash_insert (vde_ordhash_insert vde_ordhash_new 7 70) 3 30

two_keys-Repr : Repr two_keys two_pairs
unfolding vde_ordhash_new vde_ordhash_insert vde_ordhash_lookup
two_keys-Repr =
    vde_ordhash_insert-Repr _ ((7, 70) ∷ []) 3 30
      (vde_ordhash_insert-Repr vde_ordhash_new [] 7 70 vde_ordhash_new-Repr refl) refl

vde_ordhash_insert-Repr_example :
    Repr (vde_ordhash_insert two_keys 9 90) (two_pairs ++ ((9, 90) ∷ []))
unfolding vde_ordhash_new vde_ordhash_insert vde_ordhash_lookup
vde_ordhash_insert-Repr_example = vde_ordhash_insert-Repr two_keys two_pairs 9 90 two_keys-Repr refl

vde_ordhash_remove-Repr_example :
    Repr (vde_ordhash_remove two_keys 7).0 ((3, 30) ∷ [])
    × ((vde_ordhash_remove two_keys 7).1 ≡ is_some (vde_ordhash_lookup two_keys 7))
vde_ordhash_remove-Repr_example = vde_ordhash_remove-Repr two_keys two_pairs 7 two_keys-Repr
