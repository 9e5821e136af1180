-- ===== src/OrdHash.antt =====
-- vde_ordhash.c: a hash table that remembers the order of insertion. Keys are quarks, values are
-- pointers that are not NULL. `vde_assert` expands to nothing outside debug builds, so what it
-- states is not tested here: it is a premise of the theorems.
pub mod Repr
pub mod Iteration
pub mod Tests
use vde.Base.{ℕ, zero, suc, Bool, Option, none, some, List, [], length}
use vde.Glib.{Glib, Node}

module _ ⦃g : Glib⦄ where
  pub record OrdHash (V : Type 0) : Type 0 where
    pub hash : g.Hash V
    pub list : List ℕ

  -- A vde_ordhash_entry is a node of the list of keys.
  abbrev pub Entry : Type 0
  Entry = Node ℕ

  module _ {V : Type 0} where
    unfoldable pub vde_ordhash_new : OrdHash V
    vde_ordhash_new = record { hash = g.hash_init; list = [] }

    unfoldable pub vde_ordhash_insert : OrdHash V → ℕ → V → OrdHash V
    vde_ordhash_insert oh k v = record {
      hash = g.hash_insert oh.hash k v;
      list = g.list_append oh.list k;
    }

    unfoldable pub vde_ordhash_remove : OrdHash V → ℕ → OrdHash V × Bool
    vde_ordhash_remove oh k =
        let (hash, found) = g.hash_remove oh.hash k in
        (record { hash = hash; list = g.list_remove (λ x. x) oh.list k }, found)

    unfoldable pub vde_ordhash_lookup : OrdHash V → ℕ → Option V
    vde_ordhash_lookup oh k = g.hash_lookup oh.hash k

    unfoldable pub vde_ordhash_first : OrdHash V → Option Entry
    vde_ordhash_first oh = g.list_first oh.list

    pub vde_ordhash_last : OrdHash V → Option Entry
    vde_ordhash_last oh = g.list_last oh.list

    -- `none` where the asserted value is missing.
    unfoldable pub vde_ordhash_entry_lookup : OrdHash V → Entry → Option V
    vde_ordhash_entry_lookup oh e = g.hash_lookup oh.hash e.element

    pub vde_ordhash_entry_getkey : OrdHash V → Entry → ℕ
    vde_ordhash_entry_getkey oh e = e.element

    -- The loop takes one round for each key, on fuel.
    pub remove_all_loop : ℕ → OrdHash V → OrdHash V
    remove_all_loop zero oh = oh
    remove_all_loop (suc fuel) oh = elim (g.list_first oh.list) [
      | none ↦ oh
      | some head ↦ remove_all_loop fuel (vde_ordhash_remove oh head.element).0
    ]

    pub vde_ordhash_remove_all : OrdHash V → OrdHash V
    unfolding remove_all_loop
    vde_ordhash_remove_all oh = remove_all_loop (suc (length oh.list)) oh

  unfoldable pub vde_ordhash_next : Entry → Option Entry
  vde_ordhash_next e = g.list_next e

  pub vde_ordhash_prev : Entry → Option Entry
  vde_ordhash_prev e = g.list_prev e
