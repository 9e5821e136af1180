-- ===== src/OrdHash/Repr.antt =====
-- What an ordered hash promises: it stands for a list of keys with their values, oldest first.
use vde.Base.{
  ℕ, zero, suc, ◌-◌, ◌<◌, ◌≡◌, refl, ap, sym, subst, ◌∙◌, length-append, ==_refl, true, false,
  Option, none, some, List, [], ◌∷◌, ◌++◌, arith, ◌==◌, if◌then◌else◌, is_some, length,
  remove_first, mem, Distinct, Distinct-removed,
}
use vde.Glib.{Glib}
use vde.OrdHash.{
  OrdHash, vde_ordhash_new, vde_ordhash_insert, vde_ordhash_remove, vde_ordhash_lookup,
  remove_all_loop, vde_ordhash_remove_all,
}

mem-snoc : (l : List ℕ) (a b : ℕ) → mem a (l ++ (b ∷ [])) ≡ (if b == a then true else mem a l)
mem-snoc [] a b = ground arith
mem-snoc (x ∷ l) a b = ground (arith, mem-snoc l a b)

Distinct-snoc : (l : List ℕ) (k : ℕ) → Distinct l → mem k l ≡ false → Distinct (l ++ (k ∷ []))
Distinct-snoc [] k d h = (refl, tt)
Distinct-snoc (x ∷ l) k d h = (ground (arith, mem-snoc l x k), Distinct-snoc l k d.1 (ground arith))

module _ {V : Type 0} where
  abbrev pub keys : List (ℕ × V) → List ℕ
  keys [] = []
  keys ((k, v) ∷ xs) = k ∷ keys xs

  abbrev pub value_of : List (ℕ × V) → ℕ → Option V
  value_of [] j = none
  value_of ((k, v) ∷ xs) j = if k == j then some v else value_of xs j

  abbrev pub drop_key : List (ℕ × V) → ℕ → List (ℕ × V)
  drop_key [] j = []
  drop_key ((k, v) ∷ xs) j = if k == j then xs else (k, v) ∷ drop_key xs j

  pub length-keys : (xs : List (ℕ × V)) → length (keys xs) ≡ length xs
  length-keys [] = refl
  length-keys (x ∷ xs) = ap suc (length-keys xs)

  keys-append :
      (xs : List (ℕ × V)) (k : ℕ) (v : V) → keys (xs ++ ((k, v) ∷ [])) ≡ keys xs ++ (k ∷ [])
  keys-append [] k v = refl
  keys-append ((i, w) ∷ xs) k v = rw (keys-append xs k v)

  keys-drop_key :
      (xs : List (ℕ × V)) (k : ℕ) → keys (drop_key xs k) ≡ remove_first (λ x. x == k) (keys xs)
  keys-drop_key [] k = refl
  keys-drop_key ((i, w) ∷ xs) k = ground (arith, keys-drop_key xs k)

  pub mem-keys : (xs : List (ℕ × V)) (k : ℕ) → mem k (keys xs) ≡ is_some (value_of xs k)
  mem-keys [] k = refl
  mem-keys ((i, w) ∷ xs) k = ground (arith, mem-keys xs k)

  value_of-append :
      (xs : List (ℕ × V)) (k : ℕ) (v : V) (j : ℕ)
      → value_of xs k ≡ none
      → value_of (xs ++ ((k, v) ∷ [])) j ≡ (if k == j then some v else value_of xs j)
  value_of-append [] k v j h = ground arith
  value_of-append ((i, w) ∷ xs) k v j h = ground (arith, value_of-append xs k v j)

  value_of-drop_key :
      (xs : List (ℕ × V)) (k j : ℕ)
      → Distinct (keys xs)
      → value_of (drop_key xs k) j ≡ (if k == j then none else value_of xs j)
  value_of-drop_key [] k j d = ground arith
  value_of-drop_key ((i, w) ∷ xs) k j d =
      ground (arith, value_of-drop_key xs k j d.1, mem-keys xs j)

  length_pos : (xs : List (ℕ × V)) (k : ℕ) → is_some (value_of xs k) ≡ true → 0 < length xs
  length_pos [] k h = cc
  length_pos (x ∷ xs) k h = omega arith

  length-drop_key :
      (xs : List (ℕ × V)) (k : ℕ)
      → length (drop_key xs k) ≡ (if is_some (value_of xs k) then length xs - 1 else length xs)
  length-drop_key [] k = refl
  length-drop_key ((i, w) ∷ xs) k = ground (arith, length-drop_key xs k, length_pos xs k)

module _ ⦃g : Glib⦄ {V : Type 0} where
  -- The table holds the pairs of `xs`, and the list their keys in order.
  pub record Repr (oh : OrdHash V) (xs : List (ℕ × V)) : Type 0 where
    pub order : oh.list ≡ keys xs
    pub distinct : Distinct (keys xs)
    pub values : (j : ℕ) → g.hash_lookup oh.hash j ≡ value_of xs j
    pub size : g.hash_size oh.hash ≡ length xs

  -- A new ordered hash is empty.
  pub vde_ordhash_new-Repr : Repr vde_ordhash_new []
  unfolding vde_ordhash_new
  vde_ordhash_new-Repr = record {
    order = refl;
    distinct = tt;
    values = λ j. g.lookup_init V j;
    size = g.size_init V;
  }

  -- An insertion under a key that is not present adds the pair as the youngest.
  pub vde_ordhash_insert-Repr :
      (oh : OrdHash V) (xs : List (ℕ × V)) (k : ℕ) (v : V)
      → Repr oh xs
      → vde_ordhash_lookup oh k ≡ none
      → Repr (vde_ordhash_insert oh k v) (xs ++ ((k, v) ∷ []))
  unfolding vde_ordhash_insert vde_ordhash_lookup
  vde_ordhash_insert-Repr oh xs k v r fresh =
      let absent : value_of xs k ≡ none = sym (r.values k) ∙ fresh in
      record {
        order = rw (g.append_law oh.list k, keys-append xs k v, r.order);
        distinct =
            rw (keys-append xs k v)
              (Distinct-snoc (keys xs) k r.distinct (ground (arith, mem-keys xs k)));
        values = λ j.
            ground (arith, g.lookup_insert oh.hash k v j, value_of-append xs k v j, r.values j);
        size = ground (arith, g.size_insert oh.hash k v, r.size, length-append xs ((k, v) ∷ []));
      }

  -- A removal takes the pair of the key out, keeps the order of the others, and reports whether
  -- the key was present.
  pub vde_ordhash_remove-Repr :
      (oh : OrdHash V) (xs : List (ℕ × V)) (k : ℕ)
      → Repr oh xs
      → Repr (vde_ordhash_remove oh k).0 (drop_key xs k)
        × ((vde_ordhash_remove oh k).1 ≡ is_some (vde_ordhash_lookup oh k))
  unfolding vde_ordhash_remove vde_ordhash_lookup
  vde_ordhash_remove-Repr oh xs k r = (
    record {
      order = rw (g.remove_law (λ x. x) oh.list k, keys-drop_key xs k, r.order);
      distinct = rw (keys-drop_key xs k) (Distinct-removed (keys xs) k r.distinct);
      values = λ j.
          g.lookup_remove oh.hash k j
          ∙ ground (arith, r.values j, value_of-drop_key xs k j r.distinct);
      size = ground (arith, g.size_remove oh.hash k, r.size, r.values k, length-drop_key xs k);
    },
    g.remove_found oh.hash k,
  )

  -- A lookup returns the value of the key in the list of pairs.
  pub vde_ordhash_lookup-value_of :
      (oh : OrdHash V) (xs : List (ℕ × V)) (k : ℕ)
      → Repr oh xs
      → vde_ordhash_lookup oh k ≡ value_of xs k
  unfolding vde_ordhash_lookup
  vde_ordhash_lookup-value_of oh xs k r = r.values k

  removed_first :
      (oh : OrdHash V) (k : ℕ) (v : V) (xs : List (ℕ × V))
      → Repr oh ((k, v) ∷ xs)
      → Repr (vde_ordhash_remove oh k).0 xs
  removed_first oh k v xs r =
      let e : drop_key ((k, v) ∷ xs) k ≡ xs = rw (==_refl k) in
      subst (Repr (vde_ordhash_remove oh k).0) e (vde_ordhash_remove-Repr oh ((k, v) ∷ xs) k r).0

  remove_all_loop-Repr :
      (fuel : ℕ) (oh : OrdHash V) (xs : List (ℕ × V))
      → Repr oh xs
      → length xs < fuel
      → Repr (remove_all_loop fuel oh) []
  unfolding remove_all_loop
  remove_all_loop-Repr zero oh xs r h = elim h [ ]
  remove_all_loop-Repr (suc fuel) oh [] r h =
      let e : g.list_first oh.list ≡ none = ap g.list_first r.order ∙ g.first_nil ℕ in
      rw (e, remove_all_loop) r
  remove_all_loop-Repr (suc fuel) oh ((k, v) ∷ xs) r h =
      let e : g.list_first oh.list ≡ some (record { before = []; element = k; after = keys xs }) =
        ap g.list_first r.order ∙ g.first_cons k (keys xs) in
      rw (e, remove_all_loop)
        (remove_all_loop-Repr fuel (vde_ordhash_remove oh k).0 xs (removed_first oh k v xs r)
          (omega arith))

  -- Removing everything leaves an empty ordered hash, which may be deleted.
  pub vde_ordhash_remove_all-Repr :
      (oh : OrdHash V) (xs : List (ℕ × V)) → Repr oh xs → Repr (vde_ordhash_remove_all oh) []
  unfolding vde_ordhash_remove_all
  vde_ordhash_remove_all-Repr oh xs r =
      remove_all_loop-Repr (suc (length oh.list)) oh xs r
        (rw (r.order) (omega (arith, length-keys xs)))
