-- ===== src/OrdHash/Iteration.antt =====
-- The iterator of an ordered hash, walked from either end.
use vde.Base.{
  true, ℕ, zero, suc, ◌+◌, ◌<◌, ◌≡◌, refl, ap, ◌∙◌, Option, none, some, List, [], ◌∷◌, ◌++◌, arith,
  length, rev_append, map, Distinct, length-append, mem,
}
use vde.Glib.{Glib}
use vde.OrdHash.{
  OrdHash, Entry, vde_ordhash_first, vde_ordhash_last, vde_ordhash_next, vde_ordhash_prev,
  vde_ordhash_entry_lookup, vde_ordhash_entry_getkey,
}
use vde.OrdHash.Repr.{Repr, keys, length-keys, value_of}

module _ ⦃g : Glib⦄ {B : Type 0} where
  -- `for (e = start; e; e = step(e))`, collecting what the body reads; the fuel bounds the rounds.
  abbrev pub walk : (Entry → Option Entry) → (Entry → B) → ℕ → Option Entry → List B
  walk step body zero e = []
  walk step body (suc fuel) none = []
  walk step body (suc fuel) (some e) = body e ∷ walk step body fuel (step e)

  walk-none :
      (step : Entry → Option Entry) (body : Entry → B) (fuel : ℕ) → walk step body fuel none ≡ []
  walk-none step body zero = refl
  walk-none step body (suc fuel) = refl

  walk_next :
      (body : ℕ → B) (fuel : ℕ) (b : List ℕ) (k : ℕ) (l : List ℕ)
      → length l < fuel
      → walk vde_ordhash_next
          (λ e. body e.element)
          fuel
          (some (record { before = b; element = k; after = l }))
        ≡ body k ∷ map body l
  unfolding vde_ordhash_next
  walk_next body zero b k l h = elim h [ ]
  walk_next body (suc fuel) b k [] h =
      rw (g.next_nil b k) (ap (◌∷◌ (body k)) (walk-none g.list_next (λ e. body e.element) fuel))
  walk_next body (suc fuel) b k (j ∷ l) h =
      rw (g.next_cons b k j l) (ap (◌∷◌ (body k)) (walk_next body fuel (k ∷ b) j l (omega arith)))

  walk_prev :
      (body : ℕ → B) (fuel : ℕ) (b : List ℕ) (k : ℕ) (l : List ℕ)
      → length b < fuel
      → walk vde_ordhash_prev
          (λ e. body e.element)
          fuel
          (some (record { before = b; element = k; after = l }))
        ≡ body k ∷ map body b
  unfolding vde_ordhash_prev
  walk_prev body zero b k l h = elim h [ ]
  walk_prev body (suc fuel) [] k l h =
      rw (g.prev_nil k l) (ap (◌∷◌ (body k)) (walk-none g.list_prev (λ e. body e.element) fuel))
  walk_prev body (suc fuel) (j ∷ b) k l h =
      rw (g.prev_cons b k j l) (ap (◌∷◌ (body k)) (walk_prev body fuel b j (k ∷ l) (omega arith)))

-- A list is empty or ends in an element.
data Ends {A : Type 0} : List A → Type 0 where
  empty : Ends []
  ends : (l : List A) (x : A) → Ends (l ++ (x ∷ []))

Ends-cons : {A : Type 0} (x : A) {l : List A} → Ends l → Ends (x ∷ l)
Ends-cons x empty = ends [] x
Ends-cons x (ends l y) = ends (x ∷ l) y

Ends-all : {A : Type 0} (l : List A) → Ends l
Ends-all [] = empty
Ends-all (x ∷ l) = Ends-cons x (Ends-all l)

module _ {A : Type 0} where
  rev_append-snoc :
      (l : List A) (x : A) (r : List A) → rev_append (l ++ (x ∷ [])) r ≡ x ∷ rev_append l r
  rev_append-snoc [] x r = refl
  rev_append-snoc (y ∷ l) x r = rev_append-snoc l x (y ∷ r)

  length-rev_append : (l r : List A) → length (rev_append l r) ≡ length l + length r
  length-rev_append [] r = omega arith
  length-rev_append (x ∷ l) r = omega (arith, length-rev_append l (x ∷ r))

  map-rev_append :
      {B : Type 0} (f : A → B) (l r : List A)
      → map f (rev_append l r) ≡ rev_append (map f l) (map f r)
  map-rev_append f [] r = refl
  map-rev_append f (x ∷ l) r = map-rev_append f l (x ∷ r)

-- Each key with the value that a lookup of it finds.
abbrev pub pairs : {V : Type 0} → List (ℕ × V) → List (ℕ × Option V)
pairs [] = []
pairs ((k, v) ∷ xs) = (k, some v) ∷ pairs xs

pairs-keys :
    {V : Type 0} (f : ℕ → Option V) (xs : List (ℕ × V))
    → Distinct (keys xs)
    → ((j : ℕ) → mem j (keys xs) ≡ true → f j ≡ value_of xs j)
    → map (λ k. (k, f k)) (keys xs) ≡ pairs xs
pairs-keys f [] d h = refl
pairs-keys f ((k, v) ∷ xs) d h =
    let head : f k ≡ some v = ground (arith, h k) in
    let rest = pairs-keys f xs d.1 (λ j m. ground (arith, h j)) in rw (head, rest)

module _ ⦃g : Glib⦄ {V : Type 0} where
  -- What a loop over the entries reads of each.
  abbrev pub read_entry : OrdHash V → Entry → ℕ × Option V
  unfolding vde_ordhash_entry_lookup vde_ordhash_entry_getkey
  read_entry oh e = (vde_ordhash_entry_getkey oh e, vde_ordhash_entry_lookup oh e)

  forward_list :
      (l : List ℕ) (body : ℕ → ℕ × Option V) (fuel : ℕ)
      → length l < fuel
      → walk vde_ordhash_next (λ e. body e.element) fuel (g.list_first l) ≡ map body l
  forward_list [] body zero h = elim h [ ]
  forward_list [] body (suc fuel) h = rw (g.first_nil ℕ)
  forward_list (k ∷ l) body fuel h =
      rw (g.first_cons k l) (walk_next body fuel [] k l (omega arith))

  backward_list :
      {l : List ℕ} (body : ℕ → ℕ × Option V) (fuel : ℕ)
      → Ends l
      → length l < fuel
      → walk vde_ordhash_prev (λ e. body e.element) fuel (g.list_last l)
        ≡ map body (rev_append l [])
  backward_list body zero empty h = elim h [ ]
  backward_list body (suc fuel) empty h = rw (g.last_nil ℕ)
  backward_list body fuel (ends l k) h =
      rw (g.last_snoc l k, rev_append-snoc l k [])
        (walk_prev body fuel (rev_append l []) k []
          (omega (arith, length-append l (k ∷ []), length-rev_append l [])))

  -- The loop from the first entry by `next` visits every pair once, the oldest first, and ends.
  pub walk-first :
      (oh : OrdHash V) (xs : List (ℕ × V)) (fuel : ℕ)
      → Repr oh xs
      → length xs < fuel
      → walk vde_ordhash_next (read_entry oh) fuel (vde_ordhash_first oh) ≡ pairs xs
  unfolding vde_ordhash_first read_entry
  walk-first oh xs fuel r h =
      forward_list oh.list (λ k. (k, g.hash_lookup oh.hash k)) fuel
        (rw (r.order) (omega (arith, length-keys xs)))
      ∙ rw (r.order) (pairs-keys (g.hash_lookup oh.hash) xs r.distinct (λ j m. r.values j))

  -- The loop from the last entry by `prev` visits every pair once, the youngest first, and ends.
  pub walk-last :
      (oh : OrdHash V) (xs : List (ℕ × V)) (fuel : ℕ)
      → Repr oh xs
      → length xs < fuel
      → walk vde_ordhash_prev (read_entry oh) fuel (vde_ordhash_last oh) ≡ rev_append (pairs xs) []
  unfolding vde_ordhash_last read_entry
  walk-last oh xs fuel r h =
      backward_list (λ k. (k, g.hash_lookup oh.hash k)) fuel (Ends-all oh.list)
        (rw (r.order) (omega (arith, length-keys xs)))
      ∙ (map-rev_append (λ k. (k, g.hash_lookup oh.hash k)) oh.list []
          ∙ rw (r.order) (
              ap (λ l. rev_append l [])
                (pairs-keys (g.hash_lookup oh.hash) xs r.distinct (λ j m. r.values j))))
