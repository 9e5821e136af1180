-- ===== src/Context/Fini/Laws.antt =====
-- vde_context_fini finishes the connection managers first, then the other components, each once.
use vde.Base.{
  ℕ, zero, suc, ◌<◌, ◌≡◌, refl, ap, ◌∙◌, Bool, false, Option, none, some, List, [], ◌∷◌, ◌==◌,
  if◌then◌else◌, length, arith, Option-cases, Bool-cases, inl, inr, All,
}
use vde.Glib.{Glib}
use vde.OrdHash.{
  OrdHash, Entry, vde_ordhash_first, vde_ordhash_next, vde_ordhash_lookup, vde_ordhash_entry_lookup,
}
use vde.OrdHash.Repr.{keys}
use vde.Component.{Component, ComponentOps, Kind}
use vde.Context.{World, Context, Plugin, store}
use vde.Context.Life.{vde_component_fini, fini_of, run_module_fini, mark}
use vde.Context.Fini.{fini_if, fini_round, fini_loop}

module _ ⦃g : Glib⦄ where
  -- What of a component does not change while a context ends.
  abbrev pub face_of : Option Component → Option (Kind × Option ComponentOps)
  face_of none = none
  face_of (some c) = some (c.kind, c.cops)

  abbrev pub face : World → ℕ → Option (Kind × Option ComponentOps)
  face w p = face_of (w.heap p)

  -- A component with a `fini` is there.
  pub record CanEnd (w : World) (p : ℕ) : Type 0 where
    pub kind : Kind
    pub ops : Option ComponentOps
    pub f : ℕ
    pub here : face w p ≡ some (kind, ops)
    pub ends : fini_of ops ≡ some f

  -- Contexts, kinds and functions of components are the same.
  pub record Same (w w' : World) : Type 0 where
    pub ctx : w'.ctx ≡ w.ctx
    pub faces : (p : ℕ) → face w' p ≡ face w p

  pub Same-refl : (w : World) → Same w w
  Same-refl w = record { ctx = refl; faces = λ p. refl }

  Same-trans : (w v u : World) → Same w v → Same v u → Same w u
  Same-trans w v u a b = record { ctx = b.ctx ∙ a.ctx; faces = λ p. b.faces p ∙ a.faces p }

  CanEnd-Same : (w w' : World) (p : ℕ) → Same w w' → CanEnd w p → CanEnd w' p
  CanEnd-Same w w' p same c = record {
    kind = c.kind;
    ops = c.ops;
    f = c.f;
    here = same.faces p ∙ c.here;
    ends = c.ends;
  }

  -- The components that a loop wants, in the order of the table.
  abbrev pub wants : (Kind → Bool) → Option (Kind × Option ComponentOps) → Bool
  wants want none = false
  wants want (some (k, ops)) = want k

  abbrev pub wanted : (Kind → Bool) → World → List (ℕ × ℕ) → List ℕ
  wanted want w [] = []
  wanted want w ((k, p) ∷ xs) =
      if wants want (face w p) then p ∷ wanted want w xs else wanted want w xs

  -- The entry of the table is a component that can end.
  pub record Stands (w : World) (x : ℕ × ℕ) : Type 0 where
    pub known : vde_ordhash_lookup w.ctx.components x.0 ≡ some x.1
    pub can : CanEnd w x.1

  -- The entry at the head of the rest of a list, whose beginning is `b`, nearest first.
  abbrev pub entry : List ℕ → List ℕ → Option Entry
  entry b [] = none
  entry b (k ∷ l) = some (record { before = b; element = k; after = l })

  pub next-entry :
      (b : List ℕ) (k : ℕ) (l : List ℕ)
      → vde_ordhash_next (record { before = b; element = k; after = l }) ≡ entry (k ∷ b) l
  unfolding vde_ordhash_next
  next-entry b k [] = g.next_nil b k
  next-entry b k (j ∷ l) = g.next_cons b k j l

  pub first-entry : (oh : OrdHash ℕ) → vde_ordhash_first oh ≡ entry [] oh.list
  unfolding vde_ordhash_first
  first-entry oh = elim (oh.list) as (λ l. g.list_first l ≡ entry [] l) [
    | [] ↦ g.first_nil ℕ
    | k ∷ l ↦ g.first_cons k l
  ]

  -- The components of a list, finished one after the other.
  unfoldable pub fini_each : {P : Type 0} → Plugin P → World → List ℕ → Option World
  fini_each plugin w [] = some w
  fini_each plugin w (p ∷ ps) = elim (vde_component_fini plugin w p) [
    | none ↦ none
    | some w' ↦ fini_each plugin w' ps
  ]

  module _ {P : Type 0} where
    -- What the context relies on of the `fini` of a module: it leaves the context, and the kinds and
    -- functions of the components, as they are.
    pub record IsGentle (plugin : Plugin P) : Type 0 where
      pub fini_same : (f p : ℕ) (w : World) → Same w (plugin.run_fini f p w)

    module _ (plugin : Plugin P) (gentle : IsGentle plugin) where
      stored :
          (a : ℕ) (v : World) (d : Component) {p : ℕ}
          → v.heap p ≡ some d
          → face (store v p (some (record d { initialized = false }))) a ≡ face v a
      stored a v d {p} there = elim (Bool-cases (p == a)) [
        | inl same ↦ ground (arith, same, there, ap (face v) {x = p} {y = a} (ground (arith, same)))
        | inr other ↦ ground (arith, other)
      ]

      component_fini-Same :
          (w : World) (p : ℕ)
          → CanEnd w p
          → (w' : World) × (vde_component_fini plugin w p ≡ some w') × Same w w'
      unfolding vde_component_fini run_module_fini mark
      component_fini-Same w p can = elim (Option-cases (w.heap p)) [
        | inl lost ↦ absurd (ground (arith, lost, can.here))
        | inr (c, here) ↦
            let v = plugin.run_fini can.f p w in
            let ends : fini_of c.cops ≡ some can.f =
              ap fini_of {x = c.cops} {y = can.ops} (ground (arith, here, can.here)) ∙ can.ends in
            let same = gentle.fini_same can.f p w in
            elim (Option-cases (v.heap p)) [
              | inl gone ↦ absurd (ground (arith, gone, here, same.faces p))
              | inr (d, there) ↦ (
                store v p (some (record d { initialized = false })),
                ground (arith, here, there, ends),
                record { ctx = same.ctx; faces = λ a. stored a v d there ∙ same.faces a },
              )
            ]
      ]

      round-each :
          (want : Kind → Bool) (w0 w : World) (b l : List ℕ) (k p : ℕ) (ps : List ℕ)
          → Same w0 w
          → Stands w0 (k, p)
          → (w' : World) × (fini_round plugin want w (record { before = b; element = k; after = l })
              ≡ some w')
            × (fini_each plugin w (if wants want (face w0 p) then p ∷ ps else ps)
                ≡ fini_each plugin w' ps)
            × Same w0 w'
      unfolding fini_round fini_if fini_each vde_ordhash_entry_lookup vde_ordhash_lookup
      round-each want w0 w b l k p ps same stands =
          let can = CanEnd-Same w0 w p same stands.can in
          let known : g.hash_lookup w.ctx.components.hash k ≡ some p =
            ap (λ (x : Context). g.hash_lookup x.components.hash k) same.ctx ∙ stands.known in
          elim (Option-cases (w.heap p)) [
            | inl lost ↦ absurd (ground (arith, lost, can.here))
            | inr (c, here) ↦ elim (Bool-cases (want c.kind)) [
              | inr unwanted ↦ (
                w,
                ground (arith, known, here, unwanted),
                ground (arith, here, same.faces p, unwanted),
                same,
              )
              | inl is_wanted ↦
                  let (w', ran, after) = component_fini-Same w p can in
                  (
                    w',
                    ground (arith, known, here, is_wanted, ran),
                    ground (arith, here, same.faces p, is_wanted, ran),
                    Same-trans w0 w w' same after,
                  )
            ]
          ]

      pub loop-each :
          (want : Kind → Bool) (fuel : ℕ) (w0 w : World) (b : List ℕ) (xs : List (ℕ × ℕ))
          → Same w0 w
          → All (Stands w0) xs
          → length xs < fuel
          → (w' : World) × (fini_loop plugin want fuel w (entry b (keys xs)) ≡ some w')
            × (fini_each plugin w (wanted want w0 xs) ≡ some w')
            × Same w0 w'
      unfolding fini_loop fini_each
      loop-each want zero w0 w b xs same all h = elim h [ ]
      loop-each want (suc fuel) w0 w b [] same all h = (w, refl, refl, same)
      loop-each want (suc fuel) w0 w b ((k, p) ∷ xs) same (stands, all) h =
          let (v, round, each, kept) =
            round-each want w0 w b (keys xs) k p (wanted want w0 xs) same stands in
          let (w', loop, rest, last) = loop-each want fuel w0 v (k ∷ b) xs kept all (omega arith) in
          (w', rw (round, next-entry b k (keys xs), fini_loop) loop, each ∙ rest, last)
