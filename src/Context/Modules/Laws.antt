-- ===== src/Context/Modules/Laws.antt =====
-- Which module is found, and which modules a context accepts.
use vde.Base.{
  ℕ, subst, List, true, not, is_some, is_done, Bool-cases, inl, inr, ◌≡◌, ◌≢◌, refl, sym, ◌∙◌,
  Option, none, some, [], ◌∷◌, ◌&&◌, ◌==◌, ◌==s◌, ==s_iff, arith, if◌then◌else◌, CString,
}
use vde.Glib.{Glib}
use vde.Component.{Module, Kind}
use vde.Component.Names.{from_fresh, Grows}
use vde.Context.{Context, World}
use vde.Context.Modules.{
  same_kind, kind_ops_present, cops_present, lookup_loop, vde_context_lookup_module,
  vde_context_register_module,
}

-- The first module of this kind and family.
abbrev pub module_of : List Module → Kind → CString → Option Module
module_of [] kind family = none
module_of (m ∷ ms) kind family =
    if same_kind kind m.kind && (family ==s m.family) then some m else module_of ms kind family

module _ ⦃g : Glib⦄ where
  -- A quark that a string has it keeps, whatever is interned later.
  pub from_keeps :
      (q : g.Quarks) (s t : CString)
      → g.quark_try_string q t ≢ 0
      → g.quark_try_string (g.quark_from_string q s).1 t ≡ g.quark_try_string q t
  from_keeps q s t h = ground (arith, g.try_from q s t, g.from_known q s, ==s_iff s t)

  Grows-lookup_loop :
      (q : g.Quarks) (comp : ℕ) (kind : Kind) (ms : List Module)
      → Grows q (lookup_loop q comp kind ms).0
  unfolding lookup_loop
  Grows-lookup_loop q comp kind [] s h = refl
  Grows-lookup_loop q comp kind (m ∷ ms) s h = ground (
    arith,
    from_keeps q m.family s h,
    Grows-lookup_loop (g.quark_from_string q m.family).1 comp kind ms s,
  )

  pub Grows-lookup_module :
      (q : g.Quarks) (ctx : Context) (kind : Kind) (family : CString)
      → Grows q (vde_context_lookup_module q ctx kind family).0
  unfolding vde_context_lookup_module
  Grows-lookup_module q ctx kind family s h = ground (
    arith,
    from_keeps q family s h,
    Grows-lookup_loop (g.quark_from_string q family).1 (g.quark_from_string q family).0 kind
        ctx.modules s,
  )

  quarks_compare :
      (q : g.Quarks) (s t : CString)
      → g.quark_try_string q s ≢ 0
      → (g.quark_try_string q s == (g.quark_from_string q t).0) ≡ (s ==s t)
  quarks_compare q s t h = ground (arith, from_fresh q t s, g.from_known q t, ==s_iff s t)

  lookup_loop-module_of :
      (q : g.Quarks) (kind : Kind) (family : CString) (ms : List Module)
      → g.quark_try_string q family ≢ 0
      → (lookup_loop q (g.quark_try_string q family) kind ms).1 ≡ module_of ms kind family
  unfolding lookup_loop
  lookup_loop-module_of q kind family [] h = refl
  lookup_loop-module_of q kind family (m ∷ ms) h =
      let keeps = from_keeps q m.family family h in
      let ih =
        lookup_loop-module_of (g.quark_from_string q m.family).1 kind family ms
          (λ e. h (sym keeps ∙ e)) in
      ground (arith, quarks_compare q family m.family h, ih, keeps)

  -- The comparison of quarks finds the first module that has the kind and the family, byte by byte.
  pub lookup_module-module_of :
      (q : g.Quarks) (ctx : Context) (kind : Kind) (family : CString)
      → (vde_context_lookup_module q ctx kind family).1 ≡ module_of ctx.modules kind family
  unfolding vde_context_lookup_module
  lookup_module-module_of q ctx kind family =
      let known : g.quark_try_string (g.quark_from_string q family).1 family
          ≡ (g.quark_from_string q family).0 =
        ground (arith, g.try_from q family family, ==s_iff family family) in
      rw (← known) (
        lookup_loop-module_of (g.quark_from_string q family).1 kind family ctx.modules
          (λ e. g.from_nonzero q family (sym known ∙ e)))

-- A module whose functions are there for its kind, with `init` and `fini`.
abbrev pub IsAcceptable : Module → Type 0
IsAcceptable m = (kind_ops_present m m.kind && cops_present m.cops) ≡ true

-- All modules are acceptable, and no two have the same kind and family.
abbrev pub AreValid : List Module → Type 0
AreValid [] = Unit
AreValid (m ∷ ms) = IsAcceptable m × (module_of ms m.kind m.family ≡ none) × AreValid ms

module _ ⦃g : Glib⦄ where
  -- A module is registered exactly when it is acceptable and no module has its kind and family; it
  -- is then looked at first. A refusal changes no module. The modules stay valid.
  pub vde_context_register_module_lem :
      (w : World) (m : Module)
      → AreValid w.ctx.modules
      → let (w', st) = vde_context_register_module w m in
        AreValid w'.ctx.modules
        × (is_done st ≡ (
            not (is_some (module_of w.ctx.modules m.kind m.family))
            && (kind_ops_present m m.kind && cops_present m.cops)))
        × (w'.ctx.modules ≡ (if is_done st then m ∷ w.ctx.modules else w.ctx.modules))
  unfolding vde_context_register_module
  vde_context_register_module_lem w m v =
      let found = lookup_module-module_of w.quarks w.ctx m.kind m.family in
      elim (Bool-cases (is_some (vde_context_lookup_module w.quarks w.ctx m.kind m.family).1)) [
        | inl e ↦ rw (e, vde_context_register_module) (v, ground (arith, found), refl)
        | inr e ↦ elim (Bool-cases (kind_ops_present m m.kind && cops_present m.cops)) [
          | inl good ↦
              rw (e, good, vde_context_register_module)
                (rw (g.prepend_law w.ctx.modules m)
                  ((good, ground (arith, found), v), ground (arith, found), refl))
          | inr bad ↦ rw (e, bad, vde_context_register_module) (v, ground (arith, found), refl)
        ]
      ]

  -- A module that is found in a valid context is acceptable, so its `init` may be called.
  pub module_of-IsAcceptable :
      (ms : List Module) (kind : Kind) (family : CString) (m : Module)
      → AreValid ms
      → module_of ms kind family ≡ some m
      → IsAcceptable m
  module_of-IsAcceptable [] kind family m v e = cc
  module_of-IsAcceptable (x ∷ ms) kind family m v e =
      elim (Bool-cases (same_kind kind x.kind && (family ==s x.family))) [
        | inl hit ↦ subst IsAcceptable (ground (arith, e)) v.0
        | inr miss ↦ module_of-IsAcceptable ms kind family m v.2 (ground (arith, e))
      ]
