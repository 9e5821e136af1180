-- ===== src/Context/Modules.antt =====
-- The modules of a context: vde_context_lookup_module and vde_context_register_module of context.c.
pub mod Laws
pub mod Load
use vde.Base.{
  ℕ, Bool, true, false, Option, none, some, List, [], ◌∷◌, ◌&&◌, ◌||◌, not, ◌==◌, if◌then◌else◌,
  CString, Status, done, fail, eexist, einval, is_some,
}
use vde.Glib.{Glib}
use vde.Component.{Module, Kind, engine, transport, connection_manager, ComponentOps}
use vde.Context.{Context, World}

unfoldable pub same_kind : Kind → Kind → Bool
same_kind engine engine = true
same_kind transport transport = true
same_kind connection_manager connection_manager = true
same_kind _ _ = false

-- The switch of vde_context_register_module: the functions of the module's kind are there.
unfoldable pub kind_ops_present : Module → Kind → Bool
kind_ops_present m connection_manager = is_some m.cm_connect && is_some m.cm_listen
kind_ops_present m engine = is_some m.eng_new_conn
kind_ops_present m transport = is_some m.tr_connect && is_some m.tr_listen

unfoldable pub cops_present : Option ComponentOps → Bool
cops_present none = false
cops_present (some ops) = is_some ops.init && is_some ops.fini

module _ ⦃g : Glib⦄ where
  -- The loop compares quarks, and interns the family of each module it looks at.
  pub lookup_loop : g.Quarks → ℕ → Kind → List Module → g.Quarks × Option Module
  lookup_loop q comp_family kind [] = (q, none)
  lookup_loop q comp_family kind (m ∷ ms) =
      let (module_family, q') = g.quark_from_string q m.family in
      let rest = lookup_loop q' comp_family kind ms in
      if same_kind kind m.kind && (comp_family == module_family) then (q', some m) else rest

  pub vde_context_lookup_module : g.Quarks → Context → Kind → CString → g.Quarks × Option Module
  unfolding lookup_loop
  vde_context_lookup_module q ctx kind family =
      let (comp_family, q') = g.quark_from_string q family in
      lookup_loop q' comp_family kind ctx.modules

  pub vde_context_register_module : World → Module → World × Status
  vde_context_register_module w m =
      let (q', found) = vde_context_lookup_module w.quarks w.ctx m.kind m.family in
      let w' : World = record w { quarks = q' } in
      if is_some found
      then (w', fail eexist)
      else if kind_ops_present m m.kind && cops_present m.cops
      then (record w' { ctx = record w.ctx { modules = g.list_prepend w.ctx.modules m } }, done)
      else (w', fail einval)
