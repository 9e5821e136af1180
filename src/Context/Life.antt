-- ===== src/Context/Life.antt =====
-- The life of a component in a context: its creation, lookup and deletion.
pub mod Laws
pub mod Valid
pub mod Create
pub mod Delete
use vde.Base.{
  ℕ, Bool, true, false, Option, none, some, ◌==◌, if◌then◌else◌, CString, Status, done, fail,
  einval, eexist, enoent, enomem, ebusy, is_some,
}
use vde.Glib.{Glib}
use vde.OrdHash.{vde_ordhash_insert, vde_ordhash_remove, vde_ordhash_lookup}
use vde.Component.{
  Component, Module, ComponentOps, Kind, engine, transport, connection_manager, vde_component_get,
  vde_component_put_if_last,
}
use vde.Context.{Context, World, Plugin, store, zeroed}
use vde.Context.Modules.{vde_context_lookup_module}

unfoldable pub init_of : Option ComponentOps → Option ℕ
init_of none = none
init_of (some ops) = ops.init

unfoldable pub fini_of : Option ComponentOps → Option ℕ
fini_of none = none
fini_of (some ops) = ops.fini

module _ ⦃g : Glib⦄ where
  -- vde_component_init up to the call of the module; `self` is the address of the context.
  pub set_module : Component → ℕ → ℕ → Module → Kind → Component
  set_module c self qname m connection_manager = record c {
    ctx = some self;
    qname = qname;
    kind = m.kind;
    family = m.family;
    cops = m.cops;
    cm_connect = m.cm_connect;
    cm_listen = m.cm_listen;
    commands = g.hash_init;
    signals = g.hash_init;
  }
  set_module c self qname m engine = record c {
    ctx = some self;
    qname = qname;
    kind = m.kind;
    family = m.family;
    cops = m.cops;
    eng_new_conn = m.eng_new_conn;
    commands = g.hash_init;
    signals = g.hash_init;
  }
  set_module c self qname m transport = record c {
    ctx = some self;
    qname = qname;
    kind = m.kind;
    family = m.family;
    cops = m.cops;
    tr_connect = m.tr_connect;
    tr_listen = m.tr_listen;
    commands = g.hash_init;
    signals = g.hash_init;
  }

  unfoldable pub mark : World → ℕ → Bool → Option World
  mark w p b = elim (w.heap p) [
    | none ↦ none
    | some c ↦ some (store w p (some (record c { initialized = b })))
  ]

  module _ {P : Type 0} (plugin : Plugin P) where
    run_module_init : World → ℕ → Option P → Option ℕ → Option (World × Status)
    unfolding mark
    run_module_init w p params none = none
    run_module_init w p params (some f) =
        let (w', st) = plugin.run_init f p params w in
        elim st [
          | fail e ↦ some (w', fail e)
          | done ↦ elim (mark w' p true) [ none ↦ none | some v ↦ some (v, done) ]
        ]

    pub vde_component_init : World → ℕ → ℕ → Module → Option P → Option (World × Status)
    unfolding run_module_init set_module init_of
    vde_component_init w p qname m params = elim (w.heap p) [
      | none ↦ none
      | some c ↦
          run_module_init (store w p (some (set_module c w.ctx.self qname m m.kind))) p params
            (init_of m.cops)
    ]

    unfoldable pub run_module_fini : World → ℕ → Option ℕ → Option World
    unfolding mark
    run_module_fini w p none = none
    run_module_fini w p (some f) = mark (plugin.run_fini f p w) p false

    unfoldable pub vde_component_fini : World → ℕ → Option World
    unfolding run_module_fini fini_of
    vde_component_fini w p = elim (w.heap p) [
      | none ↦ none
      | some c ↦ run_module_fini w p (fini_of c.cops)
    ]

  unfoldable pub vde_component_delete : World → ℕ → World
  vde_component_delete w p = store w p none

  -- The address of the component, none with EINVAL where the context is not initialized.
  unfoldable pub vde_context_get_component : World → CString → Option ℕ
  vde_context_get_component w name =
      if w.ctx.initialized == 1
      then vde_ordhash_lookup w.ctx.components (g.quark_try_string w.quarks name)
      else none

  module _ {P : Type 0} (plugin : Plugin P) where
    -- The end of vde_context_new_component: the component is known by its name, and holds one
    -- reference more.
    pub add_component : World → ℕ → ℕ → Option World
    add_component w p qname = elim (w.heap p) [
      | none ↦ none
      | some c ↦ some (record w {
        heap = (store w p (some (vde_component_get c).0)).heap;
        ctx = record w.ctx { components = vde_ordhash_insert w.ctx.components qname p };
      })
    ]

    -- vde_context_new_component from the allocation on. *component, which is returned, keeps the address of what
    -- is deleted when init fails.
    pub create : Option ℕ → World → Module → CString → Option P → Option (World × Option ℕ × Status)
    unfolding add_component vde_component_delete
    create none w m name params = some (w, none, fail enomem)
    create (some p) w m name params =
        let (qname, q') = g.quark_from_string w.quarks name in
        let w' : World = store (record w { quarks = q' }) p (some zeroed) in
        elim (vde_component_init plugin w' p qname m params) [
          | none ↦ none
          | some (w2, st) ↦ elim st [
            | fail e ↦ some (vde_component_delete w2 p, some p, fail e)
            | done ↦ elim (add_component w2 p qname) [
              | none ↦ none
              | some w3 ↦ some (w3, some p, done)
            ]
          ]
        ]

    -- `new` is what vde_calloc returns. The result has the address of the new component.
    pub vde_context_new_component :
        Option ℕ → World → Kind → CString → CString → Option P → Option (World × Option ℕ × Status)
    vde_context_new_component new w kind family name params =
        if w.ctx.initialized == 1
        then elim (vde_context_get_component w name) [
          | some p ↦ some (w, none, fail eexist)
          | none ↦
              let (q', found) = vde_context_lookup_module w.quarks w.ctx kind family in
              let w' : World = record w { quarks = q' } in
              elim found [
                | none ↦ some (w', none, fail enoent)
                | some m ↦ create new w' m name params
              ]
        ]
        else some (w, none, fail einval)

    -- vde_context_component_del once the component is known to be in use by the context alone.
    pub destroy : World → ℕ → ℕ → Option World
    unfolding vde_component_delete
    destroy w p qname =
        let w' : World = record w {
          ctx = record w.ctx { components = (vde_ordhash_remove w.ctx.components qname).0 };
        } in
        elim (vde_component_fini plugin w' p) [
          | none ↦ none
          | some w2 ↦ some (vde_component_delete w2 p)
        ]

    pub del_at : World → ℕ → Component → Option (World × Status)
    del_at w p c =
        if is_some (vde_ordhash_lookup w.ctx.components c.qname)
        then (let (c', last) = vde_component_put_if_last c in
            if last
            then elim (destroy (store w p (some c')) p c.qname) [
              | none ↦ none
              | some w' ↦ some (w', done)
            ]
            else some (w, fail ebusy))
        else some (w, fail enoent)

    pub vde_context_component_del : World → Option ℕ → Option (World × Status)
    vde_context_component_del w none = some (w, fail einval)
    vde_context_component_del w (some p) =
        if w.ctx.initialized == 1
        then elim (w.heap p) [ none ↦ none | some c ↦ del_at w p c ]
        else some (w, fail einval)
