-- ===== src/ConnManager/Init/Outcome.antt =====
-- conn_manager.c: conn_manager_init picks the components that its parameters name, on every branch, and
-- conn_manager_fini gives back the references.
use vde.Base.{
  refl, subst, ℕ, ◌≡◌, refl, true, Option, none, some, [], CString, Status, done, fail, arith,
  Option-cases, Bool-cases, inl, inr, is_some,
}
use vde.Sobj.{hash_type, Sobj, string_type}
use vde.Glib.{Glib}
use vde.Component.{Kind, engine, transport, connection_manager}
use vde.Context.{World}
use vde.Context.Modules.{same_kind}
use vde.Context.Life.{vde_context_get_component}
use vde.ConnManager.{ConnManager}
use vde.ConnManager.Init.{
  begin, with_engine, with_transport, with_params, conn_manager_init, Managing, Callbacks, pick,
  pick_remote_auth, transport_key, engine_key,
}
use vde.ConnManager.Init.Laws.{track-Tracked, IsKindAt, Tracked}

module _ ⦃g : Glib⦄ where
  -- Every component that the context knows by a name is there.
  abbrev pub IsLive : World → Type 0
  IsLive w =
      (name : CString) (p : ℕ)
      → vde_context_get_component w name ≡ some p
      → is_some (w.heap p) ≡ true

  module _ ⦃s : Sobj⦄ where
    -- A string of the parameters is the name of a component of the kind.
    pub record Names (w : World) (params : s.Obj) (key : CString) (kind : Kind) (p : ℕ)
        : Type 0 where
      pub object : s.Obj
      pub found : s.hash_lookup params key ≡ some object
      pub is_string : s.is_type object string_type ≡ true
      pub known : vde_context_get_component w (s.get_string object) ≡ some p
      pub at : IsKindAt w p kind

    kind_path : (j k : Kind) → same_kind j k ≡ true → j ≡ k
    unfolding same_kind
    kind_path engine engine h = refl
    kind_path transport transport h = refl
    kind_path connection_manager connection_manager h = refl
    kind_path engine transport h = cc
    kind_path engine connection_manager h = cc
    kind_path transport engine h = cc
    kind_path transport connection_manager h = cc
    kind_path connection_manager engine h = cc
    kind_path connection_manager transport h = cc

    abbrev Picked : World → s.Obj → CString → Kind → Option (Option ℕ) → Type 0
    Picked w params key kind none = ⊥
    Picked w params key kind (some none) = Unit
    Picked w params key kind (some (some p)) = Names w params key kind p

    pick-Picked :
        (w : World) (params : s.Obj) (key : CString) (kind : Kind)
        → IsLive w
        → Picked w params key kind (pick w params key kind)
    unfolding pick
    pick-Picked w params key kind live = elim (Option-cases (s.hash_lookup params key)) [
      | inl missing ↦ rw (missing, pick) tt
      | inr (o, found) ↦ elim (Bool-cases (s.is_type o string_type)) [
        | inr wrong ↦ rw (found, wrong, pick) tt
        | inl is_string ↦ elim (Option-cases (vde_context_get_component w (s.get_string o))) [
          | inl unknown ↦ rw (found, is_string, unknown, pick) tt
          | inr (p, known) ↦ elim (Option-cases (w.heap p)) [
            | inl lost ↦ absurd (ground (arith, lost, live (s.get_string o) p known))
            | inr (c, here) ↦ elim (Bool-cases (same_kind c.kind kind)) [
              | inr other ↦ rw (found, is_string, known, here, other, pick) tt
              | inl same ↦
                  rw (found, is_string, known, here, same, pick)
                    (record {
                      object = o;
                      found = found;
                      is_string = is_string;
                      known = known;
                      at = record { component = c; here = here; is = kind_path c.kind kind same };
                    })
            ]
          ]
        ]
      ]
    ]

    -- What an initialization comes to: it is refused and the program is as it was, or the manager joins
    -- the components that the parameters name, with no pending connection.
    pub record Begun (callbacks : Callbacks) (new : Option ℕ) (w w' : World) (component : ℕ)
        (params : s.Obj) (m : Managing) : Type 0 where
      pub transport_named : Names w params transport_key transport m.manager.transport
      pub engine_named : Names w params engine_key engine m.manager.engine
      pub of : m.manager.component ≡ component
      pub none_pending : m.pending_conns ≡ []
      pub remote_auth : pick_remote_auth params ≡ some m.manager.do_remote_authorization
      pub tracked : Tracked w w' component m.manager callbacks

    abbrev pub Outcome :
        Callbacks
        → Option ℕ
        → World
        → ℕ
        → Option s.Obj
        → Option (World × Option Managing × Status)
        → Type 0
    Outcome callbacks new w component params none = ⊥
    Outcome callbacks new w component params (some (w', m, fail e)) = (w' ≡ w) × (m ≡ none)
    Outcome callbacks new w component none (some (w', m, done)) = ⊥
    Outcome callbacks new w component (some params) (some (w', none, done)) = ⊥
    Outcome callbacks new w component (some params) (some (w', some m, done)) =
        Begun callbacks new w w' component params m

    begin-Outcome :
        (callbacks : Callbacks) (new : Option ℕ) (w : World) (component : ℕ) (params : s.Obj)
        (cm : ConnManager)
        → Names w params transport_key transport cm.transport
        → Names w params engine_key engine cm.engine
        → cm.component ≡ component
        → pick_remote_auth params ≡ some cm.do_remote_authorization
        → is_some (w.heap component) ≡ true
        → Outcome callbacks new w component (some params) (begin callbacks new w component cm)
    unfolding begin
    begin-Outcome callbacks none w component params cm t e of auth there = (refl, refl)
    begin-Outcome callbacks (some new) w component params cm t e of auth there =
        let (w', ran, tracked) = track-Tracked callbacks new w component cm t.at e.at there in
        rw (ran, begin)
          (record {
            transport_named = t;
            engine_named = e;
            of = of;
            none_pending = refl;
            remote_auth = auth;
            tracked = tracked;
          })

    with_engine-Outcome :
        (callbacks : Callbacks) (new : Option ℕ) (w : World) (component : ℕ) (params : s.Obj)
        (t : ℕ) (e : Option ℕ)
        → Names w params transport_key transport t
        → Picked w params engine_key engine (some e)
        → is_some (w.heap component) ≡ true
        → Outcome callbacks new w component
            (some params)
            (with_engine callbacks new w component params t e)
    unfolding with_engine
    with_engine-Outcome callbacks new w component params t none at_t at_e there = (refl, refl)
    with_engine-Outcome callbacks new w component params t (some e) at_t at_e there =
        elim (Option-cases (pick_remote_auth params)) [
          | inl wrong ↦ rw (wrong, with_engine) (refl, refl)
          | inr (auth, known) ↦
              let cm : ConnManager = record {
                transport = t;
                engine = e;
                component = component;
                do_remote_authorization = auth;
              } in
              rw (known, with_engine)
                (begin-Outcome callbacks new w component params cm at_t at_e refl known there)
        ]

    with_transport-Outcome :
        (callbacks : Callbacks) (new : Option ℕ) (w : World) (component : ℕ) (params : s.Obj)
        (t : Option ℕ)
        → IsLive w
        → Picked w params transport_key transport (some t)
        → is_some (w.heap component) ≡ true
        → Outcome callbacks new w component
            (some params)
            (with_transport callbacks new w component params t)
    unfolding with_transport
    with_transport-Outcome callbacks new w component params none live at_t there = (refl, refl)
    with_transport-Outcome callbacks new w component params (some t) live at_t there =
        let picked = pick-Picked w params engine_key engine live in
        elim (Option-cases (pick w params engine_key engine)) [
          | inl lost ↦ absurd (subst (Picked w params engine_key engine) lost picked)
          | inr (e, found) ↦
              rw (found, with_transport)
                (with_engine-Outcome callbacks new w component params t e at_t
                  (subst (Picked w params engine_key engine) found picked) there)
        ]

    with_params-Outcome :
        (callbacks : Callbacks) (new : Option ℕ) (w : World) (component : ℕ) (params : Option s.Obj)
        → IsLive w
        → is_some (w.heap component) ≡ true
        → Outcome callbacks new w component params (with_params callbacks new w component params)
    unfolding with_params
    with_params-Outcome callbacks new w component none live there = (refl, refl)
    with_params-Outcome callbacks new w component (some params) live there =
        elim (Bool-cases (s.is_type params hash_type)) [
          | inr wrong ↦ rw (wrong, with_params) (refl, refl)
          | inl hash ↦
              let picked = pick-Picked w params transport_key transport live in
              elim (Option-cases (pick w params transport_key transport)) [
                | inl lost ↦ absurd (subst (Picked w params transport_key transport) lost picked)
                | inr (t, found) ↦
                    rw (hash, found, with_params)
                      (with_transport-Outcome callbacks new w component params t live
                        (subst (Picked w params transport_key transport) found picked) there)
              ]
        ]

    -- Where the components that names find are there, and the manager's own, initializing it returns. It is
    -- refused and nothing has changed, or the parameters name a transport and an engine: then the manager
    -- joins these two, with no pending connection, each has one reference more and no other component has,
    -- and the transport calls the manager.
    pub conn_manager_init-Outcome :
        (callbacks : Callbacks) (new : Option ℕ) (w : World) (component : ℕ) (params : Option s.Obj)
        → IsLive w
        → is_some (w.heap component) ≡ true
        → Outcome callbacks new w component params
            (conn_manager_init callbacks new w component params)
    unfolding conn_manager_init
    conn_manager_init-Outcome callbacks new w component params live there =
        elim (Option-cases (w.heap component)) [
          | inl lost ↦ absurd (ground (arith, lost, there))
          | inr (c, here) ↦
              rw (here, conn_manager_init)
                (with_params-Outcome callbacks new w component params live there)
        ]
