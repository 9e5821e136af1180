-- ===== src/Ctrl/Subscribe/Ending.antt =====
-- engine_ctrl.c: when a connection of the control engine ends, no signal that it subscribed to calls it.
use vde.Context.Life.{vde_context_get_component}
use vde.Ctrl.Paths.{check_split_path}
use vde.Ctrl.Subscribe.{Registration, detach_path, detach_all}
use vde.Base.{
  List, [], ◌∷◌, All, sym, Errno, ◌⊎◌, inl, inr, refl, is_some, true, ℕ, ◌≡◌, ap, ◌∙◌, subst, false,
  some, CString, arith, Option-cases,
}
use vde.Glib.{Glib}
use vde.Context.{World}
use vde.Ctrl.Subscribe.{Subscriber}
use vde.Ctrl.Subscribe.Detached.{signal_at, calls, AllValid, world-Detached}

split_cases :
    (x : Errno ⊎ (CString × CString))
    → ((e : Errno) × (x ≡ inl e)) ⊎ ((p : CString × CString) × (x ≡ inr p))
split_cases (inl e) = inl (e, refl)
split_cases (inr p) = inr (p, refl)

module _ ⦃g : Glib⦄ where
  module _ (cc : Subscriber) where
    -- The names that the context knows are of components that are there.
    abbrev pub IsLive : World → Type 0
    IsLive w =
        (name : CString) (p : ℕ)
        → vde_context_get_component w name ≡ some p
        → is_some (w.heap p) ≡ true

    -- No signal calls the connection that did not, and the rest that matters is the same.
    pub record Fewer (w w' : World) : Type 0 where
      pub ctx : w'.ctx ≡ w.ctx
      pub quarks : w'.quarks ≡ w.quarks
      pub valid : AllValid w'
      pub fewer :
          (a j : ℕ)
          → calls cc (signal_at (w.heap a) j) ≡ false
          → calls cc (signal_at (w'.heap a) j) ≡ false
      pub alive : (a : ℕ) → is_some (w'.heap a) ≡ is_some (w.heap a)

    -- The signal at the end of a path whose names find memory, as `w` knows it, does not call the connection
    -- in `w'`.
    abbrev pub Silent : World → World → Registration → Type 0
    Silent w w' r =
        (name n : CString) (p : ℕ)
        → check_split_path (cc.name_alloc r.path) (cc.path_alloc r.path) r.path ≡ inr (name, n)
        → vde_context_get_component w name ≡ some p
        → calls cc (signal_at (w'.heap p) (g.quark_try_string w.quarks n)) ≡ false

    Fewer-refl : (w : World) → AllValid w → Fewer w w
    Fewer-refl w v = record {
      ctx = refl;
      quarks = refl;
      valid = v;
      fewer = λ a j h. h;
      alive = λ a. refl;
    }

    same_get :
        (w w' : World) (name : CString)
        → Fewer w w'
        → vde_context_get_component w' name ≡ vde_context_get_component w name
    unfolding vde_context_get_component
    same_get w w' name f = λ i.
        vde_context_get_component (record { quarks = f.quarks i; heap = w'.heap; ctx = f.ctx i })
          name

    IsLive-Fewer : (w w' : World) → Fewer w w' → IsLive w → IsLive w'
    IsLive-Fewer w w' f live name p e = f.alive p ∙ live name p (sym (same_get w w' name f) ∙ e)

    All-Silent :
        (w w1 w' : World)
        → Fewer w w1
        → (rs : List Registration) → All (Silent w1 w') rs
        → All (Silent w w') rs
    All-Silent w w1 w' f [] silent = tt
    All-Silent w w1 w' f (r ∷ rs) (head, silent) = (
      λ name n p splits finds.
          subst
            (λ (q : g.Quarks). calls cc (signal_at (w'.heap p) (g.quark_try_string q n)) ≡ false)
            f.quarks (head name n p splits (same_get w w1 name f ∙ finds)),
      All-Silent w w1 w' f rs silent,
    )

    path-Silent :
        (w : World) (r : Registration)
        → IsLive w
        → AllValid w
        → (w' : World) × (detach_path cc w r.path ≡ some w') × Fewer w w' × Silent w w' r
    unfolding detach_path
    path-Silent w r live valid =
        elim (split_cases (check_split_path (cc.name_alloc r.path) (cc.path_alloc r.path) r.path)) [
          | inl (e, bad) ↦ (
            w,
            ground (arith, bad),
            Fewer-refl w valid,
            λ name n p splits finds. absurd (ground (arith, bad, splits)),
          )
          | inr ((name, n), good) ↦ elim (Option-cases (vde_context_get_component w name)) [
            | inl unknown ↦ (
              w,
              ground (arith, good, unknown),
              Fewer-refl w valid,
              λ name' n' p splits finds. absurd (
                  ground (
                    arith,
                    good,
                    splits,
                    ap (vde_context_get_component w) {x = name} {y = name'}
                        (ground (arith, good, splits)),
                    unknown,
                    finds,
                  )),
            )
            | inr (p, known) ↦
                let (w', st, ran, d) = world-Detached cc w p n valid (live name p known) in
                (
                  w',
                  ground (arith, good, known, ran),
                  record {
                    ctx = d.ctx;
                    quarks = d.quarks;
                    valid = d.valid;
                    fewer = λ a j h. ground (arith, d.calls_left a j, h);
                    alive = d.alive;
                  },
                  λ name' n' p' splits finds. ground (
                    arith,
                    d.calls_left p' (g.quark_try_string w.quarks n'),
                    ap (g.quark_try_string w.quarks) {x = n} {y = n'}
                        (ground (arith, good, splits)),
                    ap (vde_context_get_component w) {x = name} {y = name'}
                        (ground (arith, good, splits)),
                    known,
                    finds,
                  ),
                )
          ]
        ]

    -- The loop over the registered paths runs to its end. Then no signal of a registered path, for whose names
    -- there is memory, has a callback
    -- of the connection, which is freed, and no signal has one that had none before. It is assumed that
    -- the signals are valid and that the components that names find are there.
    pub detach_all-Silent :
        (w : World) (rs : List Registration)
        → IsLive w
        → AllValid w
        → (w' : World) × (detach_all cc w rs ≡ some w') × Fewer w w' × All (Silent w w') rs
    unfolding detach_all
    detach_all-Silent w [] live valid = (w, refl, Fewer-refl w valid, tt)
    detach_all-Silent w (r ∷ rs) live valid =
        let (w1, ran1, f1, silent1) = path-Silent w r live valid in
        let (w', ran, f, silent) = detach_all-Silent w1 rs (IsLive-Fewer w w1 f1 live) f1.valid in
        (
          w',
          ground (arith, ran1, ran),
          record {
            ctx = f.ctx ∙ f1.ctx;
            quarks = f.quarks ∙ f1.quarks;
            valid = f.valid;
            fewer = λ a j h. f.fewer a j (f1.fewer a j h);
            alive = λ a. f.alive a ∙ f1.alive a;
          },
          (
            λ name n p splits finds.
                f.fewer p (g.quark_try_string w.quarks n) (silent1 name n p splits finds),
            All-Silent w w1 w' f1 rs silent,
          ),
        )
