-- ===== src/Ctrl/Subscribe/Detached.antt =====
-- engine_ctrl.c: what vde_component_signal_detach leaves of the callbacks of a connection of the control
-- engine, in the signals of a component and in those of the whole program.
use vde.Base.{
  inl, inr, refl, is_some, true, ◌&&◌, Status, ℕ, ◌≡◌, ap, ◌∙◌, subst, Bool, false, Option, none,
  some, ◌==◌, if◌then◌else◌, CString, arith, Option-cases, Bool-cases,
}
use vde.Glib.{Glib}
use vde.Signal.{Signal, vde_signal_detach}
use vde.Signal.Registered.{registered, vde_signal_detach_lem}
use vde.Signal.Registered
use vde.Component.{Component}
use vde.Component.Signals.{vde_component_signal_detach}
use vde.Context.{World, store}
use vde.Ctrl.Subscribe.{change, Subscriber}

module _ ⦃g : Glib⦄ where
  abbrev pub signal_at : Option Component → ℕ → Option Signal
  signal_at none k = none
  signal_at (some c) k = g.hash_lookup c.signals k

  -- The signal has the callback of the connection.
  abbrev pub calls : Subscriber → Option Signal → Bool
  calls cc none = false
  calls cc (some sig) = registered sig.callbacks cc.callback cc.destroy cc.self

  abbrev pub ValidAt : Option Signal → Type 0
  ValidAt none = Unit
  ValidAt (some sig) = Registered.IsValid sig

  -- Every signal of every component is valid.
  abbrev pub AllValid : World → Type 0
  AllValid w = (a k : ℕ) → ValidAt (signal_at (w.heap a) k)

  module _ (cc : Subscriber) where
    component-calls :
        (q : g.Quarks) (c : Component) (n : CString) (j : ℕ)
        → ((k : ℕ) → ValidAt (g.hash_lookup c.signals k))
        → let c' = (vde_component_signal_detach q c n cc.callback cc.destroy cc.self).0 in
          ValidAt (g.hash_lookup c'.signals j)
          × (calls cc (g.hash_lookup c'.signals j) ≡ (
              if g.quark_try_string q n == j then false else calls cc (g.hash_lookup c.signals j)))
    unfolding vde_component_signal_detach
    component-calls q c n j valid =
        let k = g.quark_try_string q n in
        elim (Option-cases (g.hash_lookup c.signals k)) [
          | inl missing ↦
              rw (missing, vde_component_signal_detach)
                (
                  valid j,
                  elim (Bool-cases (k == j)) [
                    | inl same ↦ ground (
                      arith,
                      same,
                      missing,
                      ap (g.hash_lookup c.signals) {x = k} {y = j} (ground (arith, same)),
                    )
                    | inr other ↦ ground (arith, other)
                  ],
                )
          | inr (sig, found) ↦
              let sig' = (vde_signal_detach sig cc.callback cc.destroy cc.self).0 in
              let (still, answer, after) =
                vde_signal_detach_lem sig cc.callback cc.destroy cc.self
                  (subst ValidAt found (valid k)) in
              elim (Bool-cases (k == j)) [
                | inl same ↦
                    let new : g.hash_lookup (g.hash_insert c.signals k sig') j ≡ some sig' =
                      g.lookup_insert c.signals k sig' j ∙ ground (arith, same) in
                    rw (found, vde_component_signal_detach)
                      (rw new (still, ground (arith, same, after cc.callback cc.destroy cc.self)))
                | inr other ↦
                    let old : g.hash_lookup (g.hash_insert c.signals k sig') j
                        ≡ g.hash_lookup c.signals j =
                      g.lookup_insert c.signals k sig' j ∙ ground (arith, other) in
                    rw (found, vde_component_signal_detach)
                      (rw old (valid j, ground (arith, other)))
              ]
        ]

    -- One signal does not call the connection any more, and no other calls it that did not.
    pub record Detached (w w' : World) (p k : ℕ) : Type 0 where
      pub ctx : w'.ctx ≡ w.ctx
      pub quarks : w'.quarks ≡ w.quarks
      pub valid : AllValid w'
      pub calls_left :
          (a j : ℕ)
          → calls cc (signal_at (w'.heap a) j)
            ≡ (if (p == a) && (k == j) then false else calls cc (signal_at (w.heap a) j))
      pub alive : (a : ℕ) → is_some (w'.heap a) ≡ is_some (w.heap a)

    pub world-Detached :
        (w : World) (p : ℕ) (n : CString)
        → AllValid w
        → is_some (w.heap p) ≡ true
        → (w' : World) × (st : Status) × (change w p
              (λ c. vde_component_signal_detach w.quarks c n cc.callback cc.destroy cc.self)
            ≡ some (w', st))
          × Detached w w' p (g.quark_try_string w.quarks n)
    world-Detached w p n valid there = elim (Option-cases (w.heap p)) [
      | inl lost ↦ absurd (ground (arith, lost, there))
      | inr (c, here) ↦
          let k = g.quark_try_string w.quarks n in
          let r = vde_component_signal_detach w.quarks c n cc.callback cc.destroy cc.self in
          let w' = store w p (some r.0) in
          let one = λ (j : ℕ).
            component-calls w.quarks c n j
              (λ i. subst (λ (o : Option Component). ValidAt (signal_at o i)) here (valid p i)) in
          (
            w',
            r.1,
            ground (arith, here),
            record {
              ctx = refl;
              quarks = refl;
              valid = λ a j. elim (Bool-cases (p == a)) [
                | inl same ↦ rw same ((one j).0)
                | inr other ↦ rw other (valid a j)
              ];
              calls_left = λ a j. elim (Bool-cases (p == a)) [
                | inl same ↦
                    let moved : w.heap a ≡ some c =
                      ap w.heap {x = a} {y = p} (ground (arith, same)) ∙ here in
                    rw (same, moved) ((one j).1)
                | inr other ↦ ground (arith, other)
              ];
              alive = λ a. elim (Bool-cases (p == a)) [
                | inl same ↦
                    ground (arith, same, here, ap w.heap {x = p} {y = a} (ground (arith, same)))
                | inr other ↦ ground (arith, other)
              ];
            },
          )
    ]
