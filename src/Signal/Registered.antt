-- ===== src/Signal/Registered.antt =====
-- The set of callbacks that a signal has registered, and how each operation changes it.
use vde.Base.{
  ℕ, ◌≡◌, refl, ==_refl, Bool, true, false, not, some, List, [], ◌∷◌, ◌&&◌, ◌||◌, ◌==◌, arith,
  if◌then◌else◌, is_some, is_done, done, mem, Distinct, remove_first, inl, inr, Option-cases,
}
use vde.Glib.{Glib}
use vde.Signal.{SignalCb, Signal, same_cb, find_cb, vde_signal_attach, vde_signal_detach}

abbrev pub registered : List SignalCb → ℕ → ℕ → ℕ → Bool
registered [] cb d p = false
registered (e ∷ es) cb d p = same_cb e cb d p || registered es cb d p

-- No callback is registered twice.
abbrev pub Once : List SignalCb → Type 0
Once [] = Unit
Once (e ∷ es) = (registered es e.cb e.destroy_cb e.priv_data ≡ false) × Once es

abbrev pub addrs : List SignalCb → List ℕ
addrs [] = []
addrs (e ∷ es) = e.addr ∷ addrs es

pub record IsValid (s : Signal) : Type 0 where
  pub once : Once s.callbacks
  pub distinct : Distinct (addrs s.callbacks)

pub find_cb-registered :
    (es : List SignalCb) (cb d p : ℕ) → is_some (find_cb es cb d p) ≡ registered es cb d p
unfolding find_cb
find_cb-registered [] cb d p = refl
find_cb-registered (e ∷ es) cb d p = ground (arith, find_cb-registered es cb d p)

-- An entry that is found has the fields asked for, and its address is in the list.
found_fields :
    (es : List SignalCb) (cb d p : ℕ) (e : SignalCb)
    → find_cb es cb d p ≡ some e
    → (e.cb ≡ cb) × (e.destroy_cb ≡ d) × (e.priv_data ≡ p) × (mem e.addr (addrs es) ≡ true)
unfolding find_cb
found_fields [] cb d p e h = cc
found_fields (x ∷ es) cb d p e h = ground (arith, found_fields es cb d p e)

abbrev erased : List SignalCb → ℕ → List SignalCb
erased es a = remove_first (λ x. x.addr == a) es

registered-erased :
    (es : List SignalCb) (cb d p u v w : ℕ) (e : SignalCb)
    → Once es
    → Distinct (addrs es)
    → find_cb es cb d p ≡ some e
    → registered (erased es e.addr) u v w
      ≡ (if (cb == u) && ((d == v) && (p == w)) then false else registered es u v w)
unfolding find_cb
registered-erased [] cb d p u v w e o a h = cc
registered-erased (x ∷ es) cb d p u v w e o a h =
    ground (arith, registered-erased es cb d p u v w e o.1 a.1, found_fields es cb d p e)

registered-erased-false :
    (es : List SignalCb) (a u v w : ℕ)
    → registered es u v w ≡ false
    → registered (erased es a) u v w ≡ false
registered-erased-false [] a u v w h = refl
registered-erased-false (x ∷ es) a u v w h = ground (arith, registered-erased-false es a u v w)

Once-erased : (es : List SignalCb) (a : ℕ) → Once es → Once (erased es a)
Once-erased [] a o = tt
Once-erased (x ∷ es) a o =
    ground (arith, Once-erased es a o.1, registered-erased-false es a x.cb x.destroy_cb x.priv_data)

mem-erased :
    (es : List SignalCb) (a b : ℕ) → mem b (addrs es) ≡ false → mem b (addrs (erased es a)) ≡ false
mem-erased [] a b h = refl
mem-erased (x ∷ es) a b h = ground (arith, mem-erased es a b)

Distinct-erased :
    (es : List SignalCb) (a : ℕ) → Distinct (addrs es) → Distinct (addrs (erased es a))
Distinct-erased [] a d = tt
Distinct-erased (x ∷ es) a d = ground (arith, Distinct-erased es a d.1, mem-erased es a x.addr)

abbrev new_entry : ℕ → ℕ → ℕ → ℕ → SignalCb
new_entry a cb d p = record { addr = a; cb = cb; destroy_cb = d; priv_data = p }

same_cb_refl : (a cb d p : ℕ) → same_cb (new_entry a cb d p) cb d p ≡ true
same_cb_refl a cb d p = rw (==_refl cb, ==_refl d, ==_refl p)

find_new :
    (es : List SignalCb) (a cb d p : ℕ)
    → find_cb (new_entry a cb d p ∷ es) cb d p ≡ some (new_entry a cb d p)
unfolding find_cb
find_new es a cb d p = rw (same_cb_refl a cb d p)

module _ ⦃g : Glib⦄ where
  -- An attach with memory at a fresh address succeeds exactly when the callback is not registered;
  -- then it is registered, all others are registered as before, and the signal stays valid.
  pub vde_signal_attach_lem :
      (s : Signal) (a cb d p : ℕ)
      → IsValid s
      → mem a (addrs s.callbacks) ≡ false
      → IsValid (vde_signal_attach (some a) s cb d p).0
        × (is_done (vde_signal_attach (some a) s cb d p).1 ≡ not (registered s.callbacks cb d p))
        × ((u v w : ℕ)
            → registered (vde_signal_attach (some a) s cb d p).0.callbacks u v w
              ≡ ((cb == u) && ((d == v) && (p == w))) || registered s.callbacks u v w)
  unfolding vde_signal_attach
  vde_signal_attach_lem s a cb d p v fresh = elim (Option-cases (find_cb s.callbacks cb d p)) [
    | inl e ↦
        rw (e, vde_signal_attach)
          (rw (g.prepend_law s.callbacks (new_entry a cb d p)) (
            record {
              once = (ground (arith, find_cb-registered s.callbacks cb d p), v.once);
              distinct = (fresh, v.distinct);
            },
            ground (arith, find_cb-registered s.callbacks cb d p),
            λ x y z. refl,
          ))
    | inr (x, e) ↦
        rw (e, vde_signal_attach)
          (
            v,
            ground (arith, find_cb-registered s.callbacks cb d p),
            λ x y z. ground (arith, find_cb-registered s.callbacks cb d p),
          )
  ]

  -- A detach of a valid signal succeeds exactly when the callback is registered; then it is not
  -- registered any more, all others are registered as before, and the signal stays valid.
  pub vde_signal_detach_lem :
      (s : Signal) (cb d p : ℕ)
      → IsValid s
      → IsValid (vde_signal_detach s cb d p).0
        × (is_done (vde_signal_detach s cb d p).1 ≡ registered s.callbacks cb d p)
        × ((u v w : ℕ)
            → registered (vde_signal_detach s cb d p).0.callbacks u v w ≡ (
                if (cb == u) && ((d == v) && (p == w))
                then false
                else registered s.callbacks u v w))
  unfolding vde_signal_detach
  vde_signal_detach_lem s cb d p v = elim (Option-cases (find_cb s.callbacks cb d p)) [
    | inl e ↦
        rw (e, vde_signal_detach)
          (
            v,
            ground (arith, find_cb-registered s.callbacks cb d p),
            λ x y z. ground (arith, find_cb-registered s.callbacks cb d p),
          )
    | inr (x, e) ↦
        rw (e, vde_signal_detach)
          (rw (g.remove_law (λ (x : SignalCb). x.addr) s.callbacks x.addr) (
            record {
              once = Once-erased s.callbacks x.addr v.once;
              distinct = Distinct-erased s.callbacks x.addr v.distinct;
            },
            ground (arith, find_cb-registered s.callbacks cb d p),
            λ u w z. registered-erased s.callbacks cb d p u w z x v.once v.distinct e,
          ))
  ]

  -- A detach after an attach that had memory gives the signal back, whatever it was.
  pub detach-attach :
      (s : Signal) (a cb d p : ℕ)
      → registered s.callbacks cb d p ≡ false
      → vde_signal_detach (vde_signal_attach (some a) s cb d p).0 cb d p ≡ (s, done)
  unfolding vde_signal_attach vde_signal_detach find_cb
  detach-attach s a cb d p h = elim (Option-cases (find_cb s.callbacks cb d p)) [
    | inl e ↦
        rw (e, vde_signal_attach)
          (rw (g.prepend_law s.callbacks (new_entry a cb d p)) (
            rw (find_new s.callbacks a cb d p, vde_signal_detach)
              (rw (g.remove_law (λ (x : SignalCb). x.addr) (new_entry a cb d p ∷ s.callbacks) a)
                (rw (==_refl a)))))
    | inr (x, e) ↦ cc (find_cb-registered s.callbacks cb d p, h, e)
  ]
