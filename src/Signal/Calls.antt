-- ===== src/Signal/Calls.antt =====
-- What raising a signal and finishing it call.
use vde.Base.{
  some, done, Option-cases, inl, inr, ℕ, ◌+◌, ◌≡◌, refl, false, List, [], ◌∷◌, ◌&&◌, ◌==◌, arith,
  if◌then◌else◌, All, CString,
}
use vde.Glib.{Glib}
use vde.Signal.{
  SignalCb, Signal, Call, find_cb, raise_loop, call_destroys, vde_signal_raise, vde_signal_fini,
  vde_signal_attach,
}
use vde.Signal.Registered.{registered, Once, IsValid, addrs, find_cb-registered}

-- How many of the calls run this function on this data.
abbrev calls_of : {I : Type 0} → List (Call I) → ℕ → ℕ → ℕ
calls_of [] f p = 0
calls_of (c ∷ cs) f p = (if (c.callee == f) && (c.priv_data == p) then 1 else 0) + calls_of cs f p

raise_none :
    {I : Type 0} (es : List SignalCb) (name : CString) (info : I) (c cb d p : ℕ)
    → All (λ e. e.destroy_cb ≡ d) es
    → registered es cb d p ≡ false
    → calls_of (raise_loop es name info c) cb p ≡ 0
unfolding raise_loop
raise_none [] name info c cb d p a h = refl
raise_none (e ∷ es) name info c cb d p a h = ground (arith, raise_none es name info c cb d p a.1)

calls_of-raise_loop :
    {I : Type 0} (es : List SignalCb) (name : CString) (info : I) (c cb d p : ℕ)
    → All (λ e. e.destroy_cb ≡ d) es
    → Once es
    → calls_of (raise_loop es name info c) cb p ≡ (if registered es cb d p then 1 else 0)
unfolding raise_loop
calls_of-raise_loop [] name info c cb d p a o = refl
calls_of-raise_loop (e ∷ es) name info c cb d p a o =
    ground (
      arith,
      calls_of-raise_loop es name info c cb d p a.1 o.1,
      raise_none es name info c cb d p a.1,
    )

fini_none :
    (es : List SignalCb) (name : CString) (c cb d p : ℕ)
    → All (λ e. e.cb ≡ cb) es
    → registered es cb d p ≡ false
    → calls_of (call_destroys es name c).0 d p ≡ 0
unfolding call_destroys
fini_none [] name c cb d p a h = refl
fini_none (e ∷ es) name c cb d p a h = ground (arith, fini_none es name c cb d p a.1)

calls_of-call_destroys :
    (es : List SignalCb) (name : CString) (c cb d p : ℕ)
    → All (λ e. e.cb ≡ cb) es
    → Once es
    → calls_of (call_destroys es name c).0 d p ≡ (if registered es cb d p then 1 else 0)
unfolding call_destroys
calls_of-call_destroys [] name c cb d p a o = refl
calls_of-call_destroys (e ∷ es) name c cb d p a o =
    ground (arith, calls_of-call_destroys es name c cb d p a.1 o.1, fini_none es name c cb d p a.1)

fini_freed : (es : List SignalCb) (name : CString) (c : ℕ) → (call_destroys es name c).1 ≡ addrs es
unfolding call_destroys
fini_freed [] name c = refl
fini_freed (e ∷ es) name c = ground (arith, fini_freed es name c)

-- Raising a valid signal whose callbacks share their destroy function calls each registered
-- callback exactly once on its data, and no other.
vde_signal_raise-once :
    {I : Type 0} (s : Signal) (info : I) (c cb d p : ℕ)
    → IsValid s
    → All (λ e. e.destroy_cb ≡ d) s.callbacks
    → calls_of (vde_signal_raise s info c) cb p ≡ (if registered s.callbacks cb d p then 1 else 0)
unfolding vde_signal_raise
vde_signal_raise-once s info c cb d p v a =
    calls_of-raise_loop s.callbacks s.name info c cb d p a v.once

-- Finishing a valid signal whose callbacks share their function calls the destroy function of each
-- registered callback exactly once on its data, and frees each entry once.
vde_signal_fini-once :
    (s : Signal) (c cb d p : ℕ)
    → IsValid s
    → All (λ e. e.cb ≡ cb) s.callbacks
    → (calls_of (vde_signal_fini s c).0 d p ≡ (if registered s.callbacks cb d p then 1 else 0))
      × ((vde_signal_fini s c).1 ≡ addrs s.callbacks)
unfolding vde_signal_fini
vde_signal_fini-once s c cb d p v a =
    (calls_of-call_destroys s.callbacks s.name c cb d p a v.once, fini_freed s.callbacks s.name c)

-- Attaching a callback that is not registered puts its call in front of those that raising makes.
pub raise-attach_signal :
    ⦃g : Glib⦄ {I : Type 0} (s : Signal) (a cb d p c : ℕ) (info : I)
    → registered s.callbacks cb d p ≡ false
    → let (s', st) = vde_signal_attach (some a) s cb d p in
      (st ≡ done)
      × (vde_signal_raise s' info c
          ≡ record { callee = cb; component = c; signal = s.name; info = info; priv_data = p }
            ∷ vde_signal_raise s info c)
unfolding vde_signal_attach vde_signal_raise
raise-attach_signal ⦃g⦄ s a cb d p c info h = elim (Option-cases (find_cb s.callbacks cb d p)) [
  | inl e ↦ rw (e, vde_signal_attach) (rw (g.prepend_law s.callbacks) (refl, refl))
  | inr (x, e) ↦ cc (find_cb-registered s.callbacks cb d p, h, e)
]
