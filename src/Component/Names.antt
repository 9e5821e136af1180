-- ===== src/Component/Names.antt =====
-- Tables that are keyed by the quarks of names, as the commands and the signals of a component are.
use vde.Base.{
  ℕ, ◌≡◌, ◌≢◌, sym, ◌∙◌, ap, true, Option, none, some, ◌==◌, ◌==s◌, ==s_iff, arith, if◌then◌else◌,
  is_some, CString, Bool-cases, inl, inr, ==_iff,
}
use vde.Glib.{Glib}

module _ ⦃g : Glib⦄ where
  -- A string that is interned now keeps its quark, and two strings do not share a new quark.
  pub from_fresh :
      (q : g.Quarks) (s t : CString) → (g.quark_from_string q s).0 ≡ g.quark_try_string q t → s ≡ t
  from_fresh q s t h = elim (Bool-cases (s ==s t)) [
    | inl e ↦ (==s_iff s t).0 e
    | inr e ↦
        g.try_injective (g.quark_from_string q s).1 s t
          (ground (arith, g.try_from q s s, g.from_nonzero q s, ==s_iff s s))
          (ground (arith, g.try_from q s s, g.try_from q s t, ==s_iff s s))
  ]

  from_try :
      (q : g.Quarks) (s : CString)
      → (g.quark_from_string q s).0 ≢ g.quark_try_string q s
      → g.quark_try_string q s ≡ 0
  from_try q s h = ground (arith, g.from_known q s)

  -- Between two tables of strings: no interned string has lost its quark.
  abbrev pub Grows : g.Quarks → g.Quarks → Type 0
  Grows q q' =
      (s : CString) → g.quark_try_string q s ≢ 0 → g.quark_try_string q' s ≡ g.quark_try_string q s

  pub Grows-from : (q : g.Quarks) (s : CString) → Grows q (g.quark_from_string q s).1
  Grows-from q s t h = ground (arith, g.try_from q s t, g.from_known q s, ==s_iff s t)

  pub Grows-trans : (q r s : g.Quarks) → Grows q r → Grows r s → Grows q s
  Grows-trans q r s a b t h = ground (arith, a t, b t)

  module _ {V : Type 0} where
    -- The entry of a name.
    abbrev pub named_get : g.Quarks → g.Hash V → CString → Option V
    named_get q t s = g.hash_lookup t (g.quark_try_string q s)

    -- Every key in use is the quark of an interned name.
    pub record Named (q : g.Quarks) (t : g.Hash V) : Type 0 where
      pub zero_free : g.hash_lookup t 0 ≡ none
      pub interned :
          (k : ℕ)
          → is_some (g.hash_lookup t k) ≡ true
          → (s : CString) × (g.quark_try_string q s ≡ k)

    pub Named-init : (q : g.Quarks) → Named q g.hash_init
    Named-init q = record {
      zero_free = g.lookup_init V 0;
      interned = λ k h. cc (g.lookup_init V k, h);
    }

    -- The key that an insertion uses is taken exactly when the name has an entry.
    pub lookup-from :
        (q : g.Quarks) (t : g.Hash V) (s : CString)
        → Named q t
        → g.hash_lookup t (g.quark_from_string q s).0 ≡ named_get q t s
    lookup-from q t s n =
        elim (Bool-cases ((g.quark_from_string q s).0 == g.quark_try_string q s)) [
          | inl e ↦ ap (g.hash_lookup t) ((==_iff _ _).0 e)
          | inr e ↦
              let z : g.quark_try_string q s ≡ 0 = from_try q s (ground arith) in
              elim (Bool-cases (is_some (g.hash_lookup t (g.quark_from_string q s).0))) [
                | inl used ↦
                    let (u, eu) = n.interned _ used in
                    let su : s ≡ u = from_fresh q s u (sym eu) in
                    absurd (g.from_nonzero q s (sym eu ∙ (ap (g.quark_try_string q) (sym su) ∙ z)))
                | inr free ↦ ground (arith, n.zero_free)
              ]
        ]

    -- Interning a name leaves what every name has.
    pub get-from :
        (q : g.Quarks) (t : g.Hash V) (s u : CString)
        → Named q t
        → named_get (g.quark_from_string q s).1 t u ≡ named_get q t u
    get-from q t s u n = elim (Bool-cases (s ==s u)) [
      | inl e ↦
          let su : s ≡ u = (==s_iff s u).0 e in
          let step : g.quark_try_string (g.quark_from_string q s).1 u
              ≡ (g.quark_from_string q s).0 =
            ground (arith, g.try_from q s u) in
          ap (g.hash_lookup t) step ∙ (lookup-from q t s n ∙ ap (named_get q t) su)
      | inr e ↦ ap (g.hash_lookup t) (ground (arith, g.try_from q s u))
    ]

    pub Named-from :
        (q : g.Quarks) (t : g.Hash V) (s : CString)
        → Named q t
        → Named (g.quark_from_string q s).1 t
    Named-from q t s n = record {
      zero_free = n.zero_free;
      interned = λ k h.
          let (u, e) = n.interned k h in
          elim (Bool-cases (s ==s u)) [
            | inl same ↦ (
              u,
              ground
                  (arith, (==s_iff s u).0 same, e, g.try_from q s u, g.from_known q s, n.zero_free),
            )
            | inr differ ↦ (u, ground (arith, g.try_from q s u))
          ];
    }

    -- After an insertion under the quark of a name, that name has the new entry.
    pub get-insert :
        (q : g.Quarks) (t : g.Hash V) (s u : CString) (v : V)
        → named_get (g.quark_from_string q s).1 (g.hash_insert t (g.quark_from_string q s).0 v) u
          ≡ (if s ==s u then some v else named_get q t u)
    get-insert q t s u v = elim (Bool-cases (s ==s u)) [
      | inl e ↦ ground (
        arith,
        g.lookup_insert t (g.quark_from_string q s).0 v
            (g.quark_try_string (g.quark_from_string q s).1 u),
        g.try_from q s u,
      )
      | inr e ↦ ground (
        arith,
        g.lookup_insert t (g.quark_from_string q s).0 v
            (g.quark_try_string (g.quark_from_string q s).1 u),
        g.try_from q s u,
        from_fresh q s u,
        ==s_iff s u,
      )
    ]

    pub Named-insert :
        (q : g.Quarks) (t : g.Hash V) (s : CString) (v : V)
        → Named q t
        → Named (g.quark_from_string q s).1 (g.hash_insert t (g.quark_from_string q s).0 v)
    Named-insert q t s v n =
        let n' = Named-from q t s n in
        record {
          zero_free = ground (
            arith,
            g.lookup_insert t (g.quark_from_string q s).0 v 0,
            g.from_nonzero q s,
            n.zero_free,
          );
          interned = λ k h. elim (Bool-cases ((g.quark_from_string q s).0 == k)) [
            | inl e ↦ (s, ground (arith, g.try_from q s s, ==s_iff s s))
            | inr e ↦
                n'.interned k (ground (arith, g.lookup_insert t (g.quark_from_string q s).0 v k))
          ];
        }

    -- After a removal by the quark of a name, that name has no entry, and the others are as before.
    pub get-remove :
        (q : g.Quarks) (t : g.Hash V) (s u : CString)
        → Named q t
        → named_get q (g.hash_remove t (g.quark_try_string q s)).0 u
          ≡ (if s ==s u then none else named_get q t u)
    get-remove q t s u n = ground (
      arith,
      g.lookup_remove t (g.quark_try_string q s) (g.quark_try_string q u),
      g.try_injective q s u,
      ==s_iff s u,
      n.zero_free,
    )

    pub Named-remove :
        (q : g.Quarks) (t : g.Hash V) (k : ℕ) → Named q t → Named q (g.hash_remove t k).0
    Named-remove q t k n = record {
      zero_free = ground (arith, g.lookup_remove t k 0, n.zero_free);
      interned = λ j h. n.interned j (ground (arith, g.lookup_remove t k j));
    }

    -- Strings that are interned later change what no name has.
    pub get-grow :
        (q r : g.Quarks) (t : g.Hash V) (u : CString)
        → Grows q r
        → Named q t
        → named_get r t u ≡ named_get q t u
    get-grow q r t u grows n =
        elim (Bool-cases (is_some (g.hash_lookup t (g.quark_try_string r u)))) [
          | inl used ↦
              let (v, e) = n.interned (g.quark_try_string r u) used in
              let nz : g.quark_try_string q v ≢ 0 = ground (arith, n.zero_free) in
              let same : v ≡ u =
                g.try_injective r v u (ground (arith, grows v nz)) (grows v nz ∙ e) in
              ap (g.hash_lookup t) (sym e ∙ ap (g.quark_try_string q) same)
          | inr free ↦ ground (arith, grows u, n.zero_free)
        ]

    pub Named-grow : (q r : g.Quarks) (t : g.Hash V) → Grows q r → Named q t → Named r t
    Named-grow q r t grows n = record {
      zero_free = n.zero_free;
      interned = λ k h. let (u, e) = n.interned k h in (u, ground (arith, grows u, n.zero_free));
    }
