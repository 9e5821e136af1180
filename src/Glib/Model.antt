-- ===== src/Glib/Model.antt =====
-- Concrete lists, tables and interned strings that meet the interface, for the tests.
use vde.Base.{
  ℕ, suc, ◌+◌, ◌-◌, ◌≤◌, ◌≡◌, refl, ◌≢◌, true, Option, none, some, List, [], ◌∷◌, ◌++◌, arith, ◌==◌,
  ◌==s◌, ==s_iff, if◌then◌else◌, is_some, length, CString,
}

module _ {A : Type 0} where
  -- The last element and those before it.
  abbrev pub unsnoc : List A → Option (A × List A)
  unsnoc [] = none
  unsnoc (x ∷ xs) = elim (unsnoc xs) [ none ↦ some (x, []) | some (y, l) ↦ some (y, x ∷ l) ]

  pub unsnoc-append : (l : List A) (x : A) → unsnoc (l ++ (x ∷ [])) ≡ some (x, l)
  unsnoc-append [] x = refl
  unsnoc-append (y ∷ l) x = rw (unsnoc-append l x)

module _ {V : Type 0} where
  abbrev pub assoc : List (ℕ × V) → ℕ → Option V
  assoc [] j = none
  assoc ((k, v) ∷ t) j = if k == j then some v else assoc t j

  abbrev pub without : List (ℕ × V) → ℕ → List (ℕ × V)
  without [] j = []
  without ((k, v) ∷ t) j = if k == j then without t j else (k, v) ∷ without t j

  -- The number of keys; an older pair of a key that was inserted again does not count.
  abbrev pub size : List (ℕ × V) → ℕ
  size [] = 0
  size ((k, v) ∷ t) = if is_some (assoc t k) then size t else size t + 1

  pub assoc-without :
      (t : List (ℕ × V)) (k j : ℕ) → assoc (without t k) j ≡ (if k == j then none else assoc t j)
  assoc-without [] k j = ground arith
  assoc-without ((i, v) ∷ t) k j = ground (arith, assoc-without t k j)

  size_pos : (t : List (ℕ × V)) (k : ℕ) → is_some (assoc t k) ≡ true → 1 ≤ size t
  size_pos [] k h = cc
  size_pos ((i, v) ∷ t) k h = ground (arith, size_pos t k, size_pos t i)

  pub size-without :
      (t : List (ℕ × V)) (k : ℕ)
      → size (without t k) ≡ (if is_some (assoc t k) then size t - 1 else size t)
  size-without [] k = refl
  size-without ((i, v) ∷ t) k =
      ground (arith, size-without t k, assoc-without t k i, size_pos t k, size_pos t i)

-- The interned strings, newest first; the quark of a string is its place from the oldest.
abbrev pub try_quark : List CString → CString → ℕ
try_quark [] s = 0
try_quark (t ∷ ts) s = if t ==s s then suc (length ts) else try_quark ts s

abbrev pub from_quark : List CString → CString → ℕ × List CString
from_quark q s = if try_quark q s == 0 then (suc (length q), s ∷ q) else (try_quark q s, q)

try_bound : (q : List CString) (s : CString) → try_quark q s ≤ length q
try_bound [] s = omega arith
try_bound (t ∷ ts) s = ground (arith, try_bound ts s)

pub from_nonzero_lem : (q : List CString) (s : CString) → (from_quark q s).0 ≢ 0
from_nonzero_lem q s = ground arith

pub from_known_lem :
    (q : List CString) (s : CString) → try_quark q s ≢ 0 → (from_quark q s).0 ≡ try_quark q s
from_known_lem q s h = ground arith

pub try_from_lem :
    (q : List CString) (s t : CString)
    → try_quark (from_quark q s).1 t ≡ (if s ==s t then (from_quark q s).0 else try_quark q t)
try_from_lem q s t = ground (arith, ==s_iff s t)

pub try_injective_lem :
    (q : List CString) (s t : CString) → try_quark q s ≢ 0 → try_quark q s ≡ try_quark q t → s ≡ t
try_injective_lem [] s t h e = absurd (h refl)
try_injective_lem (x ∷ q) s t h e =
    ground (arith, ==s_iff x s, ==s_iff x t, try_bound q s, try_bound q t, try_injective_lem q s t)
