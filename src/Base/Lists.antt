-- ===== src/Base/Lists.antt =====
-- Lists measured by native numbers, membership as a Boolean test, and text as a list of bytes.
use Prim.Native.Nat.{ℕ, zero, suc, ◌+◌}
use mathlib.Core.Path.{◌≡◌, refl, ap, subst}
use mathlib.Core.Logic.{◌↔◌, inl, inr}
use mathlib.Core.Bool.{Bool, true, false, not, ◌&&◌, ◌||◌}
use mathlib.Core.List.{List, [], ◌∷◌, ◌++◌}
use native.Mathlib.Omega.{arith}
use vde.Base.Tests.{◌==◌, if◌then◌else◌, Bool-cases, ==_iff}

module _ {ℓ} {A : Type ℓ} where
  abbrev pub length : List A → ℕ
  length [] = 0
  length (x ∷ xs) = suc (length xs)

  abbrev pub take : ℕ → List A → List A
  take zero xs = []
  take (suc n) [] = []
  take (suc n) (x ∷ xs) = x ∷ take n xs

  abbrev pub drop : ℕ → List A → List A
  drop zero xs = xs
  drop (suc n) [] = []
  drop (suc n) (x ∷ xs) = drop n xs

  pub length-append : (xs ys : List A) → length (xs ++ ys) ≡ length xs + length ys
  length-append [] ys = omega arith
  length-append (x ∷ xs) ys = omega (arith, length-append xs ys)

-- A predicate that holds of every element.
abbrev pub All {ℓ κ} : {A : Type ℓ} → (A → Type κ) → List A → Type κ
All P [] = Unit
All P (x ∷ xs) = P x × All P xs

-- A name or a path: the bytes before the terminating NUL.
abbrev pub CString : Type 0
CString = List ℕ

infix 50 ◌==s◌
unfoldable pub ◌==s◌ : CString → CString → Bool
[] ==s [] = true
[] ==s (y ∷ ys) = false
(x ∷ xs) ==s [] = false
(x ∷ xs) ==s (y ∷ ys) = (x == y) && (xs ==s ys)

pub ==s_iff : (s t : CString) → ((s ==s t) ≡ true) ↔ (s ≡ t)
unfolding ◌==s◌
==s_iff [] [] = (λ h. refl, λ h. refl)
==s_iff [] (y ∷ ys) = (λ h. cc, λ h. cc)
==s_iff (x ∷ xs) [] = (λ h. cc, λ h. cc)
==s_iff (x ∷ xs) (y ∷ ys) =
    let ih = ==s_iff xs ys in (λ h. ground (arith, ih), λ h. ground (arith, ih))

pub ==s_refl : (s : CString) → (s ==s s) ≡ true
==s_refl s = (==s_iff s s).1 refl

module _ {ℓ} {A : Type ℓ} where
  -- Drops the first element that passes the test.
  abbrev pub remove_first : (A → Bool) → List A → List A
  remove_first p [] = []
  remove_first p (x ∷ xs) = if p x then xs else x ∷ remove_first p xs

  -- Appends the reverse of the first list to the second.
  abbrev pub rev_append : List A → List A → List A
  rev_append [] ys = ys
  rev_append (x ∷ xs) ys = rev_append xs (x ∷ ys)

module _ {ℓ} {A : Type ℓ} where
  -- A queue, whose tail is the next to leave, as a list with the next one first.
  abbrev pub backwards : List A → List A
  backwards [] = []
  backwards (x ∷ xs) = backwards xs ++ (x ∷ [])

  pub backwards-snoc : (xs : List A) (y : A) → backwards (xs ++ (y ∷ [])) ≡ y ∷ backwards xs
  backwards-snoc [] y = refl
  backwards-snoc (x ∷ xs) y = rw (backwards-snoc xs y)

  pub backwards-backwards : (xs : List A) → backwards (backwards xs) ≡ xs
  backwards-backwards [] = refl
  backwards-backwards (x ∷ xs) = rw (backwards-snoc (backwards xs) x, backwards-backwards xs)

  pub length-backwards : (xs : List A) → length (backwards xs) ≡ length xs
  length-backwards [] = refl
  length-backwards (x ∷ xs) =
      omega (arith, length-append (backwards xs) (x ∷ []), length-backwards xs)

-- Membership of a number, as a test.
abbrev pub mem : ℕ → List ℕ → Bool
mem a [] = false
mem a (x ∷ xs) = (x == a) || mem a xs

-- No number occurs twice.
abbrev pub Distinct : List ℕ → Type 0
Distinct [] = Unit
Distinct (x ∷ xs) = (mem x xs ≡ false) × Distinct xs

-- A number apart from those of a list is told from each of them.
pub All-apart {ℓ} :
    {P Q : ℕ → Type ℓ} (a : ℕ) (l : List ℕ)
    → mem a l ≡ false
    → ((x : ℕ) → (a == x) ≡ false → P x → Q x)
    → All P l
    → All Q l
All-apart a [] m f h = tt
All-apart a (x ∷ l) m f h = (f x (ground arith) h.0, All-apart a l (ground arith) f h.1)

pub All-mem : (P : ℕ → Type 0) (a : ℕ) (l : List ℕ) → All P l → mem a l ≡ true → P a
All-mem P a [] h m = absurd (ground (arith, m))
All-mem P a (x ∷ l) h m = elim (Bool-cases (x == a)) [
  | inl same ↦ subst P ((==_iff x a).0 same) h.0
  | inr other ↦ All-mem P a l h.1 (ground (arith, m, other))
]

pub mem-removed :
    (l : List ℕ) (k p : ℕ)
    → Distinct l
    → mem p (remove_first (λ x. x == k) l) ≡ (mem p l && not (p == k))
mem-removed [] k p d = refl
mem-removed (x ∷ xs) k p (fresh, d) = elim (Bool-cases (x == k)) [
  | inl e ↦ rw e (elim (Bool-cases (p == k)) [
    | inl same ↦
        ground (arith, e, same, fresh, ap (λ y. mem y xs) {x = p} {y = x} (ground (arith, e, same)))
    | inr other ↦ ground (arith, e, other)
  ])
  | inr e ↦ ground (arith, e, mem-removed xs k p d)
]

pub Distinct-removed : (l : List ℕ) (k : ℕ) → Distinct l → Distinct (remove_first (λ x. x == k) l)
Distinct-removed [] k d = tt
Distinct-removed (x ∷ xs) k (fresh, d) = elim (Bool-cases (x == k)) [
  | inl e ↦ rw e d
  | inr e ↦ rw e (ground (arith, fresh, mem-removed xs k x d), Distinct-removed xs k d)
]

pub All-removed {ℓ} :
    {A : Type 0} (P : A → Type ℓ) (f : A → Bool) (l : List A) → All P l → All P (remove_first f l)
All-removed P f [] h = tt
All-removed P f (x ∷ l) h = elim (Bool-cases (f x)) [
  | inl e ↦ rw e (h.1)
  | inr e ↦ rw e (h.0, All-removed P f l h.1)
]

pub All-each {ℓ} :
    {A : Type 0} (P Q : A → Type ℓ) (l : List A) → ((x : A) → P x → Q x) → All P l → All Q l
All-each P Q [] f h = tt
All-each P Q (x ∷ l) f h = (f x h.0, All-each P Q l f h.1)
