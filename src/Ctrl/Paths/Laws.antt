-- ===== src/Ctrl/Paths/Laws.antt =====
-- Paths are split where they were put together.
use vde.Base.{
  ◌≡◌, refl, Bool, true, false, some, [], ◌∷◌, ◌++◌, ◌==◌, CString, inl, inr, mem, arith,
  Bool-cases, Option-cases,
}
use vde.Ctrl.Paths.{sep_char, find_sep, check_parts, check_split_path, build_signal_path}

abbrev pub nonempty : CString → Bool
nonempty [] = false
nonempty (x ∷ xs) = true

find_sep-build :
    (name path : CString)
    → mem sep_char name ≡ false
    → find_sep (name ++ (sep_char ∷ path)) ≡ some (name, path)
unfolding find_sep
find_sep-build [] path h = refl
find_sep-build (x ∷ xs) path h = ground (arith, h, find_sep-build xs path)

find_sep-parts :
    (full name path : CString)
    → find_sep full ≡ some (name, path)
    → (full ≡ name ++ (sep_char ∷ path)) × (mem sep_char name ≡ false)
unfolding find_sep
find_sep-parts [] name path h = absurd cc
find_sep-parts (x ∷ xs) name path h = elim (Bool-cases (x == sep_char)) [
  | inl z ↦ ground (arith, z, h)
  | inr z ↦ elim (Option-cases (find_sep xs)) [
    | inl e ↦ ground (arith, z, h, e)
    | inr ((a, b), e) ↦ ground (arith, z, h, e, find_sep-parts xs a b e)
  ]
]

check_parts-parts :
    (u v : Bool) (a b name path : CString)
    → check_parts u v a b ≡ inr (name, path)
    → (name ≡ a) × (path ≡ b) × (nonempty name ≡ true) × (nonempty path ≡ true)
unfolding check_parts
check_parts-parts u v [] b name path h = absurd cc
check_parts-parts u v (x ∷ xs) [] name path h = absurd cc
check_parts-parts false v (x ∷ xs) (y ∷ ys) name path h = absurd cc
check_parts-parts true false (x ∷ xs) (y ∷ ys) name path h = absurd cc
check_parts-parts true true (x ∷ xs) (y ∷ ys) name path h = ground (arith, h)

-- With memory, a path that was built from a name without a dot and another name, neither of them
-- empty, is split into these two.
pub check_split_path-build :
    (name path : CString)
    → mem sep_char name ≡ false
    → nonempty name ≡ true
    → nonempty path ≡ true
    → check_split_path true true (build_signal_path name path) ≡ inr (name, path)
unfolding check_split_path build_signal_path check_parts
check_split_path-build [] path h a b = absurd cc
check_split_path-build (x ∷ xs) [] h a b = absurd cc
check_split_path-build (x ∷ xs) (y ∷ ys) h a b =
    rw (find_sep-build (x ∷ xs) (y ∷ ys) h, check_split_path)

-- The two parts of a path that was split give the path again; neither is empty, and the first has
-- no dot.
pub build-check_split_path :
    (u v : Bool) (full name path : CString)
    → check_split_path u v full ≡ inr (name, path)
    → (build_signal_path name path ≡ full)
      × (mem sep_char name ≡ false)
      × (nonempty name ≡ true)
      × (nonempty path ≡ true)
unfolding check_split_path build_signal_path
build-check_split_path u v full name path h = elim (Option-cases (find_sep full)) [
  | inl e ↦ absurd (ground (arith, e, h))
  | inr ((a, b), e) ↦
      let (p, q, x, y) = check_parts-parts u v a b name path (ground (arith, e, h)) in
      let (whole, clean) = find_sep-parts full a b e in
      (ground (arith, whole, p, q), ground (arith, clean, p), x, y)
]
