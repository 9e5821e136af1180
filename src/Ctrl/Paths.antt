-- ===== src/Ctrl/Paths.antt =====
-- check_split_path and build_signal_path of engine_ctrl.c: the path of a command or a signal is the
-- name of a component, a dot, and the name inside the component.
pub mod Laws
pub mod Tests
use vde.Base.{
  ℕ, Bool, true, false, Option, none, some, List, [], ◌∷◌, ◌++◌, ◌==◌, if◌then◌else◌, CString,
  Errno, einval, enomem, ◌⊎◌, inl, inr,
}

-- The code of SEP_CHAR, '.'
abbrev pub sep_char : ℕ
sep_char = 46

-- The bytes in front of the first separator and those behind it: what memchr finds.
unfoldable pub find_sep : CString → Option (CString × CString)
find_sep [] = none
find_sep (x ∷ xs) =
    if x == sep_char
    then some ([], xs)
    else elim (find_sep xs) [ none ↦ none | some (a, b) ↦ some (x ∷ a, b) ]

-- `name_alloc` and `path_alloc` say whether vde_strndup and strdup find memory.
unfoldable pub check_parts : Bool → Bool → CString → CString → Errno ⊎ (CString × CString)
check_parts name_alloc path_alloc [] callable_path = inl einval
check_parts name_alloc path_alloc (x ∷ xs) [] = inl einval
check_parts false path_alloc (x ∷ xs) (y ∷ ys) = inl enomem
check_parts true false (x ∷ xs) (y ∷ ys) = inl enomem
check_parts true true (x ∷ xs) (y ∷ ys) = inr (x ∷ xs, y ∷ ys)

-- The errno, or the name of the component and the path inside it.
unfoldable pub check_split_path : Bool → Bool → CString → Errno ⊎ (CString × CString)
unfolding find_sep check_parts
check_split_path name_alloc path_alloc full_path = elim (find_sep full_path) [
  | none ↦ inl einval
  | some (component_name, callable_path) ↦
      check_parts name_alloc path_alloc component_name callable_path
]

-- `component_name` is the name of the component of the signal.
unfoldable pub build_signal_path : CString → CString → CString
build_signal_path component_name signal_path = component_name ++ (sep_char ∷ signal_path)
