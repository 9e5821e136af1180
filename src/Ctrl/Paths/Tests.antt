-- ===== src/Ctrl/Paths/Tests.antt =====
-- Paths of concrete bytes: the theorems at their inputs.
use vde.Base.{◌≡◌, refl, true, [], ◌∷◌, inr, CString}
use vde.Ctrl.Paths.{check_split_path, build_signal_path}
use vde.Ctrl.Paths.Laws.{check_split_path-build}

abbrev hub : CString
hub = b'h' ∷ b'u' ∷ b'b' ∷ []

abbrev port_new : CString
port_new = b'n' ∷ b'.' ∷ b'w' ∷ []

check_split_example :
    check_split_path true true (build_signal_path hub port_new) ≡ inr (hub, port_new)
check_split_example = check_split_path-build hub port_new refl refl refl
