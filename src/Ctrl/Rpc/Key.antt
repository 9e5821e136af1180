-- ===== src/Ctrl/Rpc/Key.antt =====
-- The keys of the messages of engine_ctrl.c.
use vde.Base.{[], ◌∷◌, CString}

abbrev pub id : CString
id = b'i' ∷ b'd' ∷ []

abbrev pub result : CString
result = b'r' ∷ b'e' ∷ b's' ∷ b'u' ∷ b'l' ∷ b't' ∷ []

abbrev pub error : CString
error = b'e' ∷ b'r' ∷ b'r' ∷ b'o' ∷ b'r' ∷ []

abbrev pub code : CString
code = b'c' ∷ b'o' ∷ b'd' ∷ b'e' ∷ []

abbrev pub message : CString
message = b'm' ∷ b'e' ∷ b's' ∷ b's' ∷ b'a' ∷ b'g' ∷ b'e' ∷ []

abbrev pub method : CString
method = b'm' ∷ b'e' ∷ b't' ∷ b'h' ∷ b'o' ∷ b'd' ∷ []

abbrev pub params : CString
params = b'p' ∷ b'a' ∷ b'r' ∷ b'a' ∷ b'm' ∷ b's' ∷ []
