-- ===== src/Ctrl/Rpc.antt =====
-- The messages of engine_ctrl.c: rpc_10_build_reply, rpc_XX_build_error_reply_sobj,
-- rpc_XX_build_error_reply, rpc_10_build_notice and rpc_10_sobj_validate_call.
pub mod Key
pub mod Laws
pub mod Replies
use vde.Base.{
  ℕ, Bool, true, false, Option, none, some, ◌≡◌, ◌==s◌, if◌then◌else◌, is_some, CString, not, ◌&&◌,
  ◌||◌, List, [], ◌∷◌,
}
use vde.Base.Int.{ℤ, pos, negsuc}
use vde.Ctrl.Rpc.Key
use vde.Sobj.{Sobj, SobjType, int_type, string_type, array_type, hash_type, present, absent_or}

abbrev pub is_negative : ℤ → Bool
is_negative (pos n) = false
is_negative (negsuc n) = true

module _ ⦃s : Sobj⦄ where
  abbrev pub xor : Bool → Bool → Bool
  xor true b = not b
  xor false b = b

  -- `none` is a failed assertion.
  pub rpc_10_build_reply : Option s.Obj → Option s.Obj → Option s.Obj → Option s.Obj
  rpc_10_build_reply id result error =
      if xor (is_some result) (is_some error) && absent_or id int_type
      then some (
          s.hash_insert (s.hash_insert (s.hash_insert s.new_hash Key.id id) Key.result result)
            Key.error error)
      else none

  unfoldable pub rpc_xx_build_error_reply_sobj :
      Option s.Obj → Option s.Obj → Option s.Obj → Option s.Obj
  unfolding rpc_10_build_reply
  rpc_xx_build_error_reply_sobj id code msg =
      let error = s.hash_insert (s.hash_insert s.new_hash Key.code code) Key.message msg in
      rpc_10_build_reply id none (some error)

  unfoldable pub rpc_xx_build_error_reply : Option s.Obj → ℤ → CString → Option s.Obj
  unfolding rpc_xx_build_error_reply_sobj
  rpc_xx_build_error_reply id code msg =
      rpc_xx_build_error_reply_sobj id (some (s.new_int code)) (some (s.new_string msg))

  pub rpc_10_build_notice : Option s.Obj → Option s.Obj → Option s.Obj
  rpc_10_build_notice method params =
      if present method string_type && present params array_type
      then some (
          s.hash_insert (s.hash_insert (s.hash_insert s.new_hash Key.id none) Key.method method)
            Key.params params)
      else none

  abbrev not_negative : Option s.Obj → Bool
  not_negative none = false
  not_negative (some o) = not (is_negative (s.get_int o))

  -- `true` is a return of 0.
  pub rpc_10_sobj_validate_call : s.Obj → Bool
  rpc_10_sobj_validate_call sobj =
      if not (s.is_type sobj hash_type)
      then false
      else if not (present (s.hash_lookup sobj Key.method) string_type)
      then false
      else if not (present (s.hash_lookup sobj Key.params) array_type)
      then false
      else if not (present (s.hash_lookup sobj Key.id) int_type)
      then false
      else not_negative (s.hash_lookup sobj Key.id)
