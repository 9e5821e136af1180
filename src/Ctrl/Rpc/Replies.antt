-- ===== src/Ctrl/Rpc/Replies.antt =====
-- What the messages of the engine hold, and that none of them is a call.
use vde.Base.{
  true, false, Option, none, some, ◌≡◌, refl, ◌∙◌, ◌==s◌, if◌then◌else◌, is_some, CString, arith,
}
use vde.Base.Int.{ℤ}
use vde.Ctrl.Rpc.Key
use vde.Ctrl.Rpc.{
  xor, rpc_10_build_reply, rpc_xx_build_error_reply_sobj, rpc_xx_build_error_reply,
  rpc_10_build_notice, rpc_10_sobj_validate_call,
}
use vde.Sobj.{Sobj, int_type, string_type, array_type, hash_type, absent_or}

module _ ⦃s : Sobj⦄ where
  -- A hash with three keys.
  abbrev three : CString → Option s.Obj → CString → Option s.Obj → CString → Option s.Obj → s.Obj
  three j u k v l w = s.hash_insert (s.hash_insert (s.hash_insert s.new_hash j u) k v) l w

  three-lookup :
      (j k l i : CString) (u v w : Option s.Obj)
      → s.hash_lookup (three j u k v l w) i
        ≡ (if l ==s i then w else if k ==s i then v else if j ==s i then u else none)
  three-lookup j k l i u v w = ground (
    arith,
    s.new_hash_type hash_type,
    s.insert_type s.new_hash j u hash_type,
    s.insert_type (s.hash_insert s.new_hash j u) k v hash_type,
    s.lookup_insert (s.hash_insert (s.hash_insert s.new_hash j u) k v) l w i,
    s.lookup_insert (s.hash_insert s.new_hash j u) k v i,
    s.lookup_insert s.new_hash j u i,
    s.lookup_new i,
  )

  -- A reply with exactly one of result and error, and an integer or NULL as its id, is built; it has
  -- these three parts, and is not a call.
  pub rpc_10_build_reply_lem :
      (id result error : Option s.Obj)
      → xor (is_some result) (is_some error) ≡ true
      → absent_or id int_type ≡ true
      → (r : s.Obj) × (rpc_10_build_reply id result error ≡ some r)
        × (s.hash_lookup r Key.id ≡ id)
        × (s.hash_lookup r Key.result ≡ result)
        × (s.hash_lookup r Key.error ≡ error)
        × (rpc_10_sobj_validate_call r ≡ false)
  unfolding rpc_10_build_reply rpc_10_sobj_validate_call ◌==s◌
  rpc_10_build_reply_lem id result error one number =
      let look = λ (i : CString). three-lookup Key.id Key.result Key.error i id result error in
      let missing : s.hash_lookup (three Key.id id Key.result result Key.error error) Key.method
          ≡ none =
        look Key.method in
      (
        three Key.id id Key.result result Key.error error,
        rw (one, number, rpc_10_build_reply),
        look Key.id,
        look Key.result,
        look Key.error,
        ground (arith, missing),
      )

  -- An error reply for an integer or NULL as its id is built; it has that id, no result, and an
  -- error with this code and this message.
  pub rpc_xx_build_error_reply_lem :
      (id : Option s.Obj) (code : ℤ) (msg : CString)
      → absent_or id int_type ≡ true
      → (r error c m : s.Obj) × (rpc_xx_build_error_reply id code msg ≡ some r)
        × (s.hash_lookup r Key.id ≡ id)
        × (s.hash_lookup r Key.result ≡ none)
        × (s.hash_lookup r Key.error ≡ some error)
        × (s.hash_lookup error Key.code ≡ some c)
        × (s.hash_lookup error Key.message ≡ some m)
        × (s.get_int c ≡ code)
        × (s.get_string m ≡ msg)
  unfolding rpc_xx_build_error_reply rpc_xx_build_error_reply_sobj ◌==s◌
  rpc_xx_build_error_reply_lem id code msg number =
      let c = s.new_int code in
      let m = s.new_string msg in
      let error = s.hash_insert (s.hash_insert s.new_hash Key.code (some c)) Key.message (some m) in
      let (r, built, i, res, err, other) =
        rpc_10_build_reply_lem id none (some error) refl number in
      let typed : s.is_type (s.hash_insert s.new_hash Key.code (some c)) hash_type ≡ true =
        s.insert_type s.new_hash Key.code (some c) hash_type ∙ s.new_hash_type hash_type in
      let at = λ (k : CString).
        s.lookup_insert (s.hash_insert s.new_hash Key.code (some c)) Key.message (some m) k typed in
      (
        r,
        error,
        c,
        m,
        built,
        i,
        res,
        err,
        at Key.code
            ∙ s.lookup_insert s.new_hash Key.code (some c) Key.code (s.new_hash_type hash_type),
        at Key.message,
        s.get_new_int code,
        s.get_new_string msg,
      )

  -- A notice is built from a string and an array; it has these two, and is not a call, since its id
  -- is NULL.
  pub rpc_10_build_notice_lem :
      (method params : s.Obj)
      → s.is_type method string_type ≡ true
      → s.is_type params array_type ≡ true
      → (n : s.Obj) × (rpc_10_build_notice (some method) (some params) ≡ some n)
        × (s.hash_lookup n Key.id ≡ none)
        × (s.hash_lookup n Key.method ≡ some method)
        × (s.hash_lookup n Key.params ≡ some params)
        × (rpc_10_sobj_validate_call n ≡ false)
  unfolding rpc_10_build_notice rpc_10_sobj_validate_call ◌==s◌
  rpc_10_build_notice_lem method params text many =
      let look = λ (i : CString).
        three-lookup Key.id Key.method Key.params i none (some method) (some params) in
      let n = three Key.id none Key.method (some method) Key.params (some params) in
      let missing : s.hash_lookup n Key.id ≡ none = look Key.id in
      (
        n,
        rw (text, many, rpc_10_build_notice),
        look Key.id,
        look Key.method,
        look Key.params,
        ground (arith, missing),
      )
