-- ===== src/Ctrl/Calls/Laws.antt =====
-- Each string gets one reply, with the id of the call.
use vde.Base.{
  ◌||◌, ℕ, ◌≡◌, refl, Bool, true, false, Option, none, some, ◌==◌, not, ◌&&◌, if◌then◌else◌,
  CString, is_some, is_done, Errno, einval, enoent, inl, inr, arith, Option-cases, Bool-cases,
  Status-cases, ◌⊎◌,
}
use vde.Glib.{Glib}
use vde.Component.{Command}
use vde.Component.Commands.{vde_component_command_get}
use vde.Context.Life.{vde_context_get_component}
use vde.Ctrl.Paths.{check_split_path}
use vde.Ctrl.Subscribe.{Subs}
use vde.Ctrl.Rpc.{
  rpc_xx_build_error_reply_sobj, rpc_xx_build_error_reply, rpc_10_sobj_validate_call,
}
use vde.Sobj.{Sobj, absent_or, int_type}
use vde.Ctrl.Rpc.Key
use vde.Ctrl.Rpc.Laws.{validate_call-IsMethodCall}
use vde.Ctrl.Rpc.Replies.{rpc_10_build_reply_lem}
use vde.Ctrl.Calls.{
  Outside, Target, the_component, the_connection, is_builtin, answer, error_reply, run_command,
  find_command, reply_to,
}

pub Split-cases :
    (r : Errno ⊎ (CString × CString))
    → ((e : Errno) × (r ≡ inl e)) ⊎ ((p : CString × CString) × (r ≡ inr p))
Split-cases (inl e) = inl (e, refl)
Split-cases (inr p) = inr (p, refl)

module _ ⦃g : Glib⦄ ⦃s : Sobj⦄ (out : Outside) where
  -- The id of a call; NULL for what is none.
  abbrev pub id_of : CString → Option s.Obj
  id_of string = elim (out.from_string string) [
    | none ↦ none
    | some o ↦ if rpc_10_sobj_validate_call o then s.hash_lookup o Key.id else none
  ]

  -- A reply with this id, which is not a call itself.
  abbrev pub Replied : Option s.Obj → Option (Subs × s.Obj) → Type 0
  Replied id none = ⊥
  Replied id (some (w, r)) = (s.hash_lookup r Key.id ≡ id) × (rpc_10_sobj_validate_call r ≡ false)

  error_reply_sobj-Replied :
      (w : Subs) (id code msg : Option s.Obj)
      → absent_or id int_type ≡ true
      → Replied id (answer out (rpc_xx_build_error_reply_sobj id code msg) w)
  unfolding answer rpc_xx_build_error_reply_sobj
  error_reply_sobj-Replied w id code msg number =
      let error = s.hash_insert (s.hash_insert s.new_hash Key.code code) Key.message msg in
      let (r, built, at, res, err, other) =
        rpc_10_build_reply_lem id none (some error) refl number in
      rw (built, rpc_xx_build_error_reply_sobj) (at, other)

  error_reply-Replied :
      (w : Subs) (id : Option s.Obj) (e : Errno) (msg : CString)
      → absent_or id int_type ≡ true
      → Replied id (error_reply out w id e msg)
  unfolding error_reply rpc_xx_build_error_reply
  error_reply-Replied w id e msg number =
      error_reply_sobj-Replied w id (some (s.new_int (out.number e))) (some (s.new_string msg))
        number

  run_command-Replied :
      (w : Subs) (engine p : ℕ) (id : Option s.Obj) (o : s.Obj) (command : Command)
      → ((f : ℕ) (t : Target) (a : Option s.Obj) (v : Subs)
          → (not (is_done (out.run f t a v).1) || is_some (out.run f t a v).2) ≡ true)
      → absent_or id int_type ≡ true
      → Replied id (run_command out w engine id o p command)
  unfolding run_command answer
  run_command-Replied w engine p id o command gives number =
      let t = if (p == engine) && is_builtin command then the_connection else the_component p in
      let a = s.hash_lookup o Key.params in
      let (w', rv, result) = out.run command.func t a w in
      elim (Status-cases rv) [
        | inr (e, failed) ↦
            rw (failed, run_command)
              (error_reply_sobj-Replied w' id (some (s.new_int (out.number e))) result number)
        | inl ok ↦
            let there : is_some result ≡ true = ground (arith, ok, gives command.func t a w) in
            let (r, built, at, res, err, other) =
              rpc_10_build_reply_lem id result none (ground (arith, there)) number in
            rw (ok, built, run_command) (at, other)
      ]

  find_command-Replied :
      (w : Subs) (engine : ℕ) (id : Option s.Obj) (o : s.Obj) (u v : CString)
      → ((f : ℕ) (t : Target) (a : Option s.Obj) (x : Subs)
          → (not (is_done (out.run f t a x).1) || is_some (out.run f t a x).2) ≡ true)
      → ((name : CString) (p : ℕ)
          → vde_context_get_component w.world name ≡ some p
          → is_some (w.world.heap p) ≡ true)
      → absent_or id int_type ≡ true
      → Replied id (find_command out w engine id o u v)
  unfolding find_command
  find_command-Replied w engine id o u v gives live number =
      elim (Option-cases (vde_context_get_component w.world u)) [
        | inl e ↦ rw (e, find_command) (error_reply-Replied w id enoent out.no_component number)
        | inr (p, e) ↦ elim (Option-cases (w.world.heap p)) [
          | inl lost ↦ cc (lost, live u p e)
          | inr (c, here) ↦ elim (Option-cases (vde_component_command_get w.world.quarks c v)) [
            | inl none_such ↦
                rw (e, here, none_such, find_command)
                  (error_reply-Replied w id enoent out.no_command number)
            | inr (command, found) ↦
                rw (e, here, found, find_command)
                  (run_command-Replied w engine p id o command gives number)
          ]
        ]
      ]

  -- What reply_to does with the name of a method.
  split :
      (a b : Bool) (w : Subs) (engine : ℕ) (o : s.Obj) (path : CString)
      → ((f : ℕ) (t : Target) (args : Option s.Obj) (x : Subs)
          → (not (is_done (out.run f t args x).1) || is_some (out.run f t args x).2) ≡ true)
      → ((name : CString) (p : ℕ)
          → vde_context_get_component w.world name ≡ some p
          → is_some (w.world.heap p) ≡ true)
      → absent_or (s.hash_lookup o Key.id) int_type ≡ true
      → Replied (s.hash_lookup o Key.id) (elim (check_split_path a b path) [
        | inl e ↦ error_reply out w (s.hash_lookup o Key.id) einval out.bad_path
        | inr (u, v) ↦ find_command out w engine (s.hash_lookup o Key.id) o u v
      ])
  split a b w engine o path gives live number = elim (Split-cases (check_split_path a b path)) [
    | inl (e, bad) ↦
        rw bad (error_reply-Replied w (s.hash_lookup o Key.id) einval out.bad_path number)
    | inr ((u, v), parts) ↦
        rw parts (find_command-Replied w engine (s.hash_lookup o Key.id) o u v gives live number)
  ]

  -- Where a command that succeeds leaves an object, and every component that a name finds is in the
  -- heap: each string that arrives gets one reply. It has the id of the call, or NULL where the string
  -- is not a call, and it is not a call itself.
  pub reply_to-Replied :
      (a b : Bool) (w : Subs) (engine : ℕ) (string : CString)
      → ((f : ℕ) (t : Target) (args : Option s.Obj) (x : Subs)
          → (not (is_done (out.run f t args x).1) || is_some (out.run f t args x).2) ≡ true)
      → ((name : CString) (p : ℕ)
          → vde_context_get_component w.world name ≡ some p
          → is_some (w.world.heap p) ≡ true)
      → Replied (id_of string) (reply_to out a b w engine string)
  unfolding reply_to
  reply_to-Replied a b w engine string gives live = elim (Option-cases (out.from_string string)) [
    | inl e ↦ rw (e, reply_to, id_of) (error_reply-Replied w none einval out.not_parsed refl)
    | inr (o, e) ↦ elim (Bool-cases (rpc_10_sobj_validate_call o)) [
      | inr bad ↦
          rw (e, bad, reply_to, id_of) (error_reply-Replied w none einval out.not_a_call refl)
      | inl good ↦
          let call = (validate_call-IsMethodCall o).0 good in
          let number : absent_or (s.hash_lookup o Key.id) int_type ≡ true =
            rw (call.id_at) (call.id_type) in
          rw (e, good, call.method_at, reply_to, id_of)
            (split a b w engine o (s.get_string call.method) gives live number)
    ]
  ]
