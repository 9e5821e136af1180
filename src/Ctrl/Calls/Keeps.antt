-- ===== src/Ctrl/Calls/Keeps.antt =====
-- What the commands keep true is true after a reply.
use vde.Base.{
  List, refl, ℕ, ◌≡◌, Bool, Option, none, some, ◌==◌, ◌&&◌, if◌then◌else◌, CString, Errno, einval,
  enoent, inl, inr, Option-cases, Bool-cases, Status-cases, Status,
}
use vde.Glib.{Glib}
use vde.Sobj.{Sobj}
use vde.Packet.{Pkt}
use vde.Ctrl.Write.{ctrl_engine_conn_write}
use vde.Component.{Command}
use vde.Component.Commands.{vde_component_command_get}
use vde.Context.Life.{vde_context_get_component}
use vde.Ctrl.Paths.{check_split_path}
use vde.Ctrl.Subscribe.{Subs}
use vde.Ctrl.Rpc.{
  rpc_10_build_reply, rpc_xx_build_error_reply_sobj, rpc_xx_build_error_reply,
  rpc_10_sobj_validate_call,
}
use vde.Ctrl.Rpc.Key
use vde.Ctrl.Calls.{
  Outside, Target, the_component, the_connection, is_builtin, answer, error_reply, run_command,
  find_command, reply_to, ctrl_engine_deserialize_string,
}
use vde.Ctrl.Calls.Laws.{Split-cases}

module _ ⦃g : Glib⦄ ⦃s : Sobj⦄ (out : Outside) (P : Subs → Type 0)
    (keep : (f : ℕ) (t : Target) (a : Option s.Obj) (w : Subs) → P w → P (out.run f t a w).0) where
  -- After a reply, if there is one.
  abbrev pub After : Option (Subs × s.Obj) → Type 0
  After none = Unit
  After (some (w, r)) = P w

  answer-After : (r : Option s.Obj) (w : Subs) → P w → After (answer out r w)
  unfolding answer
  answer-After none w p = tt
  answer-After (some r) w p = p

  error_reply-After :
      (w : Subs) (id : Option s.Obj) (e : Errno) (msg : CString)
      → P w
      → After (error_reply out w id e msg)
  unfolding error_reply
  error_reply-After w id e msg p = answer-After (rpc_xx_build_error_reply id (out.number e) msg) w p

  run_command-After :
      (w : Subs) (engine p : ℕ) (id : Option s.Obj) (o : s.Obj) (command : Command)
      → P w
      → After (run_command out w engine id o p command)
  unfolding run_command
  run_command-After w engine p id o command h =
      let t = if (p == engine) && is_builtin command then the_connection else the_component p in
      let a = s.hash_lookup o Key.params in
      let (w', rv, result) = out.run command.func t a w in
      let h' = keep command.func t a w h in
      elim (Status-cases rv) [
        | inl ok ↦ rw (ok, run_command) (answer-After (rpc_10_build_reply id result none) w' h')
        | inr (e, bad) ↦
            rw (bad, run_command)
              (answer-After
                (rpc_xx_build_error_reply_sobj id (some (s.new_int (out.number e))) result) w' h')
      ]

  find_command-After :
      (w : Subs) (engine : ℕ) (id : Option s.Obj) (o : s.Obj) (u v : CString)
      → P w
      → After (find_command out w engine id o u v)
  unfolding find_command
  find_command-After w engine id o u v h =
      elim (Option-cases (vde_context_get_component w.world u)) [
        | inl e ↦ rw (e, find_command) (error_reply-After w id enoent out.no_component h)
        | inr (p, e) ↦ elim (Option-cases (w.world.heap p)) [
          | inl lost ↦ rw (e, lost, find_command) tt
          | inr (c, here) ↦ elim (Option-cases (vde_component_command_get w.world.quarks c v)) [
            | inl no_such ↦
                rw (e, here, no_such, find_command) (error_reply-After w id enoent out.no_command h)
            | inr (command, found) ↦
                rw (e, here, found, find_command) (run_command-After w engine p id o command h)
          ]
        ]
      ]

  pub reply_to-After :
      (a b : Bool) (w : Subs) (engine : ℕ) (string : CString)
      → P w
      → After (reply_to out a b w engine string)
  unfolding reply_to
  reply_to-After a b w engine string h = elim (Option-cases (out.from_string string)) [
    | inl e ↦ rw (e, reply_to) (error_reply-After w none einval out.not_parsed h)
    | inr (o, e) ↦ elim (Bool-cases (rpc_10_sobj_validate_call o)) [
      | inr bad ↦ rw (e, bad, reply_to) (error_reply-After w none einval out.not_a_call h)
      | inl good ↦ elim (Option-cases (s.hash_lookup o Key.method)) [
        | inl no_method ↦ rw (e, good, no_method, reply_to) tt
        | inr (method, there) ↦ elim (Split-cases (check_split_path a b (s.get_string method))) [
          | inl (err, bad) ↦
              rw (e, good, there, bad, reply_to)
                (error_reply-After w (s.hash_lookup o Key.id) einval out.bad_path h)
          | inr ((u, v), parts) ↦
              rw (e, good, there, parts, reply_to)
                (find_command-After w engine (s.hash_lookup o Key.id) o u v h)
        ]
      ]
    ]
  ]

module _ ⦃g : Glib⦄ ⦃s : Sobj⦄ (out : Outside) where
  -- The reply is what is written.
  pub deserialize_string-reply :
      {C : Type 0} (send : Pkt → C → C × Status) (alloc : ℕ → Bool) (payload_sz : ℕ) (a b : Bool)
      (engine : ℕ) (string : CString) (w w' : Subs) (o : s.Obj) (queue queue' : List Pkt) (c c' : C)
      (sent : Bool)
      → reply_to out a b w engine string ≡ some (w', o)
      → ctrl_engine_conn_write send alloc payload_sz (out.to_string o) queue c
        ≡ some (queue', c', sent)
      → ctrl_engine_deserialize_string out send alloc payload_sz a b engine string w queue c
        ≡ some (w', queue', c')
  unfolding ctrl_engine_deserialize_string
  deserialize_string-reply send alloc payload_sz a b engine string w w' o queue queue' c c' sent
        replied written =
      rw (replied, ctrl_engine_deserialize_string) (rw written refl)
