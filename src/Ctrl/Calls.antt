-- ===== src/Ctrl/Calls.antt =====
-- ctrl_engine_deserialize_string of engine_ctrl.c, with is_builtin: a string that arrived is a call of a
-- command of some component, and it is replied to. The parser of json-c and the commands, which are
-- reached through function pointers, are parameters.
pub mod Laws
pub mod Keeps
pub mod Tests
use vde.Base.{
  ℕ, Bool, true, false, Option, none, some, List, [], ◌∷◌, ◌==◌, not, ◌&&◌, ◌||◌, if◌then◌else◌,
  CString, Status, done, fail, Errno, einval, enoent, inl, inr, take, length, ◌==s◌,
}
use vde.Base.Int.{ℤ}
use vde.Glib.{Glib}
use vde.Packet.{Pkt}
use vde.Component.{Component, Command}
use vde.Component.Commands.{vde_component_command_get}
use vde.Context.Life.{vde_context_get_component}
use vde.Ctrl.Paths.{check_split_path}
use vde.Ctrl.Subscribe.{Subs}
use vde.Ctrl.Rpc.{
  rpc_10_build_reply, rpc_xx_build_error_reply_sobj, rpc_xx_build_error_reply,
  rpc_10_sobj_validate_call,
}
use vde.Sobj.{Sobj}
use vde.Ctrl.Rpc.Key
use vde.Ctrl.Write.{ctrl_engine_conn_write}

-- "notify_add" and "notify_del"
abbrev pub builtin_commands : List CString
builtin_commands =
    (b'n' ∷ b'o' ∷ b't' ∷ b'i' ∷ b'f' ∷ b'y' ∷ b'_' ∷ b'a' ∷ b'd' ∷ b'd' ∷ [])
    ∷ (b'n' ∷ b'o' ∷ b't' ∷ b'i' ∷ b'f' ∷ b'y' ∷ b'_' ∷ b'd' ∷ b'e' ∷ b'l' ∷ [])
    ∷ []

-- strncmp over the length of the builtin name: it is a prefix.
pub has_prefix : List CString → CString → Bool
has_prefix [] name = false
has_prefix (b ∷ bs) name = (take (length b) name ==s b) || has_prefix bs name

pub is_builtin : Command → Bool
unfolding has_prefix
is_builtin command = has_prefix builtin_commands command.name

-- Whom a command is given: a component, or the connection instead of it.
pub data Target : Type 0 where
  the_component : ℕ → Target
  the_connection : Target

-- What is called from outside: the parser, the printer, the commands, which may change the program and the
-- signals that the connection has registered, with the object that they leave, and the
-- numbers of errno. The messages are those of the source.
pub record Outside ⦃g : Glib⦄ ⦃s : Sobj⦄ : Type 0 where
  pub from_string : CString → Option s.Obj
  pub run : ℕ → Target → Option s.Obj → Subs → Subs × Status × Option s.Obj
  pub number : Errno → ℤ
  pub to_string : s.Obj → Option CString
  pub not_parsed : CString
  pub not_a_call : CString
  pub bad_path : CString
  pub no_component : CString
  pub no_command : CString

module _ ⦃g : Glib⦄ ⦃s : Sobj⦄ (out : Outside) where
  -- `none` is a reply that a failed assertion has prevented.
  pub answer : Option s.Obj → Subs → Option (Subs × s.Obj)
  answer none w = none
  answer (some r) w = some (w, r)

  pub error_reply : Subs → Option s.Obj → Errno → CString → Option (Subs × s.Obj)
  unfolding answer
  error_reply w id e msg = answer (rpc_xx_build_error_reply id (out.number e) msg) w

  pub run_command : Subs → ℕ → Option s.Obj → s.Obj → ℕ → Command → Option (Subs × s.Obj)
  unfolding answer is_builtin
  run_command w engine id in_sobj p command =
      let target =
        if (p == engine) && is_builtin command then the_connection else the_component p in
      let (w', rv, out_sobj) = out.run command.func target (s.hash_lookup in_sobj Key.params) w in
      elim rv [
        | done ↦ answer (rpc_10_build_reply id out_sobj none) w'
        | fail e ↦
            answer (rpc_xx_build_error_reply_sobj id (some (s.new_int (out.number e))) out_sobj) w'
      ]

  pub find_command : Subs → ℕ → Option s.Obj → s.Obj → CString → CString → Option (Subs × s.Obj)
  unfolding error_reply run_command
  find_command w engine id in_sobj component_name command_name =
      elim (vde_context_get_component w.world component_name) [
        | none ↦ error_reply w id enoent out.no_component
        | some p ↦ elim (w.world.heap p) [
          | none ↦ none
          | some c ↦ elim (vde_component_command_get w.world.quarks c command_name) [
            | none ↦ error_reply w id enoent out.no_command
            | some command ↦ run_command w engine id in_sobj p command
          ]
        ]
      ]

  -- The reply that is written: one for each string. `engine` is the component of the control engine.
  pub reply_to : Bool → Bool → Subs → ℕ → CString → Option (Subs × s.Obj)
  unfolding find_command error_reply
  reply_to name_alloc path_alloc w engine string = elim (out.from_string string) [
    | none ↦ error_reply w none einval out.not_parsed
    | some in_sobj ↦
        if not (rpc_10_sobj_validate_call in_sobj)
        then error_reply w none einval out.not_a_call
        else elim (s.hash_lookup in_sobj Key.method) [
          | none ↦ none
          | some method ↦
              let mesg_id = s.hash_lookup in_sobj Key.id in
              elim (check_split_path name_alloc path_alloc (s.get_string method)) [
                | inl e ↦ error_reply w mesg_id einval out.bad_path
                | inr (component_name, command_name) ↦
                    find_command w engine mesg_id in_sobj component_name command_name
              ]
        ]
  ]

  -- The connection of the string has a payload size, a queue and a state that `send` changes.
  pub ctrl_engine_deserialize_string :
      {C : Type 0}
      → (Pkt → C → C × Status)
      → (ℕ → Bool)
      → ℕ
      → Bool
      → Bool
      → ℕ
      → CString
      → Subs
      → List Pkt
      → C
      → Option (Subs × List Pkt × C)
  unfolding reply_to
  ctrl_engine_deserialize_string send alloc payload_sz name_alloc path_alloc engine string w queue
        c =
      elim (reply_to name_alloc path_alloc w engine string) [
        | none ↦ none
        | some (w', reply) ↦
            elim (ctrl_engine_conn_write send alloc payload_sz (out.to_string reply) queue c) [
              | none ↦ none
              | some (queue', c', sent) ↦ some (w', queue', c')
            ]
      ]
