-- ===== src/Vde2/Listen.antt =====
-- transport_vde2.c: vde2_listen, with vde2_remove_sock_if_unused, and transport_vde2_init. What the system
-- calls return is a parameter; the files that they make and remove are not part of the state.
pub mod Laws
use vde.Base.{
  ◌||◌, not, ebusy, enoent, epipe, eagain, enospc, ebadmsg, other, ◌-◌, ◌&&◌, ℕ, ◌≡◌, refl, Bool,
  true, false, Option, none, some, [], ◌∷◌, ◌==◌, ltb, ◌⊎◌, inl, inr, if◌then◌else◌, CString,
  Status, Errno, done, fail, is_done, einval, enomem, eexist, econnrefused, eaddrinuse, length,
  arith, Status-cases,
}
use vde.Base.Int.{ℤ, pos, negsuc}
use vde.Sobj.{Sobj, hash_type, string_type}
use vde.Vde2.Handshake.{Vde2Tr, Sys, set_file, close_fd}

-- `late` is errno after vde2_remove_sock_if_unused has found the socket in use; `test` is what its connect
-- returns, none where it has no socket to test with.
pub record ListenAnswers : Type 0 where
  pub socket : Errno ⊎ ℕ
  pub reuse : Status
  pub nonblock : Status
  pub mkdir : Status
  pub bind : Status
  pub test : Option Status
  pub late : Errno
  pub bind_again : Status
  pub listen : Status
  pub event : Option ℕ

-- A nonzero return, that the socket is in use, is `true`.
abbrev pub vde2_remove_sock_if_unused : Option Status → Bool
vde2_remove_sock_if_unused (some (fail econnrefused)) = false
vde2_remove_sock_if_unused (some (fail _)) = true
vde2_remove_sock_if_unused (some done) = true
vde2_remove_sock_if_unused none = true

abbrev pub made_directory : Status → Status
made_directory (fail eexist) = done
made_directory (fail e) = fail e
made_directory done = done

-- Both calls of bind.
abbrev pub bind_path : Status → Option Status → Errno → Status → Status
bind_path done test late bind_again = done
bind_path (fail eaddrinuse) test late bind_again =
    if vde2_remove_sock_if_unused test then fail late else bind_again
bind_path (fail _) test late bind_again = bind_again

abbrev pub then_status : Status → Status → Status
then_status done st = st
then_status (fail e) st = fail e

-- The first call that fails.
abbrev pub prepared : ListenAnswers → Status
prepared ans = then_status ans.reuse (
    then_status ans.nonblock (
      then_status (made_directory ans.mkdir)
        (then_status (bind_path ans.bind ans.test ans.late ans.bind_again) ans.listen)))

unfoldable pub vde2_listen : ListenAnswers → Sys → Sys × Status
vde2_listen ans s = elim ans.socket [
  | inl e ↦ (record s { tr = record s.tr { listen_fd = negsuc 0 } }, fail e)
  | inr fd ↦ elim (prepared ans) [
    | done ↦ (
      record (set_file fd true s) {
        tr = record s.tr { listen_fd = pos fd; listen_event = ans.event };
      },
      done,
    )
    | fail e ↦ (
      record (close_fd (pos fd) (set_file fd true s)) { tr = record s.tr { listen_fd = negsuc 0 } },
      fail e,
    )
  ]
]

-- UNIX_PATH_MAX, the size of sun_path
abbrev pub unix_path_max : ℕ
unix_path_max = 108

abbrev pub path_key : CString
path_key = b'p' ∷ b'a' ∷ b't' ∷ b'h' ∷ []

abbrev new_tr : CString → Vde2Tr
new_tr path = record {
  vdesock_dir = path;
  listen_fd = pos 0;
  listen_event = none;
  connections = 0;
  pending_conns = [];
}

-- `calloc` and `strdup` say whether they find memory.
module _ ⦃j : Sobj⦄ where
  unfoldable pub with_path : Bool → Bool → CString → Option Vde2Tr × Status
  with_path calloc strdup path =
      if ltb (unix_path_max - 4) (length path)
      then (none, fail einval)
      else if calloc && strdup
      then (some (new_tr path), done)
      else (none, fail enomem)

  unfoldable pub path_of_params : Option j.Obj → Option CString
  path_of_params none = none
  path_of_params (some params) =
      if j.is_type params hash_type
      then elim (j.hash_lookup params path_key) [
        | none ↦ none
        | some o ↦ if j.is_type o string_type then some (j.get_string o) else none
      ]
      else none

  -- The private data of the component, and what is returned.
  unfoldable pub transport_vde2_init : Bool → Bool → Option j.Obj → Option Vde2Tr × Status
  unfolding with_path path_of_params
  transport_vde2_init calloc strdup params = elim (path_of_params params) [
    | none ↦ (none, fail einval)
    | some path ↦ with_path calloc strdup path
  ]
