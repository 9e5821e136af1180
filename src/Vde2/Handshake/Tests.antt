-- ===== src/Vde2/Handshake/Tests.antt =====
-- A transport with a connection whose request is read: the theorems at their inputs.
use vde.Base.{
  ◌&&◌, ℕ, ◌≡◌, refl, Bool, true, none, some, [], ◌∷◌, ◌==◌, ltb, if◌then◌else◌, Status, done, fail,
  enoent, epipe, eexist, inr, arith, CString, is_done,
}
use vde.Base.Int.{pos}
use vde.Glib.Instance.{glib}
use vde.Sobj.Instance.{sobj}
use vde.Vde2.Handshake.{
  Backend, Sys, get_request, GotRequest, request, switch_magic, SendAnswers, zeroed_backend,
  vde2_srv_get_request, vde2_srv_send_request,
}
use vde.Vde2.Handshake.Owned.{IsOwned}
use vde.Vde2.Handshake.Outcomes.{is_servable, Requested, get_request-Requested}
use vde.Vde2.Handshake.Replies.{is_sent, Replied, send_request-Replied}
use vde.Vde2.Listen.Laws.{is_inr, can_listen, vde2_listen_lem}
use vde.Vde2.Listen.{ListenAnswers, vde2_listen}

abbrev accepted : Backend
accepted = record zeroed_backend { ctl_fd = pos 7; ctl_ev = some 2; conn = 50 }

abbrev here : Sys
here = record {
  tr = record {
    vdesock_dir = b'd' ∷ [];
    listen_fd = pos 3;
    listen_event = some 1;
    connections = 4;
    pending_conns = 5 ∷ [];
  };
  conns = λ a. if a == 5 then some accepted else none;
  events =
      λ h. if h == 2 then some (record { fd = pos 7; handler = get_request; arg = 5 }) else none;
  files = λ n. ltb n 8;
}

here-IsOwned : IsOwned here
here-IsOwned h = ground arith

-- A request with a wrong version: the connection is dropped, and descriptor 0 is closed.
abbrev wrong : GotRequest
wrong = request (record { magic = switch_magic; version = 2; sun_path = b'p' ∷ [] })

abbrev any_path : CString → Bool
any_path p = true

get_request_example :
    (s' : Sys) × (vde2_srv_get_request wrong any_path true (some 3) 5 here ≡ some s')
    × IsOwned s'
    × Requested wrong (is_servable any_path true wrong) (some 3) 5 accepted here s'
get_request_example =
    get_request-Requested wrong any_path true (some 3) 5 accepted here here-IsOwned refl

abbrev answers : SendAnswers
answers = record {
  socket = some 8;
  nonblock = true;
  unlink = fail enoent;
  bind = true;
  write = true;
  ctl_event = some 4;
  data_event = some 6;
}

abbrev path_of : CString → ℕ → CString
path_of dir n = dir

abbrev accept_cb : ℕ → Sys → Sys
accept_cb conn s = s

send_request_example :
    (s' : Sys) × (vde2_srv_send_request answers path_of accept_cb 5 here ≡ some s')
    × IsOwned s'
    × Replied (some 8) (is_sent answers) answers path_of accept_cb 5 accepted here s'
send_request_example =
    send_request-Replied answers path_of accept_cb 5 accepted here (λ conn t o. o) here-IsOwned refl
      refl

abbrev call_read : ℕ → Sys → Sys × Status
call_read n s = (s, if n == 20 then done else fail epipe)

abbrev calls : ListenAnswers
calls = record {
  socket = inr 9;
  reuse = done;
  nonblock = done;
  mkdir = fail eexist;
  bind = done;
  test = none;
  late = enoent;
  bind_again = done;
  listen = done;
  event = some 11;
}

listen_example : is_done (vde2_listen calls here).1 ≡ (is_inr calls.socket && can_listen calls)
listen_example = (vde2_listen_lem calls here).0
