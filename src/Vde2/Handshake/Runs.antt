-- ===== src/Vde2/Handshake/Runs.antt =====
-- A transport that accepts a connection and reads its request: the theorem on its states at these inputs.
use vde.Base.{
  ℕ, ◌≡◌, refl, true, none, some, [], ◌∷◌, ◌==◌, done, fail, enoent, epipe, eagain, arith,
}
use vde.Base.Int.{pos}
use vde.Glib.Instance.{glib}
use vde.Vde2.{error}
use vde.Vde2.Handshake.{
  Backend, Event, Sys, get_request, send_request, request, Vde2Request, switch_magic,
  zeroed_backend, vde2_accept, vde2_srv_get_request, await_reply, put_conn, event_del, ctl_closed,
}
use vde.Vde2.Handshake.Stages.{fits}
use vde.Vde2.Handshake.Traffic.{Surroundings, fire, no_more}
use vde.Vde2.Handshake.Fired.{IsUser}
use vde.Vde2.Handshake.Reach.{Reached, started, accepted, fired, fire-Reached}

abbrev idle : Sys
idle = record {
  tr = record {
    vdesock_dir = b'd' ∷ [];
    listen_fd = pos 3;
    listen_event = some 1;
    connections = 0;
    pending_conns = [];
  };
  conns = λ a. none;
  events = λ h. none;
  files = λ n. n == 3;
}

abbrev fine_request : Vde2Request
fine_request = record { magic = switch_magic; version = 3; sun_path = b'p' ∷ [] }

-- The users write nothing, and the socket takes no packet.
abbrev around : Surroundings ℕ
around = record {
  got = request fine_request;
  access = λ p. true;
  room = true;
  event = some 4;
  answers = record {
    socket = some 8;
    nonblock = true;
    unlink = fail enoent;
    bind = true;
    write = true;
    ctl_event = some 5;
    data_event = some 6;
  };
  path_of = λ dir n. dir;
  accept_cb = λ conn s. s;
  got_ctl = ctl_closed;
  call_error = λ s. (s, fail epipe);
  head_sz = 4;
  tail_sz = 0;
  len = pos 60;
  call_read = λ n s. (s, done);
  sock = record {
    sendto = λ p u. (u, error eagain);
    call_write = λ p q u. (q, u, done);
    call_error = λ p e q u. (q, u, done);
  };
  maxtries = 10;
  user = 0;
}

around-IsUser : IsUser around (λ u. 0)
around-IsUser = record {
  accepts = λ conn s. no_more;
  errors = λ s. no_more;
  reads = λ n s. no_more;
  bounded = record {
    sends = λ p u. omega arith;
    writes = λ p q u. ([], refl, omega arith, refl);
    errors = λ p e q u. ([], refl, omega arith, refl);
  };
}

abbrev waiting : Sys
waiting = vde2_accept (some 7) true (some 50) (some 9) (some 2) idle

abbrev first_event : Event
first_event = record { fd = pos 7; handler = get_request; arg = 9 }

abbrev reply_event : Event
reply_event = record { fd = pos 7; handler = send_request; arg = 9 }

abbrev pending_conn : Backend
pending_conn = record zeroed_backend { ctl_fd = pos 7; conn = 50 }

-- The state when the request has been read.
abbrev asked : Sys
asked =
    await_reply (some 4) 9 pending_conn fine_request
      (put_conn 9 (some pending_conn) (event_del (some 2) waiting))

asks : fire around 4193 first_event waiting ≡ some asked
unfolding fire vde2_srv_get_request vde2_accept
asks = refl

asked-Reached : Reached ℕ asked
unfolding vde2_accept
asked-Reached =
    fired around (λ u. 0) 4193 2 first_event
      (accepted (some 7) true (some 50) (some 9) (some 2)
        (started {s = idle} (λ a. refl) (λ h. refl)) (λ a e. refl))
      around-IsUser (omega arith) refl asks

asked-reply : asked.events 4 ≡ some reply_event
unfolding vde2_accept
asked-reply = refl

vde2_reached_example :
    (c : Backend) × (asked.conns 9 ≡ some c)
    × (fits send_request c 4 ≡ true)
    × (s' : Sys) × (fire around 4193 reply_event asked ≡ some s')
    × Reached ℕ s'
vde2_reached_example =
    fire-Reached around (λ u. 0) 4193 4 reply_event asked-Reached around-IsUser (omega arith)
      asked-reply
