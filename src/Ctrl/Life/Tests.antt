-- ===== src/Ctrl/Life/Tests.antt =====
-- A control engine with one connection that watches a signal of a hub: the theorems at their inputs.
use vde.Ctrl.Split.{is_empty}
use vde.Ctrl.Split.Laws.{glue, strings, passed}
use vde.Packet.{Pkt, bytes, payload_of}
use vde.Ctrl.Life.Handling.Packets.{RepliesToAll, seen_all, ctrl_engine_readcb-serves}
use vde.Ctrl.Life.Reading.{own}
use vde.Base.{
  ℕ, ◌≡◌, refl, suc, true, none, some, [], ◌∷◌, ◌==◌, if◌then◌else◌, done, fail, epipe, arith,
}
use vde.Glib.Instance.{glib}
use vde.Packet.Tests.{sent}
use vde.Connection.{Connection, Runner, zeroed_connection, conn_read_closed}
use vde.Ctrl.Subscribe.Tests.{watched_world, watched_world-AllValid, registrations}
use vde.Ctrl.Life.{
  Ctrl, CtrlConn, Addresses, ctrl_engine_newconn, ctrl_engine_errorcb, engine_ctrl_fini,
}
use vde.Ctrl.Life.Valid.{IsValid, ctrl_engine_newconn-IsValid}
use vde.Ctrl.Life.Ending.{Gone, ctrl_engine_errorcb-Answered}
use vde.Sobj.Instance.{sobj}
use vde.Ctrl.Calls.Tests.{outside}
use vde.Ctrl.Life.Reading.{Serves}
use vde.Ctrl.Life.Handling.Laws.{BehavesWell}
use vde.Ctrl.Life.Fini.{engine_ctrl_fini-dangles}

abbrev addresses : Addresses
addresses = record {
  readcb = 1;
  writecb = 2;
  errorcb = 3;
  signal_cb = 60;
  signal_destroy_cb = 61;
  name_alloc = λ p. true;
  path_alloc = λ p. true;
}

abbrev client : CtrlConn
client = record { conn = 30; inbuf = []; out_queue = []; reg_signals = registrations }

-- A connection of the context at address 9, whose callbacks are not set.
abbrev open_link : Connection
open_link = record zeroed_connection {
  context = some 9;
  max_pload = 100;
  be_write = some 6;
  be_close = some 5;
}

abbrev serving : Ctrl ℕ
serving = record {
  world = watched_world;
  engine = record { ctrl_conns = 62 ∷ []; component = 4 };
  ctrl_conns = λ a. if a == 62 then some client else none;
  conns = λ c. if c == 30 then some (record open_link { cb_priv = some 62 }) else some open_link;
  rest = 0;
}

serving-IsValid : IsValid serving
serving-IsValid = record {
  distinct = (refl, tt);
  attached = (
    record {
      entry = client;
      link = record open_link { cb_priv = some 62 };
      here = refl;
      linked = refl;
      mine = refl;
      inside = refl;
      usable = record { writes = refl; some_payload = omega arith; small_payload = omega arith };
      fits = omega arith;
    },
    tt,
  );
}

serving-Serves : Serves addresses 62 serving
serving-Serves = record {
  valid = serving-IsValid;
  live = λ name p e. refl;
  signals = watched_world-AllValid;
  listed = refl;
}

ctrl_newconn_example :
    (st : Ctrl ℕ) × (ctrl_engine_newconn addresses (some 63) 31 serving ≡ some (st, done))
    × IsValid st
ctrl_newconn_example =
    let r =
      ctrl_engine_newconn-IsValid addresses 63 31 open_link serving serving-IsValid refl refl refl
        refl (record { writes = refl; some_payload = omega arith; small_payload = omega arith }) in
    (r.0, r.1, r.2)

ctrl_errorcb_example :
    (st : Ctrl ℕ) × (ctrl_engine_errorcb addresses conn_read_closed 62 serving
      ≡ some (st, fail epipe))
    × Gone addresses 62 registrations serving st
ctrl_errorcb_example =
    ctrl_engine_errorcb-Answered addresses conn_read_closed 62 client serving serving-IsValid
      (λ name p e. refl) watched_world-AllValid refl refl

abbrev closing : Runner ℕ
closing = record {
  run_write = λ f p pkt s. (s, done);
  run_close = λ f p s. suc s;
  run_read_cb = λ f p pkt s. (s, done);
  run_write_cb = λ f p pkt s. (s, done);
  run_error_cb = λ f p pkt e s. (s, done);
}

outside-BehavesWell : BehavesWell outside addresses 62
outside-BehavesWell = record {
  gives = λ f t args w. refl;
  live = λ f t args w h. h;
  signals = λ f t args w h. h;
  self = λ f t args w. refl;
  prints = λ o. ([], refl, omega arith);
}

-- The payload is a string of one byte and the beginning of another.
abbrev one_string : Pkt
one_string = record sent { memory = bytes (0 ∷ 0 ∷ 5 ∷ 0 ∷ 7 ∷ []) }

ctrl_readcb_example :
    let inbuf = (own addresses 62 serving serving-Serves).entry.inbuf in
    let (ts, rest) = glue inbuf (strings (payload_of one_string)) in
    (mid : Ctrl ℕ) × RepliesToAll outside addresses 62 outside-BehavesWell closing
      (λ n. true)
      true
      true
      (λ n. refl)
      (seen_all outside addresses 62 outside-BehavesWell closing
        (λ n. true)
        true
        true
        (λ n. refl)
        (λ l. [])
        (passed (is_empty inbuf) ts))
      serving
      mid
ctrl_readcb_example =
    let r =
      ctrl_engine_readcb-serves outside addresses 62 outside-BehavesWell closing (λ n. true) true
        true (λ n. refl) (λ l. []) one_string serving serving-Serves in
    (r.0, r.1)

ctrl_fini_example : engine_ctrl_fini addresses closing serving ≡ none
ctrl_fini_example =
    engine_ctrl_fini-dangles addresses closing serving
      ((client, record open_link { cb_priv = some 62 }, 5, refl, refl, refl), tt)
