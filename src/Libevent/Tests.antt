-- ===== src/Libevent/Tests.antt =====
-- A timeout of one second whose callback counts: the theorems at its inputs.
use vde.Base.{ℕ, true, none, some, suc, ◌+◌, ◌≡◌, refl}
use vde.Connection.{Timeval}
use vde.Libevent.{Handler, libevent_timeout_add, libevent_timeout_del}
use vde.Libevent.Model.{tables}
use vde.Libevent.Laws.{Same, timeout_del-add}
use vde.Libevent.Recurrence.{dispatch_times, timeout_add-recurs}

abbrev second : Timeval
second = record { tv_sec = 1; tv_usec = 0 }

abbrev idle : Handler ℕ
idle = record {
  loop = record { sets = λ a. none; armed = λ a. none };
  allocated = λ a. none;
  rtimeouts = λ a. none;
  timevals = λ a. none;
  rest = 0;
}

abbrev counting : ℕ → ℕ → Handler ℕ → Handler ℕ
counting cb arg h = record h { rest = suc h.rest }

timeout_add-recurs_example :
    (h1 h : Handler ℕ) × (libevent_timeout_add (some 1) (some 2) (some 3) second true 7 8 idle
      ≡ some (h1, some 2))
    × (dispatch_times counting 5 1 h1 ≡ some h)
    × (tables.pending h.loop 1 ≡ some (some second))
    × (h.rest ≡ 5 + 0)
timeout_add-recurs_example =
    timeout_add-recurs counting 1 2 3 7 8 second (λ n. n) 5 idle (λ k. refl)
      (λ h s. record {
        allocated = s.allocated;
        rtimeout = s.rtimeout;
        copy = s.copy;
        setup = s.setup;
      })

timeout_del-add_example :
    (h1 h : Handler ℕ) × (libevent_timeout_add (some 1) (some 2) (some 3) second true 7 8 idle
      ≡ some (h1, some 2))
    × (libevent_timeout_del 2 h1 ≡ some h)
    × Same idle h
timeout_del-add_example =
    let r = timeout_del-add 1 2 3 second true 7 8 idle refl refl refl refl in
    (r.0, r.1, r.2, r.3, r.4)
