-- ===== src/Local/Connect/Tests.antt =====
-- Two engines that are connected: the theorems at their inputs.
use vde.Base.{ℕ, ◌==◌, if◌then◌else◌, none, List, [], ◌∷◌, done, fail, epipe}
use vde.Local.{Local, Callbacks}
use vde.Local.Connect.{NewConn}

abbrev empty : Local (List ℕ)
empty = record { ends = λ a. none; end_of = λ k. none; rest = [] }

abbrev engine : Callbacks (List ℕ)
engine = record {
  call_read = λ conn pkt s. (record s { rest = conn ∷ s.rest }, done);
  call_error = λ conn s. (record s { rest = conn ∷ s.rest }, fail epipe);
}

abbrev accepts : NewConn (List ℕ)
accepts e conn req s = (s, done)

-- Engine 2 accepts no connection.
abbrev only_first : NewConn (List ℕ)
only_first e conn req s = (s, if e == 1 then done else fail epipe)
