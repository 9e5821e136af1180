-- ===== src/Local/Connect/Laws.antt =====
-- vde_connect_engines_unqueued on every branch.
use vde.Base.{ℕ, ◌≡◌}
use vde.Local.{Local, Callbacks}
use vde.Local.Connect.{NewConn}

module _ {S : Type 0} where
  -- The ends and the connections are the same.
  pub record SameEnds (s s' : Local S) : Type 0 where
    pub ends : (a : ℕ) → s'.ends a ≡ s.ends a
    pub end_of : (k : ℕ) → s'.end_of k ≡ s.end_of k

  -- Engines leave the ends to localconnection.c.
  pub record LeaveEnds (user : Callbacks S) (new_conn : NewConn S) : Type 0 where
    pub by_error : (conn : ℕ) (s : Local S) → SameEnds s (user.call_error conn s).0
    pub by_new : (engine conn req : ℕ) (s : Local S) → SameEnds s (new_conn engine conn req s).0
