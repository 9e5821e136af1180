-- ===== src/Local/Laws.antt =====
-- localconnection.c: a packet written to one end is read at the other, and what closing an end does.
use vde.Base.{
  Status, ℕ, suc, ◌≡◌, false, none, some, if◌then◌else◌, arith, Status-cases, Bool-cases, inl, inr,
}
use vde.Packet.{Pkt}
use vde.Vde2.{is_epipe}
use vde.Local.{
  Local, crashed, ran, Callbacks, put_end, own_end, follow, after_error, vde_lc_close,
  after_call_read, vde_lc_write,
}

module _ {S : Type 0} where
  -- Two connections are joined.
  pub record AreJoined (s : Local S) (conn peer_conn a b : ℕ) : Type 0 where
    pub here : s.end_of conn ≡ some a
    pub there : s.end_of peer_conn ≡ some b
    pub own : s.ends a ≡ some (record { conn = conn; peer = some b })
    pub other : s.ends b ≡ some (record { conn = peer_conn; peer = some a })

  module _ (user : Callbacks S) where
    -- A packet that is written to a connection is read by the user of the one that it is joined to, once
    -- and at once, and the answer is returned, if it is not EPIPE.
    pub vde_lc_write-call_read :
        (fuel conn peer_conn a b : ℕ) (pkt : Pkt) (s : Local S)
        → AreJoined s conn peer_conn a b
        → is_epipe (user.call_read peer_conn pkt s).1 ≡ false
        → vde_lc_write user fuel conn pkt s ≡ ran (user.call_read peer_conn pkt s)
    unfolding vde_lc_write own_end follow after_call_read
    vde_lc_write-call_read fuel conn peer_conn a b pkt s j open_yet =
        elim (Status-cases (user.call_read peer_conn pkt s).1) [
          | inl ok ↦ ground (arith, j.here, j.own, j.other, ok)
          | inr (e, bad) ↦ ground (arith, j.here, j.own, j.other, bad, open_yet)
        ]

    -- What the user of the other connection answers, once it has no peer.
    abbrev pub told_of : ℕ → ℕ → Local S → Local S × Status
    told_of peer_conn b s =
        user.call_error peer_conn (put_end b (some (record { conn = peer_conn; peer = none })) s)

    -- Closing a connection tells the user of the other one, which has no peer any more. Where that answers
    -- with EPIPE, as engines do, and leaves its end alone, the call follows a NULL pointer, with any fuel
    -- above 1; else the end is gone and what the user left stays.
    pub vde_lc_close_lem :
        (fuel conn peer_conn a b : ℕ) (s : Local S)
        → AreJoined s conn peer_conn a b
        → (told_of peer_conn b s).0.end_of peer_conn ≡ some b
        → (told_of peer_conn b s).0.ends b ≡ some (record { conn = peer_conn; peer = none })
        → vde_lc_close user (suc (suc fuel)) conn s ≡ (
            if is_epipe (told_of peer_conn b s).1
            then crashed
            else ran (put_end a none (told_of peer_conn b s).0))
    unfolding vde_lc_close own_end follow after_error
    vde_lc_close_lem fuel conn peer_conn a b s j still kept =
        let r = told_of peer_conn b s in
        elim (Bool-cases (is_epipe r.1)) [
          | inl closes ↦ ground (arith, j.here, j.own, j.other, still, kept, closes)
          | inr open_yet ↦ ground (arith, j.here, j.own, j.other, open_yet)
        ]
