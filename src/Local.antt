-- ===== src/Local.antt =====
-- localconnection.c: two connections joined in memory, each the peer of the other. What the callbacks of
-- the connections do is a parameter.
pub mod Laws
pub mod Connect
pub mod Tests
use vde.Base.{
  ℕ, zero, suc, Bool, true, false, Option, none, some, ◌==◌, if◌then◌else◌, Status, done, fail,
  epipe,
}
use vde.Packet.{Pkt}
use vde.Vde2.{is_epipe}

-- vde_lc
pub record LocalEnd : Type 0 where
  pub conn : ℕ
  pub peer : Option ℕ

-- The ends by their addresses, and by the connection that has them as private data.
pub record Local (S : Type 0) : Type 0 where
  pub ends : ℕ → Option LocalEnd
  pub end_of : ℕ → Option ℕ
  pub rest : S

-- A call that returns, one that follows NULL or a pointer to what is freed, or one with too little fuel.
pub data Ran (A : Type 0) : Type 0 where
  crashed : Ran A
  out_of_fuel : Ran A
  ran : A → Ran A

-- The callbacks for a packet and for an error, by the address of the connection.
pub record Callbacks (S : Type 0) : Type 0 where
  pub call_read : ℕ → Pkt → Local S → Local S × Status
  pub call_error : ℕ → Local S → Local S × Status

abbrev pub with_end {ℓ} : {A : Type ℓ} → Option (ℕ × LocalEnd) → A → (ℕ → LocalEnd → A) → A
with_end none crash f = crash
with_end (some (a, e)) crash f = f a e

module _ {S : Type 0} where
  abbrev pub put_end : ℕ → Option LocalEnd → Local S → Local S
  put_end a e s = record s { ends = λ b. if a == b then e else s.ends b }

  -- vde_connection_delete
  abbrev pub forget_conn : ℕ → Local S → Local S
  forget_conn conn s = record s { end_of = λ k. if conn == k then none else s.end_of k }

  -- The end of a connection, which is looked up by its private data, and its address.
  unfoldable pub own_end : Local S → ℕ → Option (ℕ × LocalEnd)
  own_end s conn = elim (s.end_of conn) [
    | none ↦ none
    | some a ↦ elim (s.ends a) [ none ↦ none | some e ↦ some (a, e) ]
  ]

  -- The end that is behind a pointer. The source reads peer->conn before it tests peer.
  unfoldable pub follow : Local S → Option ℕ → Option (ℕ × LocalEnd)
  follow s none = none
  follow s (some b) = elim (s.ends b) [ none ↦ none | some e ↦ some (b, e) ]

  module _ (user : Callbacks S) where
    -- `vde_connection_fini(conn); vde_connection_delete(conn)`, by what closes an end.
    abbrev pub finish : (ℕ → Local S → Ran (Local S)) → ℕ → Local S → Ran (Local S)
    finish close conn s = elim (close conn s) [
      | crashed ↦ crashed
      | out_of_fuel ↦ out_of_fuel
      | ran s' ↦ ran (forget_conn conn s')
    ]

    -- The end of vde_lc_close: the connection of the peer has been told.
    unfoldable pub after_error :
        (ℕ → Local S → Ran (Local S)) → ℕ → ℕ → Local S × Status → Ran (Local S)
    after_error close a peer_conn (s, st) =
        if is_epipe st
        then (elim (finish close peer_conn s) [
          | crashed ↦ crashed
          | out_of_fuel ↦ out_of_fuel
          | ran s' ↦ ran (put_end a none s')
        ])
        else ran (put_end a none s)

    unfoldable pub vde_lc_close : ℕ → ℕ → Local S → Ran (Local S)
    unfolding own_end follow after_error
    vde_lc_close zero conn s = out_of_fuel
    vde_lc_close (suc fuel) conn s = with_end (own_end s conn) crashed (λ a e.
        with_end (follow s e.peer) crashed (λ b p.
          after_error (vde_lc_close fuel) a p.conn
            (user.call_error p.conn (put_end b (some (record p { peer = none })) s))))

    unfoldable pub after_call_read : ℕ → ℕ → Local S × Status → Ran (Local S × Status)
    unfolding vde_lc_close
    after_call_read fuel peer_conn (s, done) = ran (s, done)
    after_call_read fuel peer_conn (s, fail e) =
        if is_epipe (fail e)
        then (elim (finish (vde_lc_close fuel) peer_conn s) [
          | crashed ↦ crashed
          | out_of_fuel ↦ out_of_fuel
          | ran s' ↦ ran (s', fail e)
        ])
        else ran (s, fail e)

    unfoldable pub vde_lc_write : ℕ → ℕ → Pkt → Local S → Ran (Local S × Status)
    unfolding own_end follow after_call_read
    vde_lc_write fuel conn pkt s = with_end (own_end s conn) crashed (λ a e.
        with_end (follow s e.peer) crashed
          (λ b p. after_call_read fuel p.conn (user.call_read p.conn pkt s)))
