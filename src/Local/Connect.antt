-- ===== src/Local/Connect.antt =====
-- localconnection.c: vde_connect_engines_unqueued, without the assertions, of which the one on the payload size
-- would always fail.
pub mod Laws
pub mod Tests
use vde.Base.{ℕ, Bool, Option, none, some, ◌==◌, if◌then◌else◌, Status, done, fail}
use vde.Vde2.{is_epipe}
use vde.Local.{
  Local, LocalEnd, Ran, crashed, out_of_fuel, ran, Callbacks, put_end, finish, vde_lc_close,
}

-- What is returned. Where an engine refuses, errno is a variable that nothing has set.
pub data Joined : Type 0 where
  connected : Joined
  no_memory : Joined
  errno_unset : Joined

-- What vde_engine_new_connection does, by the engine, the connection and the request.
abbrev pub NewConn : Type 0 → Type 0
NewConn S = ℕ → ℕ → ℕ → Local S → Local S × Status

module _ {S : Type 0} where
  -- free(lc): what is not there any more cannot be freed.
  abbrev pub free_end : ℕ → Local S → Ran (Local S)
  free_end a s = elim (s.ends a) [ none ↦ crashed | some e ↦ ran (put_end a none s) ]

  -- The labels err_lc2 and err_lc1.
  unfoldable pub free_both : ℕ → ℕ → Local S → Ran (Local S × Joined)
  free_both lc1 lc2 s = elim (free_end lc2 s) [
    | crashed ↦ crashed
    | out_of_fuel ↦ out_of_fuel
    | ran s2 ↦ elim (free_end lc1 s2) [
      | crashed ↦ crashed
      | out_of_fuel ↦ out_of_fuel
      | ran s1 ↦ ran (s1, errno_unset)
    ]
  ]

  -- Both ends are filled in, and both connections initialized.
  unfoldable pub join_ends : ℕ → ℕ → ℕ → ℕ → Local S → Local S
  join_ends lc1 lc2 c1 c2 s = record s {
    ends = λ a.
        if lc1 == a
        then some (record { conn = c1; peer = some lc2 })
        else if lc2 == a
        then some (record { conn = c2; peer = some lc1 })
        else s.ends a;
    end_of = λ k. if c1 == k then some lc1 else if c2 == k then some lc2 else s.end_of k;
  }

  -- `error_set` is whether the error callback of a connection is set: an engine that refuses a connection may
  -- not have set it.
  module _ (user : Callbacks S) (new_conn : NewConn S) (error_set : ℕ → Local S → Bool)
      (fuel : ℕ) where
    -- The label err_eng1: the first engine is told that its connection is closed. Closing it calls the
    -- error callback of the second connection, which may be NULL.
    unfoldable pub undo_first : ℕ → ℕ → ℕ → ℕ → Local S → Ran (Local S × Joined)
    unfolding free_both
    undo_first lc1 lc2 c1 c2 s =
        let (s', st) = user.call_error c1 s in
        if is_epipe st
        then if error_set c2 s'
          then (elim (finish user (vde_lc_close user fuel) c1 s') [
            | crashed ↦ crashed
            | out_of_fuel ↦ out_of_fuel
            | ran s2 ↦ free_both lc1 lc2 s2
          ])
          else crashed
        else free_both lc1 lc2 s'

    unfoldable pub second_engine : ℕ → ℕ → ℕ → ℕ → ℕ → ℕ → Local S → Ran (Local S × Joined)
    unfolding undo_first
    second_engine lc1 lc2 c1 c2 engine2 req2 s =
        let (s', st) = new_conn engine2 c2 req2 s in
        elim st [ done ↦ ran (s', connected) | fail e ↦ undo_first lc1 lc2 c1 c2 s' ]

    -- `lc1` and `lc2` are what vde_calloc returns; `c1` and `c2` the new connections.
    unfoldable pub vde_connect_engines_unqueued :
        Option ℕ → Option ℕ → ℕ → ℕ → ℕ → ℕ → ℕ → ℕ → Local S → Ran (Local S × Joined)
    unfolding second_engine join_ends
    vde_connect_engines_unqueued none lc2 c1 c2 engine1 req1 engine2 req2 s = ran (s, no_memory)
    vde_connect_engines_unqueued (some lc1) none c1 c2 engine1 req1 engine2 req2 s =
        ran (s, no_memory)
    vde_connect_engines_unqueued (some lc1) (some lc2) c1 c2 engine1 req1 engine2 req2 s =
        let (s1, st) = new_conn engine1 c1 req1 (join_ends lc1 lc2 c1 c2 s) in
        elim st [
          | done ↦ second_engine lc1 lc2 c1 c2 engine2 req2 s1
          | fail e ↦ free_both lc1 lc2 s1
        ]
