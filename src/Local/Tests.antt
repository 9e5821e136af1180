-- ===== src/Local/Tests.antt =====
-- Two joined connections: the theorems at their inputs.
use vde.Base.{ℕ, ◌≡◌, refl, none, some, List, [], ◌∷◌, ◌==◌, if◌then◌else◌, done, fail, epipe}
use vde.Vde2.{is_epipe}
use vde.Local.{Local, Callbacks, crashed, ran, put_end, vde_lc_close}
use vde.Local.Laws.{AreJoined, told_of, vde_lc_close_lem}

-- Connection 1 has its end at 10, connection 2 at 20. The rest is the connections that were called.
abbrev pair : Local (List ℕ)
pair = record {
  ends = λ a.
      if a == 10
      then some (record { conn = 1; peer = some 20 })
      else if a == 20
      then some (record { conn = 2; peer = some 10 })
      else none;
  end_of = λ k. if k == 1 then some 10 else if k == 2 then some 20 else none;
  rest = [];
}

abbrev engine : Callbacks (List ℕ)
engine = record {
  call_read = λ conn pkt s. (record s { rest = conn ∷ s.rest }, done);
  call_error = λ conn s. (record s { rest = conn ∷ s.rest }, fail epipe);
}

pair-AreJoined : AreJoined pair 1 2 10 20
pair-AreJoined = record { here = refl; there = refl; own = refl; other = refl }

local_close_example : vde_lc_close engine 2 1 pair ≡ (
    if is_epipe (told_of engine 2 20 pair).1
    then crashed
    else ran (put_end 10 none (told_of engine 2 20 pair).0))
local_close_example = vde_lc_close_lem engine 0 1 2 10 20 pair pair-AreJoined refl refl
