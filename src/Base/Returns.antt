-- ===== src/Base/Returns.antt =====
-- The values of `errno` that the sources set, and what a C function that returns 0 or -1 reports.
use Prim.Native.Nat.{ℕ}
use mathlib.Core.Path.{◌≡◌, refl}
use mathlib.Core.Logic.{◌⊎◌, inl, inr}
use mathlib.Core.Bool.{Bool, true, false}

pub data Errno : Type 0 where
  einval enomem enoent eexist ebusy epipe eagain enospc ebadmsg econnrefused eaddrinuse : Errno
  other : ℕ → Errno

-- `done` is a return of 0; `fail e` is a nonzero return with `errno` set to `e`.
pub data Status : Type 0 where
  done : Status
  fail : Errno → Status

abbrev pub is_done : Status → Bool
is_done done = true
is_done (fail e) = false

pub done_of_is_done : (st : Status) → is_done st ≡ true → st ≡ done
done_of_is_done done h = refl
done_of_is_done (fail e) h = cc

pub Status-cases : (st : Status) → (st ≡ done) ⊎ ((e : Errno) × (st ≡ fail e))
Status-cases done = inl refl
Status-cases (fail e) = inr (e, refl)
