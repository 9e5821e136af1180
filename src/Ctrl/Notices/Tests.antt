-- ===== src/Ctrl/Notices/Tests.antt =====
-- A notice of a new port: the theorems at their inputs.
use vde.Base.{
  ℕ, ◌≡◌, refl, true, some, List, [], ◌∷◌, ◌++◌, ◌+◌, ltb, if◌then◌else◌, Status, done, fail,
  eagain, arith, backwards,
}
use vde.Glib.Instance.{glib}
use vde.Sobj.Instance.{array, sobj}
use vde.Packet.{Pkt}
use vde.Packet.Tests.{sent}
use vde.Ctrl.Write.Queue.{send_all}
use vde.Ctrl.Notices.{signal_callback}
use vde.Ctrl.Notices.Laws.{signal_callback-delivers}

-- A connection that takes two packets; the state counts them.
abbrev take_two : Pkt → ℕ → ℕ × Status
take_two pkt n = if ltb n 2 then (n + 1, done) else (n, fail eagain)

signal_callback_example :
    (new : List Pkt) × (signal_callback
        (λ o. some (1 ∷ 2 ∷ []))
        take_two
        (λ n. true)
        3
        (b'h' ∷ [])
        (b'p' ∷ [])
        (some array)
        (sent ∷ [])
        0
      ≡ (let (left, c) = send_all take_two (backwards (sent ∷ []) ++ new) 0 in
          some (backwards left, c)))
signal_callback_example =
    let r =
      signal_callback-delivers (λ o. some (1 ∷ 2 ∷ [])) take_two (λ n. true) 3 (b'h' ∷ [])
        (b'p' ∷ []) array (sent ∷ []) 0 (λ o. (1 ∷ 2 ∷ [], refl, omega arith)) (λ n. refl)
        (omega arith) (omega arith) refl in
    (r.3, r.12)
