-- ===== src/Vde2/Callbacks.antt =====
-- What the transport relies on of the callbacks of a connection: how they add to its queue.
use vde.Base.{
  ℕ, ◌+◌, ◌≤◌, ◌≡◌, sym, ◌∙◌, ap, false, List, [], ◌∷◌, ◌++◌, ltb, not, ◌&&◌, length, arith,
  backwards, backwards-backwards, length-backwards, append_assoc, append-nil,
}
use vde.Vde2.{maxqlen, Vde2Pkt, Socket}
use vde.Packet.{Pkt}
use vde.Connection.{ConnError}
use vde.Vde2.Laws.{is_nil}

-- A callback has added packets behind those of the queue, as many as it had left to write, and none
-- to a queue that is full.
abbrev pub Wrote : List Vde2Pkt → List Vde2Pkt → ℕ → ℕ → Type 0
Wrote queue queue' n m =
    (added : List Vde2Pkt) × (queue' ≡ added ++ queue)
    × (length added + m ≤ n)
    × ((not (is_nil added) && ltb maxqlen (length queue')) ≡ false)

-- What the transport relies on of its user: `left` is a bound on the packets that it still writes
-- when it is called, and a call uses it up.
pub record IsBounded {S : Type 0} (sock : Socket S) (left : S → ℕ) : Type 0 where
  pub sends : (p : Pkt) (s : S) → left (sock.sendto p s).0 ≤ left s
  pub writes :
      (p : Pkt) (queue : List Vde2Pkt) (s : S)
      → Wrote queue (sock.call_write p queue s).0 (left s) (left (sock.call_write p queue s).1)
  pub errors :
      (p : Pkt) (e : ConnError) (queue : List Vde2Pkt) (s : S)
      → Wrote queue (sock.call_error p e queue s).0 (left s) (left (sock.call_error p e queue s).1)

pub backwards-append : (a b : List Vde2Pkt) → backwards (a ++ b) ≡ backwards b ++ backwards a
backwards-append [] b = sym (append-nil (backwards b))
backwards-append (x ∷ a) b =
    ap (λ l. l ++ (x ∷ [])) (backwards-append a b)
    ∙ append_assoc (backwards b) (backwards a) (x ∷ [])

-- The queue after a callback, from its oldest packet on: that before, and what was added.
abbrev pub Extended : List Vde2Pkt → List Vde2Pkt → ℕ → ℕ → Type 0
Extended ps queue n m =
    (extra : List Vde2Pkt) × (queue ≡ backwards (ps ++ extra))
    × (length extra + m ≤ n)
    × (length (ps ++ extra) ≤ maxqlen)

pub extended :
    (ps queue : List Vde2Pkt) (n m : ℕ)
    → length ps ≤ maxqlen
    → Wrote (backwards ps) queue n m
    → Extended ps queue n m
extended ps queue n m short (added, same, used, fits) =
    let whole : queue ≡ backwards (ps ++ backwards added) =
      same
      ∙ sym (
          backwards-append ps (backwards added)
          ∙ ap (λ l. l ++ backwards ps) (backwards-backwards added)) in
    let size : length (ps ++ backwards added) ≡ length queue =
      sym (length-backwards (ps ++ backwards added)) ∙ ap length (sym whole) in
    (
      backwards added,
      whole,
      omega (arith, used, length-backwards added),
      room added short fits size,
    )
  where
    room :
        (added : List Vde2Pkt)
        → length ps ≤ maxqlen
        → (not (is_nil added) && ltb maxqlen (length queue)) ≡ false
        → length (ps ++ backwards added) ≡ length queue
        → length (ps ++ backwards added) ≤ maxqlen
    room [] short fits size = omega (arith, short, ap length (append-nil ps))
    room (x ∷ xs) short fits size = ground (arith, fits, size)
