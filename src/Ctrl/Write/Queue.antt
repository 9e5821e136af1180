-- ===== src/Ctrl/Write/Queue.antt =====
-- The packets that wait in the queue leave it in the order in which they came.
use vde.Base.{
  backwards, backwards-backwards, length-backwards, ℕ, zero, suc, ◌+◌, ◌≤◌, ◌≡◌, ap, sym, ◌∙◌,
  Option, some, List, [], ◌∷◌, if◌then◌else◌, length, Status, is_done, arith, Bool-cases, inl, inr,
}
use vde.Glib.{Glib}
use vde.Packet.{Pkt}
use vde.Ctrl.Write.{flush_loop, ctrl_engine_writecb}

-- Sending packets in their order until one is refused: what is left, and the state.
abbrev pub send_all : {S : Type 0} → (Pkt → S → S × Status) → List Pkt → S → List Pkt × S
send_all send [] s = ([], s)
send_all send (p ∷ ps) s =
    if is_done (send p s).1 then send_all send ps (send p s).0 else (p ∷ ps, (send p s).0)

abbrev pub flushed : {S : Type 0} → List Pkt × S → Option (List Pkt × S)
flushed (ps, s) = some (backwards ps, s)

module _ ⦃g : Glib⦄ {S : Type 0} (send : Pkt → S → S × Status) where
  flush_loop-send_all :
      (n : ℕ) (ps : List Pkt) (s : S)
      → length ps + 1 ≤ n
      → flush_loop send n (backwards ps) s ≡ flushed (send_all send ps s)
  unfolding flush_loop
  flush_loop-send_all zero ps s h = absurd (omega (arith, h))
  flush_loop-send_all (suc n) [] s h = rw (g.pop_tail_nil Pkt, flush_loop)
  flush_loop-send_all (suc n) (p ∷ ps) s h = elim (Bool-cases (is_done (send p s).1)) [
    | inl ok ↦
        rw (g.pop_tail_snoc (backwards ps) p, ok, flush_loop)
          (flush_loop-send_all n ps (send p s).0 (omega (arith, h)))
    | inr refused ↦
        rw (g.pop_tail_snoc (backwards ps) p, refused, g.push_tail_law (backwards ps) p, flush_loop)
  ]

  -- The packets of the queue are offered to the connection from the oldest on, each once, until one
  -- is refused; that one and the younger ones are the queue again, in their order. The loop ends.
  pub ctrl_engine_writecb-send_all :
      (queue : List Pkt) (s : S)
      → ctrl_engine_writecb send queue s ≡ flushed (send_all send (backwards queue) s)
  unfolding ctrl_engine_writecb
  ctrl_engine_writecb-send_all queue s =
      ap (λ q. flush_loop send (suc (g.queue_get_length queue)) q s)
        (sym (backwards-backwards queue))
      ∙ flush_loop-send_all (suc (g.queue_get_length queue)) (backwards queue) s
          (omega (arith, g.queue_length_law queue, length-backwards queue))
