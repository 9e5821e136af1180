-- ===== src/Vde2/Trace/Loop.antt =====
-- The loop of vde2_conn_write_data_event, cycle by cycle.
use vde.Base.{
  ℕ, zero, suc, ◌+◌, ◌%◌, ◌^◌, ◌≡◌, refl, sym, ◌∙◌, ap, subst, Option, none, some, List, [], ◌∷◌,
  ◌++◌, ltb, arith, Bool-cases, inl, inr, backwards, backwards-snoc, backwards-backwards,
  append-nil,
}
use vde.Glib.{Glib}
use vde.Packet.{Pkt}
use vde.Connection.{conn_write_closed, conn_write_delay}
use vde.Vde2.{Vde2Pkt, outcome_of, is_epipe, Socket, Ended, err_close, goes_on, give_up, send_loop}
use vde.Vde2.Callbacks.{backwards-append}
use vde.Vde2.Sending.{Outcome-cases}
use vde.Vde2.Trace.{names, IsRecorded, dropped-Split, older-Split, kept-Split, Traced}

module _ ⦃g : Glib⦄ {S : Type 0} (sock : Socket S) (maxtries : ℕ) (tried wrote : S → List Pkt)
    (rec : IsRecorded sock tried wrote) where
  give_up-Traced :
      (ps : List Vde2Pkt) (p : Vde2Pkt) (s s1 : S)
      → tried s1 ≡ tried s ++ (p.pkt ∷ [])
      → wrote s1 ≡ wrote s
      → Traced tried wrote (p.pkt ∷ names ps) s (some (give_up sock maxtries (backwards ps) p s1))
  unfolding give_up
  give_up-Traced ps p s s1 t w =
      let tries = (p.numtries + 1) % 2 ^ 32 in
      let p' : Vde2Pkt = record p { numtries = tries } in
      let (queue, s', st) = sock.call_error p.pkt conn_write_delay (backwards ps) s1 in
      let dropped =
        dropped-Split tried wrote ps (backwards ps) queue p s s1 s' t w
          (rec.errors p.pkt conn_write_delay (backwards ps) s1) refl in
      elim (Bool-cases (ltb maxtries tries)) [
        | inl over ↦ elim (Bool-cases (is_epipe st)) [
          | inl close ↦ rw (over, close, give_up) (names (backwards queue), dropped)
          | inr stay ↦ rw (over, stay, give_up) dropped
        ]
        | inr under ↦
            rw (under, give_up)
              (kept-Split tried wrote ps p (names (backwards (g.queue_push_tail (backwards ps) p')))
                s s1 t w
                (ap (λ q. names (backwards q)) (g.push_tail_law (backwards ps) p')
                  ∙ (ap names (backwards-snoc (backwards ps) p')
                      ∙ ap (λ l. p.pkt ∷ names l) (backwards-backwards ps))))
      ]

  pub send_loop-Traced :
      (n : ℕ) (ps : List Vde2Pkt) (s : S)
      → Traced tried wrote (names ps) s (send_loop sock maxtries n (backwards ps) s)
  unfolding send_loop
  send_loop-Traced zero ps s = tt
  send_loop-Traced (suc n) [] s =
      rw (g.pop_tail_nil Vde2Pkt, send_loop)
        (record {
          added = [];
          gone = [];
          again = 0;
          in_order = refl;
          writes = sym (append-nil (wrote s));
          tries = sym (append-nil (tried s ++ []) ∙ append-nil (tried s));
          once = omega arith;
        })
  send_loop-Traced (suc n) (p ∷ ps) s =
      let pop = g.pop_tail_snoc (backwards ps) p in
      let (s1, len) = sock.sendto p.pkt s in
      let t = rec.sends_tried p.pkt s in
      let w = rec.sends_wrote p.pkt s in
      elim (Outcome-cases (outcome_of len)) [
        | inl e ↦
            let (queue, s2, st) = sock.call_write p.pkt (backwards ps) s1 in
            let adds = rec.writes p.pkt (backwards ps) s1 in
            let (new, same, wrote_new, tried_none) = adds in
            elim (Bool-cases (is_epipe st)) [
              | inl close ↦
                  rw (pop, e, close, send_loop)
                    (
                      names (backwards queue),
                      dropped-Split tried wrote ps (backwards ps) queue p s s1 s2 t w adds refl,
                    )
              | inr stay ↦
                  rw (pop, e, stay, send_loop)
                    (older-Traced ps new p s s2 (send_loop sock maxtries n queue s2)
                      (tried_none ∙ t) (wrote_new ∙ ap (λ l. l ++ names new) w)
                      (subst
                        (λ q.
                          Traced tried wrote (names (ps ++ new)) s2
                            (send_loop sock maxtries n q s2))
                        (backwards-append ps new ∙ sym same) (send_loop-Traced n (ps ++ new) s2)))
            ]
        | inr (inl e) ↦
            let (queue, s3, st) = sock.call_error p.pkt conn_write_closed (backwards ps) s1 in
            let dropped =
              dropped-Split tried wrote ps (backwards ps) queue p s s1 s3 t w
                (rec.errors p.pkt conn_write_closed (backwards ps) s1) refl in
            elim (Bool-cases (is_epipe st)) [
              | inl close ↦ rw (pop, e, close, send_loop) (names (backwards queue), dropped)
              | inr stay ↦ rw (pop, e, stay, send_loop) dropped
            ]
        | inr (inr e) ↦ rw (pop, e, send_loop) (give_up-Traced ps p s s1 t w)
      ]
    where
      older-Traced :
          (ps new : List Vde2Pkt) (p : Vde2Pkt) (s s2 : S) (r : Option (S × Ended))
          → tried s2 ≡ tried s ++ (p.pkt ∷ [])
          → wrote s2 ≡ wrote s ++ names new
          → Traced tried wrote (names (ps ++ new)) s2 r
          → Traced tried wrote (p.pkt ∷ names ps) s r
      older-Traced ps new p s s2 none t w tr = tt
      older-Traced ps new p s s2 (some (s', err_close)) t w (left, r) =
          (left, older-Split tried wrote ps new p left s s2 s' t w r)
      older-Traced ps new p s s2 (some (s', goes_on queue drained)) t w r =
          older-Split tried wrote ps new p (names (backwards queue)) s s2 s' t w r
