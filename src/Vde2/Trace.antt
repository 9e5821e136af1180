-- ===== src/Vde2/Trace.antt =====
-- What vde2_conn_write_data_event does with each packet, told by what the socket was given and by what the
-- callbacks wrote.
pub mod Loop
pub mod Handler
use vde.Base.{
  ℕ, zero, suc, ◌+◌, ◌%◌, ◌^◌, ◌≤◌, ◌≡◌, refl, sym, ◌∙◌, ap, subst, Bool, true, false, Option, none,
  some, List, [], ◌∷◌, ◌++◌, ltb, if◌then◌else◌, take, arith, Bool-cases, inl, inr, ◌⊎◌, backwards,
  backwards-snoc, backwards-backwards, append_assoc, append-nil, is_some, length,
}
use vde.Glib.{Glib}
use vde.Packet.{Pkt}
use vde.Connection.{ConnError, conn_write_closed, conn_write_delay}
use vde.Vde2.{
  Vde2Pkt, Vde2Conn, Outcome, complete, fatal, retry, outcome_of, is_epipe, Socket, Ended,
  err_close, goes_on, give_up, send_loop, vde2_conn_write_data_event,
}
use vde.Vde2.Laws.{IsReady}
use vde.Vde2.Callbacks.{IsBounded, backwards-append}
use vde.Vde2.Sending.{Continues, Outcome-cases, vde2_conn_write_data_event_lem}

-- The packets of a queue, from its oldest on, are those of `names (backwards queue)`.
abbrev pub names : List Vde2Pkt → List Pkt
names [] = []
names (p ∷ ps) = p.pkt ∷ names ps

names-append : (a b : List Vde2Pkt) → names (a ++ b) ≡ names a ++ names b
names-append [] b = refl
names-append (p ∷ a) b = ap (λ l. p.pkt ∷ l) (names-append a b)

-- A callback puts what it writes behind the packets of the queue, and `wrote` records it.
abbrev pub Adds :
    {S : Type 0} → (S → List Pkt) → (S → List Pkt) → List Vde2Pkt → S → List Vde2Pkt → S → Type 0
Adds tried wrote queue s queue' s' =
    (new : List Vde2Pkt) × (queue' ≡ backwards new ++ queue)
    × (wrote s' ≡ wrote s ++ names new)
    × (tried s' ≡ tried s)

-- `tried` is the packets that were given to sendto so far, and `wrote` those that callbacks wrote.
pub record IsRecorded {S : Type 0} (sock : Socket S) (tried wrote : S → List Pkt) : Type 0 where
  pub sends_tried : (p : Pkt) (s : S) → tried (sock.sendto p s).0 ≡ tried s ++ (p ∷ [])
  pub sends_wrote : (p : Pkt) (s : S) → wrote (sock.sendto p s).0 ≡ wrote s
  pub writes :
      (p : Pkt) (queue : List Vde2Pkt) (s : S)
      → let (queue', s', st) = sock.call_write p queue s in Adds tried wrote queue s queue' s'
  pub errors :
      (p : Pkt) (e : ConnError) (queue : List Vde2Pkt) (s : S)
      → let (queue', s', st) = sock.call_error p e queue s in Adds tried wrote queue s queue' s'

-- The packets that waited and those that callbacks `added` are, in this order, those that are gone and those
-- that are `left`. The socket was given those that are gone, and then at most the first that is left.
pub record Split {S : Type 0} (tried wrote : S → List Pkt) (old left : List Pkt) (s s' : S)
    : Type 0 where
  pub added : List Pkt
  pub gone : List Pkt
  pub again : ℕ
  pub in_order : old ++ added ≡ gone ++ left
  pub writes : wrote s' ≡ wrote s ++ added
  pub tries : tried s' ≡ (tried s ++ gone) ++ take again left
  pub once : again ≤ 1

module _ {S : Type 0} (tried wrote : S → List Pkt) where
  -- One packet has been tried and is gone, and a callback has added some.
  pub dropped-Split :
      (ps queue queue' : List Vde2Pkt) (p : Vde2Pkt) (s s1 s' : S)
      → tried s1 ≡ tried s ++ (p.pkt ∷ [])
      → wrote s1 ≡ wrote s
      → Adds tried wrote queue s1 queue' s'
      → queue ≡ backwards ps
      → Split tried wrote (p.pkt ∷ names ps) (names (backwards queue')) s s'
  dropped-Split ps queue queue' p s s1 s' t w (new, same, wrote_new, tried_none) is_queue = record {
    added = names new;
    gone = p.pkt ∷ [];
    again = 0;
    in_order =
        ap (λ l. p.pkt ∷ l)
          (sym (
            ap (λ q. names (backwards q)) (same ∙ ap (λ q. backwards new ++ q) is_queue)
            ∙ (ap names
                  (ap backwards (sym (backwards-append ps new)) ∙ backwards-backwards (ps ++ new))
                ∙ names-append ps new)));
    writes = wrote_new ∙ ap (λ l. l ++ names new) w;
    tries = tried_none ∙ (t ∙ sym (append-nil (tried s ++ (p.pkt ∷ []))));
    once = omega arith;
  }

  -- One packet is gone, and so it goes on with the rest and what a callback added.
  pub older-Split :
      (ps new : List Vde2Pkt) (p : Vde2Pkt) (left : List Pkt) (s s2 s' : S)
      → tried s2 ≡ tried s ++ (p.pkt ∷ [])
      → wrote s2 ≡ wrote s ++ names new
      → Split tried wrote (names (ps ++ new)) left s2 s'
      → Split tried wrote (p.pkt ∷ names ps) left s s'
  older-Split ps new p left s s2 s' t w r = record {
    added = names new ++ r.added;
    gone = p.pkt ∷ r.gone;
    again = r.again;
    in_order =
        ap (λ l. p.pkt ∷ l)
          (sym (append_assoc (names ps) (names new) r.added)
            ∙ (ap (λ l. l ++ r.added) (sym (names-append ps new)) ∙ r.in_order));
    writes = r.writes ∙ (ap (λ l. l ++ r.added) w ∙ append_assoc (wrote s) (names new) r.added);
    tries =
        r.tries
        ∙ ap (λ l. l ++ take r.again left)
            (ap (λ l. l ++ r.gone) t ∙ append_assoc (tried s) (p.pkt ∷ []) r.gone);
    once = r.once;
  }

  -- What is known of how the loop ends; of a connection that is closed, some packets may be left.
  abbrev pub Traced : List Pkt → S → Option (S × Ended) → Type 0
  Traced old s none = Unit
  Traced old s (some (s', err_close)) = (left : List Pkt) × Split tried wrote old left s s'
  Traced old s (some (s', goes_on queue drained)) =
      Split tried wrote old (names (backwards queue)) s s'

  -- The packet stays, to be tried again.
  pub kept-Split :
      (ps : List Vde2Pkt) (p : Vde2Pkt) (left : List Pkt) (s s1 : S)
      → tried s1 ≡ tried s ++ (p.pkt ∷ [])
      → wrote s1 ≡ wrote s
      → left ≡ p.pkt ∷ names ps
      → Split tried wrote (p.pkt ∷ names ps) left s s1
  kept-Split ps p left s s1 t w e = record {
    added = [];
    gone = [];
    again = 1;
    in_order = append-nil (p.pkt ∷ names ps) ∙ sym e;
    writes = w ∙ sym (append-nil (wrote s));
    tries =
        t
        ∙ (ap (λ l. l ++ (p.pkt ∷ [])) (sym (append-nil (tried s)))
            ∙ ap (λ l. (tried s ++ []) ++ take 1 l) (sym e));
    once = omega arith;
  }
