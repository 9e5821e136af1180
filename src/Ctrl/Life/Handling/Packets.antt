-- ===== src/Ctrl/Life/Handling/Packets.antt =====
-- ctrl_engine_readcb with the handler of strings: what it does with a packet.
use vde.Base.{
  ltb, [], ◌∷◌, ap, false, Status, fail, done, epipe, Bool-cases, ℕ, Bool, ◌≡◌, refl, ◌∙◌, Option,
  some, true, List, length, CString, arith, inl, inr,
}
use vde.Glib.{Glib}
use vde.Sobj.{Sobj}
use vde.Packet.{Pkt, payload_of}
use vde.Connection.{Runner}
use vde.Ctrl.Calls.{Outside}
use vde.Ctrl.Split.{Passed, is_empty, max_inbuf_sz}
use vde.Ctrl.Split.Laws.{strings, glue, passed, call_all, kept, ctrl_split_payload-strings}
use vde.Ctrl.Life.{
  Ctrl, CtrlConn, Addresses, seen, handle_next, keep_inbuf, after_split, ctrl_engine_readcb,
}
use vde.Ctrl.Life.Reading.{Serves, own, keep_inbuf-Serves}
use vde.Ctrl.Life.Ending.{Gone, hang_up-Gone}
use vde.Ctrl.Life.Handling.{handle_string}
use vde.Ctrl.Life.Handling.Laws.{BehavesWell, RepliesTo, handle_string-RepliesTo}

module _ ⦃g : Glib⦄ ⦃s : Sobj⦄ where
  module _ (out : Outside) (at : Addresses) (a : ℕ) (well : BehavesWell out at a) {S : Type 0}
      (run : Runner S) (alloc : ℕ → Bool) (name_alloc path_alloc : Bool)
      (enough : (n : ℕ) → alloc n ≡ true) where
    -- Strings that are replied to, one after the other.
    abbrev pub RepliesToAll : List CString → Ctrl S → Ctrl S → Type 0
    RepliesToAll [] st st' = st' ≡ st
    RepliesToAll (x ∷ xs) st st' =
        (mid : Ctrl S) × RepliesTo out at a well run alloc name_alloc path_alloc enough x st mid
        × RepliesToAll xs mid st'

    -- The bytes that are read for what the loop passes.
    abbrev pub seen_all : (List ℕ → List ℕ) → List Passed → List CString
    seen_all beyond [] = []
    seen_all beyond (p ∷ ps) = seen beyond p ∷ seen_all beyond ps

    calls-RepliesToAll :
        (beyond : List ℕ → List ℕ) (ps : List Passed) (st : Ctrl S)
        → Serves at a st
        → (st' : Ctrl S) × (call_all
              (handle_next at alloc beyond (handle_string out run alloc name_alloc path_alloc) a)
              ps
              (some st)
            ≡ some st')
          × Serves at a st'
          × RepliesToAll (seen_all beyond ps) st st'
    calls-RepliesToAll beyond [] st r = (st, refl, r, refl)
    calls-RepliesToAll beyond (p ∷ ps) st r =
        let handle = handle_string out run alloc name_alloc path_alloc in
        let (mid, ran, still, first) =
          handle_string-RepliesTo out at a well run alloc name_alloc path_alloc enough
            (seen beyond p) st r in
        let (st', all_ran, serves, others) = calls-RepliesToAll beyond ps mid still in
        (
          st',
          ap (call_all (handle_next at alloc beyond handle a) ps) ran ∙ all_ran,
          serves,
          (mid, first, others),
        )

    -- What is left in the buffer, and whether the connection goes on, by the bytes behind the last string.
    abbrev pub Ends : Bool → List ℕ → Ctrl S → Option (Ctrl S × Status) → Type 0
    Ends true rest st r =
        (s' : Ctrl S) × (st' : Ctrl S) × (entry : CtrlConn) × (keep_inbuf a [] st ≡ some s')
        × (s'.ctrl_conns a ≡ some entry)
        × (r ≡ some (st', fail epipe))
        × Gone at a entry.reg_signals s' st'
    Ends false rest st r =
        (s' : Ctrl S) × (keep_inbuf a rest st ≡ some s') × (r ≡ some (s', done)) × Serves at a s'

    ends :
        (beyond : List ℕ → List ℕ) (rest : List ℕ) (st : Ctrl S)
        → Serves at a st
        → Ends (ltb max_inbuf_sz (length rest)) rest st (
            let (left, answer) = kept rest max_inbuf_sz in
            after_split at alloc beyond
              (handle_string out run alloc name_alloc path_alloc)
              a
              left
              (some st)
              answer)
    unfolding after_split
    ends beyond rest st r = elim (Bool-cases (ltb max_inbuf_sz (length rest))) [
      | inl over ↦
          let (s', entry, saved, still, found) = keep_inbuf-Serves at a [] st (omega arith) r in
          let (st', ran, gone) =
            hang_up-Gone at a entry s' still.valid still.live still.signals still.listed found in
          rw over (s', st', entry, saved, found, ground (arith, over, saved, ran), gone)
      | inr fits ↦
          let (s', entry, saved, still, found) =
            keep_inbuf-Serves at a rest st (ground (arith, fits)) r in
          rw fits (s', saved, ground (arith, fits, saved), still)
    ]

    -- A packet that arrives at a connection of the engine. Each string that it completes, the first one with
    -- what the buffer holds, is replied to, once and in order, with its id, and what is behind it in memory
    -- may be read with a string that began in the buffer. If the bytes behind the last string fit in the
    -- buffer, they are kept there, and the engine still serves the connection. If not, the answer is EPIPE, and
    -- the connection is gone, with those signals for whose names there is memory. It is assumed that commands and the printer of objects behave
    -- well, and that there is memory.
    pub ctrl_engine_readcb-serves :
        (beyond : List ℕ → List ℕ) (pkt : Pkt) (st : Ctrl S) (r : Serves at a st)
        → let inbuf = (own at a st r).entry.inbuf in
          let (ts, rest) = glue inbuf (strings (payload_of pkt)) in
          (mid : Ctrl S) × RepliesToAll (seen_all beyond (passed (is_empty inbuf) ts)) st mid
          × Ends (ltb max_inbuf_sz (length rest)) rest mid (
              ctrl_engine_readcb at alloc beyond
                (handle_string out run alloc name_alloc path_alloc)
                pkt
                a
                st)
    unfolding ctrl_engine_readcb
    ctrl_engine_readcb-serves beyond pkt st r =
        let handle = handle_string out run alloc name_alloc path_alloc in
        let here = own at a st r in
        let inbuf = here.entry.inbuf in
        let (ts, rest) = glue inbuf (strings (payload_of pkt)) in
        let (mid, ran, still, replies) =
          calls-RepliesToAll beyond (passed (is_empty inbuf) ts) st r in
        let split =
          ctrl_split_payload-strings alloc (handle_next at alloc beyond handle a) enough pkt inbuf
            max_inbuf_sz (some st) here.fits in
        (
          mid,
          replies,
          rw (here.here, ctrl_engine_readcb) (rw (split, ran) (ends beyond rest mid still)),
        )
