-- ===== src/Ctrl/Life/Handling/Laws.antt =====
-- The handler of strings keeps an engine that serves its connection.
use vde.Base.{
  [], ◌∷◌, false, ℕ, Bool, ◌≡◌, ◌<◌, ◌+◌, ◌^◌, refl, subst, ◌∙◌, Option, some, true, not, ◌||◌,
  List, ◌++◌, length, is_some, is_done, CString, arith, Option-cases, inl, inr, backwards,
}
use vde.Glib.{Glib}
use vde.Sobj.{Sobj}
use vde.Packet.{Pkt}
use vde.Connection.{Connection, Runner}
use vde.Ctrl.Subscribe.{Subs}
use vde.Ctrl.Subscribe.Detached.{AllValid}
use vde.Ctrl.Subscribe.Ending.{IsLive}
use vde.Ctrl.Calls.{Outside, Target, reply_to}
use vde.Ctrl.Calls.Laws.{id_of, Replied, reply_to-Replied}
use vde.Ctrl.Calls.Keeps.{After, reply_to-After, deserialize_string-reply}
use vde.Ctrl.Rpc.Key
use vde.Ctrl.Rpc.{rpc_10_sobj_validate_call}
use vde.Ctrl.Write.Chunks.{carried}
use vde.Ctrl.Write.Queue.{send_all}
use vde.Ctrl.Write.Delivery.{ctrl_engine_conn_write-delivers}
use vde.Ctrl.Life.{Ctrl, CtrlConn, Addresses, update, subscriber}
use vde.Ctrl.Life.Reading.{Serves, own, renewed-Serves}
use vde.Ctrl.Life.Handling.{handle_on, handle_string}

module _ ⦃g : Glib⦄ ⦃s : Sobj⦄ where
  -- What commands and the printer of objects do: a command that succeeds leaves an object, and keeps
  -- the components that names find, the signals valid and the context where it is; each object is printed,
  -- as less than 2 ^ 32 bytes with the NUL.
  pub record BehavesWell (out : Outside) (at : Addresses) (a : ℕ) : Type 0 where
    pub gives :
        (f : ℕ) (t : Target) (args : Option s.Obj) (w : Subs)
        → (not (is_done (out.run f t args w).1) || is_some (out.run f t args w).2) ≡ true
    pub live :
        (f : ℕ) (t : Target) (args : Option s.Obj) (w : Subs)
        → IsLive (subscriber at a) w.world
        → IsLive (subscriber at a) (out.run f t args w).0.world
    pub signals :
        (f : ℕ) (t : Target) (args : Option s.Obj) (w : Subs)
        → AllValid w.world
        → AllValid (out.run f t args w).0.world
    pub self :
        (f : ℕ) (t : Target) (args : Option s.Obj) (w : Subs)
        → (out.run f t args w).0.world.ctx.self ≡ w.world.ctx.self
    pub prints :
        (o : s.Obj) → (str : CString) × (out.to_string o ≡ some str) × (length str + 1 < 2 ^ 32)

  module _ (out : Outside) (at : Addresses) (a : ℕ) (well : BehavesWell out at a) {S : Type 0}
      (run : Runner S) (alloc : ℕ → Bool) (name_alloc path_alloc : Bool)
      (enough : (n : ℕ) → alloc n ≡ true) where
    abbrev Good : Ctrl S → Subs → Type 0
    Good st w =
        IsLive (subscriber at a) w.world × AllValid w.world × (w.world.ctx.self ≡ st.world.ctx.self)

    run-Good :
        (st : Ctrl S) (f : ℕ) (t : Target) (args : Option s.Obj) (w : Subs)
        → Good st w
        → Good st (out.run f t args w).0
    run-Good st f t args w (live, signals, self) =
        (well.live f t args w live, well.signals f t args w signals, well.self f t args w ∙ self)

    -- A string is replied to: the reply is printed into packets, which are offered to the connection behind those
    -- that were queued; what is refused is the new queue. Commands may have changed the program.
    pub record RepliesTo (string : CString) (st st' : Ctrl S) : Type 0 where
      pub entry : CtrlConn
      pub link : Connection
      pub write : ℕ
      pub after : Subs
      pub reply : s.Obj
      pub str : CString
      pub new : List Pkt
      pub here : st.ctrl_conns a ≡ some entry
      pub linked : st.conns entry.conn ≡ some link
      pub writes : link.be_write ≡ some write
      pub built :
          reply_to out name_alloc path_alloc
            (record { world = st.world; reg_signals = entry.reg_signals })
            st.engine.component
            string
          ≡ some (after, reply)
      pub same_id : s.hash_lookup reply Key.id ≡ id_of out string
      pub no_call : rpc_10_sobj_validate_call reply ≡ false
      pub printed : out.to_string reply ≡ some str
      pub whole : carried new ≡ str ++ (0 ∷ [])
      pub sent : st' ≡ (
          let (left, rest) =
            send_all
              (run.run_write write link.be_priv)
              (backwards entry.out_queue ++ new)
              st.rest in
          record st {
            world = after.world;
            ctrl_conns =
                update a
                  (some
                    (record entry { out_queue = backwards left; reg_signals = after.reg_signals }))
                  st.ctrl_conns;
            rest = rest;
          })

    handle_on-RepliesTo :
        (write : ℕ) (string : CString) (st : Ctrl S) (r : Serves at a st)
        → (own at a st r).link.be_write ≡ some write
        → (st' : Ctrl S) × (handle_on out run alloc name_alloc path_alloc write
              (own at a st r).link
              a
              (own at a st r).entry
              string
              st
            ≡ some st')
          × Serves at a st'
          × RepliesTo string st st'
    unfolding handle_on
    handle_on-RepliesTo write string st r writes =
        let here = own at a st r in
        let w : Subs = record { world = st.world; reg_signals = here.entry.reg_signals } in
        let reply = reply_to out name_alloc path_alloc w st.engine.component string in
        let replied : Replied out (id_of out string) reply =
          reply_to-Replied out name_alloc path_alloc w st.engine.component string well.gives
            r.live in
        let after : After out (Good st) (run-Good st) reply =
          reply_to-After out (Good st) (run-Good st) name_alloc path_alloc w st.engine.component
            string (r.live, r.signals, refl) in
        elim (Option-cases reply) [
          | inl no_reply ↦ absurd (subst (Replied out (id_of out string)) no_reply replied)
          | inr ((w', o), is_reply) ↦
              let (live, signals, self) =
                subst (After out (Good st) (run-Good st)) is_reply after in
              let (str, printed, short) = well.prints o in
              let send = run.run_write write here.link.be_priv in
              let (new, whole, fits, sent) =
                ctrl_engine_conn_write-delivers send alloc here.link.max_pload str
                  here.entry.out_queue st.rest enough short here.usable.some_payload
                  here.usable.small_payload in
              let (left, rest) = send_all send (backwards here.entry.out_queue ++ new) st.rest in
              let entry : CtrlConn = record here.entry {
                out_queue = backwards left;
                reg_signals = w'.reg_signals;
              } in
              let ran =
                deserialize_string-reply out send alloc here.link.max_pload name_alloc path_alloc
                  st.engine.component string w w' o here.entry.out_queue (backwards left) st.rest
                  rest true is_reply (rw printed sent) in
              (
                record st {
                  world = w'.world;
                  ctrl_conns = update a (some entry) st.ctrl_conns;
                  rest = rest;
                },
                rw (ran, handle_on) refl,
                renewed-Serves at a entry w'.world rest st r refl here.fits live signals self,
                record {
                  entry = here.entry;
                  link = here.link;
                  write = write;
                  after = w';
                  reply = o;
                  str = str;
                  new = new;
                  here = here.here;
                  linked = here.linked;
                  writes = writes;
                  built = is_reply;
                  same_id = (subst (Replied out (id_of out string)) is_reply replied).0;
                  no_call = (subst (Replied out (id_of out string)) is_reply replied).1;
                  printed = printed;
                  whole = whole;
                  sent = refl;
                },
              )
        ]

    pub handle_string-RepliesTo :
        (string : CString) (st : Ctrl S)
        → Serves at a st
        → (st' : Ctrl S) × (handle_string out run alloc name_alloc path_alloc a string st
            ≡ some st')
          × Serves at a st'
          × RepliesTo string st st'
    unfolding handle_string
    handle_string-RepliesTo string st r =
        let here = own at a st r in
        elim (Option-cases here.link.be_write) [
          | inl no_write ↦ absurd (ground (arith, no_write, here.usable.writes))
          | inr (write, e) ↦
              let (st', ran, serves, replies) = handle_on-RepliesTo write string st r e in
              (st', rw (here.here, handle_string) (rw (here.linked, e) ran), serves, replies)
        ]
