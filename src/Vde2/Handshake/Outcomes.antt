-- ===== src/Vde2/Handshake/Outcomes.antt =====
-- transport_vde2.c: what a request and its reply come to, on every branch.
use vde.Base.{
  ℕ, ◌≡◌, refl, ap, ◌∙◌, Bool, true, false, not, Option, none, some, ◌==◌, ◌&&◌, if◌then◌else◌,
  arith, ==_refl, CString,
}
use vde.Glib.{Glib}
use vde.Vde2.Handshake.{
  await_reply, Backend, Sys, send_request, GotRequest, again, failed, end_of_file, request,
  Vde2Request, switch_magic, is_empty, put_conn, event_del, drop_conn, after_read, take_request,
  vde2_srv_get_request,
}
use vde.Vde2.Handshake.Dropping.{Dropped, drop_conn-Dropped, ctl_forgotten, tr-del}
use vde.Vde2.Handshake.Owned.{IsOwned, forget-IsOwned, add-IsOwned, conns-del}

module _ ⦃g : Glib⦄ where
  -- A request that is served: the magic and the version are right, and the socket is there and can be
  -- reached.
  abbrev pub is_servable : (CString → Bool) → Bool → GotRequest → Bool
  is_servable access room (request req) =
      (req.magic == switch_magic && req.version == 3)
      && (not (is_empty req.sun_path) && (access req.sun_path && room))
  is_servable access room again = false
  is_servable access room failed = false
  is_servable access room end_of_file = false

  -- The connection has the socket of its peer, and waits to reply.
  pub record MayReply (event : Option ℕ) (a : ℕ) (c : Backend) (req : Vde2Request) (s s' : Sys)
      : Type 0 where
    pub ready :
        s'.conns a
        ≡ some (record c { ctl_ev = event; remote_request = some req; remote_path = req.sun_path })
    pub same_tr : s'.tr ≡ s.tr
    pub next :
        (h : ℕ)
        → event ≡ some h
        → s'.events h ≡ some (record { fd = c.ctl_fd; handler = send_request; arg = a })

  abbrev pub Requested : GotRequest → Bool → Option ℕ → ℕ → Backend → Sys → Sys → Type 0
  Requested again ok event a c s s' =
      (s'.conns a ≡ some (record c { ctl_ev = none })) × (s'.tr ≡ s.tr)
  Requested failed ok event a c s s' = Dropped a c s s'
  Requested end_of_file ok event a c s s' = Dropped a c s s'
  Requested (request req) true event a c s s' = MayReply event a c req s s'
  Requested (request req) false event a c s s' = Dropped a c s s'

  may_reply :
      (event : Option ℕ) (a : ℕ) (c : Backend) (req : Vde2Request) (s v : Sys)
      → v.tr ≡ s.tr
      → MayReply event a c req s (await_reply event a c req v)
  may_reply none a c req s v same_tr = record {
    ready = ground (arith, ==_refl a);
    same_tr = same_tr;
    next = λ h p. cc;
  }
  may_reply (some k) a c req s v same_tr = record {
    ready = ground (arith, ==_refl a);
    same_tr = same_tr;
    next = λ h p. ground (arith, p, ==_refl h);
  }

  drop_same :
      (a : ℕ) (c : Backend) (s v : Sys)
      → IsOwned v
      → v.conns a ≡ some (record c { ctl_ev = none })
      → v.tr ≡ s.tr
      → ((b : ℕ) → (a == b) ≡ false → v.conns b ≡ s.conns b)
      → (s' : Sys) × (drop_conn a v ≡ some s') × IsOwned s' × Dropped a c s s'
  drop_same a c s v o now same others =
      let (s', e, owned, gone) =
        drop_conn-Dropped a (record c { ctl_ev = none }) s v o now same others in
      (
        s',
        e,
        owned,
        record {
          gone = gone.gone;
          pending = gone.pending;
          closed = gone.closed;
          others = gone.others;
        },
      )

  take_request-Requested :
      (ok : Bool) (access : CString → Bool) (room : Bool) (event : Option ℕ) (a : ℕ) (c : Backend)
      (req : Vde2Request) (s v : Sys)
      → is_servable access room (request req) ≡ ok
      → IsOwned v
      → v.conns a ≡ some (record c { ctl_ev = none })
      → v.tr ≡ s.tr
      → ((b : ℕ) → (a == b) ≡ false → v.conns b ≡ s.conns b)
      → (s' : Sys) × (take_request access room event a (record c { ctl_ev = none }) req v ≡ some s')
        × IsOwned s'
        × Requested (request req) ok event a c s s'
  unfolding take_request
  take_request-Requested false access room event a c req s v valid o here same_tr others =
      let (s', e, owned, gone) = drop_same a c s v o here same_tr others in
      (
        s',
        ap
              (λ b.
                if b
                then some (await_reply event a (record c { ctl_ev = none }) req v)
                else drop_conn a v)
              valid
            ∙ e,
        owned,
        gone,
      )
  take_request-Requested true access room event a c req s v valid o here same_tr others =
      let d : Backend = record c {
        ctl_ev = event;
        remote_request = some req;
        remote_path = req.sun_path;
      } in
      let w = put_conn a (some d) v in
      let owned : IsOwned w =
        forget-IsOwned a (record c { ctl_ev = none }) d none v o here
          (λ h u has. ground (arith, has)) in
      (
        await_reply event a (record c { ctl_ev = none }) req v,
        ap
            (λ b.
              if b
              then some (await_reply event a (record c { ctl_ev = none }) req v)
              else drop_conn a v)
            valid,
        add-IsOwned a d event c.ctl_fd send_request w owned (ground (arith, ==_refl a))
            (λ h has. ground (arith, has)),
        may_reply event a c req s v same_tr,
      )

  -- Reading the request of a connection returns on every branch. A request with the magic number, version
  -- 3 and a socket that can be reached is kept, and the reply waits for the socket. What is no such
  -- request, the end of the file or an error drops the connection: it is no longer pending or allocated,
  -- the descriptors in both its fields are closed, and the other connections are as they were. Where
  -- nothing could be read yet the connection stays, but without an event. Afterwards still every event is
  -- of a connection that is there.
  pub get_request-Requested :
      (got : GotRequest) (access : CString → Bool) (room : Bool) (event : Option ℕ) (a : ℕ)
      (c : Backend) (s : Sys)
      → IsOwned s
      → s.conns a ≡ some c
      → (s' : Sys) × (vde2_srv_get_request got access room event a s ≡ some s')
        × IsOwned s'
        × Requested got (is_servable access room got) event a c s s'
  unfolding vde2_srv_get_request after_read
  get_request-Requested got access room event a c s o here =
      let c' : Backend = record c { ctl_ev = none } in
      let v = put_conn a (some c') (event_del c.ctl_ev s) in
      let owned = ctl_forgotten a c c' s o here refl refl refl in
      let now : v.conns a ≡ some c' = ground (arith, ==_refl a) in
      let same : v.tr ≡ s.tr = tr-del c.ctl_ev s in
      let (s', e, kept, r) = after got v owned now same (λ b other.
        ground (arith, other) ∙ ap (λ (f : ℕ → Option Backend). f b) (conns-del c.ctl_ev s)) in
      (s', ground (arith, here) ∙ e, kept, r)
    where
      after :
          (got : GotRequest) (v : Sys)
          → IsOwned v
          → v.conns a ≡ some (record c { ctl_ev = none })
          → v.tr ≡ s.tr
          → ((b : ℕ) → (a == b) ≡ false → v.conns b ≡ s.conns b)
          → (s' : Sys) × (after_read got access room event a (record c { ctl_ev = none }) v
              ≡ some s')
            × IsOwned s'
            × Requested got (is_servable access room got) event a c s s'
      after again v o now same others = (v, refl, o, (now, same))
      after failed v o now same others = drop_same a c s v o now same others
      after end_of_file v o now same others = drop_same a c s v o now same others
      after (request req) v o now same others =
          take_request-Requested (is_servable access room (request req)) access room event a c req s
            v refl o now same others
