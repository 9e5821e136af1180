-- ===== src/Ctrl/Rpc/Laws.antt =====
-- Which messages are calls, and what the messages of the engine hold.
use vde.Base.{true, false, some, ◌≡◌, arith, Option-cases, inl, inr, ◌↔◌}
use vde.Ctrl.Rpc.Key
use vde.Ctrl.Rpc.{is_negative, rpc_10_sobj_validate_call}
use vde.Sobj.{Sobj, int_type, string_type, array_type, hash_type}

module _ ⦃s : Sobj⦄ where
  -- A JSON-RPC 1.0 call: a hash with a method, an array of parameters and a number that is not
  -- negative.
  pub record IsMethodCall (o : s.Obj) : Type 0 where
    pub hash : s.is_type o hash_type ≡ true
    pub method : s.Obj
    pub params : s.Obj
    pub id : s.Obj
    pub method_at : s.hash_lookup o Key.method ≡ some method
    pub params_at : s.hash_lookup o Key.params ≡ some params
    pub id_at : s.hash_lookup o Key.id ≡ some id
    pub method_type : s.is_type method string_type ≡ true
    pub params_type : s.is_type params array_type ≡ true
    pub id_type : s.is_type id int_type ≡ true
    pub id_sign : is_negative (s.get_int id) ≡ false

  -- Exactly the calls pass rpc_10_sobj_validate_call.
  pub validate_call-IsMethodCall :
      (o : s.Obj) → (rpc_10_sobj_validate_call o ≡ true) ↔ IsMethodCall o
  unfolding rpc_10_sobj_validate_call
  validate_call-IsMethodCall o = (
    λ h. elim (Option-cases (s.hash_lookup o Key.method)) [
      | inl e ↦ absurd (ground (arith, e, h))
      | inr (m, em) ↦ elim (Option-cases (s.hash_lookup o Key.params)) [
        | inl e ↦ absurd (ground (arith, e, em, h))
        | inr (p, ep) ↦ elim (Option-cases (s.hash_lookup o Key.id)) [
          | inl e ↦ absurd (ground (arith, e, em, ep, h))
          | inr (i, ei) ↦ record {
            hash = ground (arith, em, ep, ei, h);
            method = m;
            params = p;
            id = i;
            method_at = em;
            params_at = ep;
            id_at = ei;
            method_type = ground (arith, em, ep, ei, h);
            params_type = ground (arith, em, ep, ei, h);
            id_type = ground (arith, em, ep, ei, h);
            id_sign = ground (arith, em, ep, ei, h);
          }
        ]
      ]
    ],
    λ c. rw (
      c.hash, c.method_at, c.params_at, c.id_at, c.method_type, c.params_type, c.id_type, c.id_sign,
      rpc_10_sobj_validate_call,
    ),
  )
