-- ===== src/Ctrl/Calls/Tests.antt =====
-- A call in a context without components: the theorem at its input.
use vde.Base.{true, none, some, [], ◌∷◌, done, refl}
use vde.Base.Int.{pos}
use vde.Glib.Instance.{glib}
use vde.OrdHash.{vde_ordhash_new, vde_ordhash_lookup}
use vde.Context.{World, no_handler}
use vde.Context.Life.{vde_context_get_component}
use vde.Ctrl.Rpc.Key
use vde.Ctrl.Subscribe.{Subs}
use vde.Sobj.Instance.{sobj, Json, array, number, text, hash, entry}
use vde.Ctrl.Calls.{Outside, reply_to}
use vde.Ctrl.Calls.Laws.{id_of, Replied, reply_to-Replied}

-- "a.b" with the id 7
abbrev pub call : Json
call =
    entry Key.id (number (pos 7))
      (entry Key.params array (entry Key.method (text (b'a' ∷ b'.' ∷ b'b' ∷ [])) hash))

-- Every string is this call, and every command succeeds with an array.
abbrev pub outside : Outside
outside = record {
  from_string = λ t. some call;
  run = λ f t a w. (w, done, some array);
  number = λ e. pos 22;
  to_string = λ o. some [];
  not_parsed = [];
  not_a_call = [];
  bad_path = [];
  no_component = [];
  no_command = [];
}

abbrev bare : World
bare = record {
  quarks = [];
  heap = λ a. none;
  ctx = record {
    self = 9;
    initialized = 1;
    event_handler = no_handler;
    components = vde_ordhash_new;
    modules = [];
  };
}

abbrev fresh : Subs
fresh = record { world = bare; reg_signals = [] }

call_reply_example : Replied outside (id_of outside []) (reply_to outside true true fresh 1 [])
unfolding vde_context_get_component vde_ordhash_lookup vde_ordhash_new
call_reply_example =
    reply_to-Replied outside true true fresh 1 [] (λ f t a w. refl) (λ name p e. absurd cc)
