-- ===== src/Context/Ends.antt =====
-- The beginning and the end of a context at concrete modules and files.
use vde.Base.{
  ℕ, zero, suc, ◌<◌, ◌≡◌, refl, true, Option, none, some, List, [], ◌∷◌, ◌==◌, done, enoent, Status,
  All, if◌then◌else◌, arith, ◌+◌,
}
use vde.Glib.Instance.{glib}
use vde.OrdHash.{vde_ordhash_new, vde_ordhash_insert}
use vde.OrdHash.Repr.{Repr}
use vde.Component.{ComponentOps, Module, engine, connection_manager}
use vde.Component.Tests.{blank}
use vde.Context.{World, Plugin, EventHandler, no_handler}
use vde.Context.Life.Valid.{IsValid}
use vde.Context.Modules.Load.{
  Dl, Fts, FtsEntry, file, start, Loading, vde_modules_load, vde_context_init,
}
use vde.Context.Modules.Load.Laws.{Loaded, HasHandle}
use vde.Context.Modules.Load.Init.{vde_modules_load-Loaded, vde_context_init-IsValid}

abbrev quiet : Plugin ℕ
quiet = record { run_init = λ f p params w. (w, done); run_fini = λ f p w. w }

abbrev ops : ComponentOps
ops = record {
  init = some 100;
  fini = some 101;
  get_configuration = none;
  set_configuration = none;
  get_policy = none;
  set_policy = none;
}

-- An engine at 5 that was made before the connection manager at 6.
abbrev running : World
running = record {
  quarks = [];
  heap = λ a.
      if a == 5
      then some (record blank { cops = some ops })
      else if a == 6
      then some (record blank { cops = some ops; kind = connection_manager })
      else none;
  ctx = record {
    self = 9;
    initialized = 1;
    event_handler = no_handler;
    components = vde_ordhash_insert (vde_ordhash_insert vde_ordhash_new 1 5) 2 6;
    modules = [];
  };
}

abbrev table : List (ℕ × ℕ)
table = (1, 5) ∷ (2, 6) ∷ []

-- A library with a module, and a directory that holds the file "h.so" of it.
abbrev hub_module : Module
hub_module = record {
  kind = engine;
  family = b'h' ∷ [];
  cops = some ops;
  cm_connect = none;
  cm_listen = none;
  eng_new_conn = some 102;
  tr_connect = none;
  tr_listen = none;
  dlhandle = none;
}

instance abbrev libraries : Dl
libraries = record {
  State = ℕ;
  dlopen = λ n path. (n + 1, some (n + 1));
  dlsym = λ n handle. (n, start hub_module);
  dlclose = λ n handle. n;
  readable = λ path. true;
}

abbrev hub_file : FtsEntry
hub_file = record { info = file; path = b'h' ∷ b'.' ∷ b's' ∷ b'o' ∷ []; level = 1 }

-- An open directory is the number of times that the file is still read.
abbrev next_file : ℕ → Option (FtsEntry × ℕ)
next_file zero = none
next_file (suc n) = some (hub_file, n)

next_file-fewer : (h h' : ℕ) (e : FtsEntry) → next_file h ≡ some (e, h') → h' < h
next_file-fewer zero h' e p = cc
next_file-fewer (suc n) h' e p = ground (arith, p)

instance abbrev directory : Fts
directory = record {
  Handle = ℕ;
  fts_open = λ path. some 2;
  open_errno = enoent;
  fts_read = next_file;
  set_skip = λ h e. h;
  fts_close = λ h. done;
  left = λ h. h;
  read_left = next_file-fewer;
  skip_left = λ h e. omega arith;
}

abbrev fresh : Loading
fresh = record {
  world = record running {
    ctx = record running.ctx { modules = []; components = vde_ordhash_new };
  };
  linker = 0;
}

modules_load_example :
    (l' : Loading) × (st : Status) × (vde_modules_load [] fresh none ≡ some (l', st))
    × Loaded fresh.world l'.world
modules_load_example = vde_modules_load-Loaded [] fresh none tt

abbrev handler : EventHandler
handler = record {
  event_add = some 1;
  event_del = some 2;
  timeout_add = some 3;
  timeout_del = some 4;
}

context_init_example :
    (l' : Loading) × (st : Status) × (vde_context_init [] fresh (some handler) none ≡ some (l', st))
    × IsValid l'.world []
    × (l'.world.ctx.event_handler ≡ handler)
    × All HasHandle l'.world.ctx.modules
context_init_example = vde_context_init-IsValid [] fresh handler none refl
