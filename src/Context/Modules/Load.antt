-- ===== src/Context/Modules/Load.antt =====
-- module.c: the modules that are loaded from files, and vde_context_init of context.c. dlopen, access and
-- the functions of fts are of the C library, so they are interfaces.
pub mod Laws
pub mod Init
use vde.Base.{
  ℕ, zero, suc, ◌-◌, ◌<◌, ◌≤◌, ◌≡◌, Bool, true, false, Option, none, some, List, [], ◌∷◌, ◌&&◌, ltb,
  ◌==s◌, if◌then◌else◌, CString, Status, Errno, done, fail, einval, enoent, is_some, length, drop,
  map,
}
use vde.Glib.{Glib}
use vde.OrdHash.{vde_ordhash_new}
use vde.Component.{Module}
use vde.Context.{World, EventHandler}
use vde.Context.Modules.{vde_context_register_module}

-- What dlsym says of vde_module_start: an error, a symbol that is NULL, or a module.
pub data Symbol : Type 0 where
  missing : Symbol
  null_symbol : Symbol
  start : Module → Symbol

pub record Dl : Type 1 where
  pub State : Type 0
  pub dlopen : State → CString → State × Option ℕ
  pub dlsym : State → ℕ → State × Symbol
  pub dlclose : State → ℕ → State
  pub readable : CString → Bool

-- The values of fts_info that the loop names; `file` is FTS_F, `dir` FTS_D, and the errors are FTS_ERR,
-- FTS_DNR and FTS_NS.
pub data FtsInfo : Type 0 where
  file : FtsInfo
  fts_error : FtsInfo
  dir : FtsInfo
  other_info : FtsInfo

pub record FtsEntry : Type 0 where
  pub info : FtsInfo
  pub path : CString
  pub level : ℕ

-- An open hierarchy. It is finite: `left` bounds the entries that are still to be read.
pub record Fts : Type 1 where
  pub Handle : Type 0
  pub fts_open : List CString → Option Handle
  pub open_errno : Errno
  pub fts_read : Handle → Option (FtsEntry × Handle)
  pub set_skip : Handle → FtsEntry → Handle
  pub fts_close : Handle → Status
  pub left : Handle → ℕ
  pub read_left : (h h' : Handle) (e : FtsEntry) → fts_read h ≡ some (e, h') → left h' < left h
  pub skip_left : (h : Handle) (e : FtsEntry) → left (set_skip h e) ≤ left h

-- The suffix ".so" after at least one byte
abbrev pub has_suffix : CString → Bool
has_suffix path = ltb 3 (length path) && (drop (length path - 3) path ==s (b'.' ∷ b's' ∷ b'o' ∷ []))

abbrev pub or_default : List CString → Option (List CString) → List CString
or_default default none = default
or_default default (some path) = path

-- `mod->dlhandle = handle`, where the module is the one that was registered last.
abbrev pub set_dlhandle : ℕ → List Module → List Module
set_dlhandle handle [] = []
set_dlhandle handle (m ∷ ms) = record m { dlhandle = some handle } ∷ ms

module _ ⦃g : Glib⦄ ⦃dl : Dl⦄ where
  -- The program and the state of the dynamic linker.
  pub record Loading : Type 0 where
    pub world : World
    pub linker : dl.State

  -- The end of module_try_load: the handle is kept, or closed.
  pub keep_module : Loading → ℕ → Module → Loading × Status
  keep_module l handle m =
      let (w, st) = vde_context_register_module l.world m in
      elim st [
        | fail e ↦ (record { world = w; linker = dl.dlclose l.linker handle }, fail e)
        | done ↦ (
          record l {
            world = record w { ctx = record w.ctx { modules = set_dlhandle handle w.ctx.modules } };
          },
          done,
        )
      ]

  pub with_symbol : Loading → ℕ → Symbol → Loading × Status
  unfolding keep_module
  with_symbol l handle missing = (record l { linker = dl.dlclose l.linker handle }, fail enoent)
  with_symbol l handle null_symbol = (record l { linker = dl.dlclose l.linker handle }, fail einval)
  with_symbol l handle (start m) = keep_module l handle m

  pub module_try_load : Loading → CString → Loading × Status
  unfolding with_symbol
  module_try_load l path =
      let (s, opened) = dl.dlopen l.linker path in
      elim opened [
        | none ↦ (record l { linker = s }, fail einval)
        | some handle ↦
            let (s', symbol) = dl.dlsym s handle in
            with_symbol (record l { linker = s' }) handle symbol
      ]

  module _ ⦃fts : Fts⦄ where
    -- The switch in the loop of vde_modules_load.
    pub visit : FtsInfo → Loading → FtsEntry → fts.Handle → Loading × fts.Handle
    unfolding module_try_load
    visit file l e h =
        if has_suffix e.path && dl.readable e.path
        then ((module_try_load l e.path).0, h)
        else (l, h)
    visit dir l e h = (l, if ltb 0 e.level then fts.set_skip h e else h)
    visit fts_error l e h = (l, h)
    visit other_info l e h = (l, h)

    -- `none` where the fuel runs out.
    pub load_loop : ℕ → Loading → fts.Handle → Option (Loading × fts.Handle)
    unfolding visit
    load_loop zero l h = none
    load_loop (suc fuel) l h = elim (fts.fts_read h) [
      | none ↦ some (l, h)
      | some (e, h') ↦ let (l', h'') = visit e.info l e h' in load_loop fuel l' h''
    ]

    -- `default` is what vde_modules_default_path returns.
    pub vde_modules_load :
        List CString → Loading → Option (List CString) → Option (Loading × Status)
    unfolding load_loop
    vde_modules_load default l path = elim (fts.fts_open (or_default default path)) [
      | none ↦ some (l, fail fts.open_errno)
      | some h ↦ elim (load_loop (suc (fts.left h)) l h) [
        | none ↦ none
        | some (l', h') ↦ some (l', fts.fts_close h')
      ]
    ]

    abbrev pub is_complete : EventHandler → Bool
    is_complete e =
        is_some e.event_add
        && (is_some e.event_del && (is_some e.timeout_add && is_some e.timeout_del))

    pub vde_context_init :
        List CString
        → Loading
        → Option EventHandler
        → Option (List CString)
        → Option (Loading × Status)
    unfolding vde_modules_load
    vde_context_init default l none path = some (l, fail einval)
    vde_context_init default l (some handler) path =
        if is_complete handler
        then vde_modules_load default
            (record l {
              world = record l.world {
                ctx = record l.world.ctx {
                  event_handler = handler;
                  modules = [];
                  components = vde_ordhash_new;
                  initialized = 1;
                };
              };
            })
            path
        else some (l, fail einval)
