-- ===== src/Ctrl/Subscribe.antt =====
-- engine_ctrl.c: engine_ctrl_notify_add and engine_ctrl_notify_del, by which a connection of the control
-- engine subscribes to the signals of components, and the part of ctrl_conn_fini_noengine that ends its
-- subscriptions. `none` is a pointer to a component that is not there.
pub mod Laws
pub mod Detached
pub mod Ending
pub mod Tests
use vde.Base.{
  ℕ, Bool, true, false, Option, none, some, List, [], ◌∷◌, ◌==◌, if◌then◌else◌, CString, Status,
  Errno, done, fail, einval, enoent, inl, inr, take, length, ◌==s◌,
}
use vde.Glib.{Glib}
use vde.Component.{Component}
use vde.Component.Signals.{vde_component_signal_attach, vde_component_signal_detach}
use vde.Context.{World, store}
use vde.Context.Life.{vde_context_get_component}
use vde.Ctrl.Paths.{check_split_path}

-- An entry of reg_signals: a copy of the path, and its address.
pub record Registration : Type 0 where
  pub addr : ℕ
  pub path : CString

-- What the command answers.
pub data Answer : Type 0 where
  bad_path no_component attach_failed attached : Answer
  not_registered detach_failed detached : Answer

-- The addresses of signal_callback, of signal_destroy_callback, and of the ctrl_conn; and for which of its
-- paths the two names of a path find memory when the connection ends.
pub record Subscriber : Type 0 where
  pub callback : ℕ
  pub destroy : ℕ
  pub self : ℕ
  pub name_alloc : CString → Bool
  pub path_alloc : CString → Bool

-- The loop over reg_signals: strncmp compares as many bytes as the registered path has.
unfoldable pub find_registration : List Registration → CString → Option Registration
find_registration [] full_path = none
find_registration (r ∷ rs) full_path =
    if take (length r.path) full_path ==s r.path then some r else find_registration rs full_path

module _ ⦃g : Glib⦄ where
  -- The program, and the list reg_signals of the connection.
  pub record Subs : Type 0 where
    pub world : World
    pub reg_signals : List Registration

  abbrev pub change : World → ℕ → (Component → Component × Status) → Option (World × Status)
  change w p f = elim (w.heap p) [
    | none ↦ none
    | some c ↦ let (c', st) = f c in some (store w p (some c'), st)
  ]

  module _ (cc : Subscriber) where
    -- `entry` and `copy` are the addresses that are allocated for the callback and for the path.
    unfoldable pub add_at :
        Option ℕ → ℕ → Subs → CString → CString → ℕ → Option (Subs × Answer × Status)
    add_at entry copy s full_path signal_name p =
        elim (change s.world p (λ c.
          vde_component_signal_attach entry s.world.quarks c signal_name cc.callback cc.destroy
            cc.self)) [
              | none ↦ none
              | some (w, st) ↦ elim st [
                | fail e ↦ some (record s { world = w }, attach_failed, fail e)
                | done ↦ some (
                  record {
                    world = w;
                    reg_signals =
                        g.list_prepend s.reg_signals (record { addr = copy; path = full_path });
                  },
                  attached,
                  done,
                )
              ]
            ]

    unfoldable pub engine_ctrl_notify_add :
        Bool → Bool → Option ℕ → ℕ → Subs → CString → Option (Subs × Answer × Status)
    unfolding add_at
    engine_ctrl_notify_add name_alloc path_alloc entry copy s full_path =
        elim (check_split_path name_alloc path_alloc full_path) [
          | inl e ↦ some (s, bad_path, fail einval)
          | inr (component_name, signal_name) ↦
              elim (vde_context_get_component s.world component_name) [
                | none ↦ some (s, no_component, fail enoent)
                | some p ↦ add_at entry copy s full_path signal_name p
              ]
        ]

    unfoldable pub detach_at : Registration → Subs → CString → ℕ → Option (Subs × Answer × Status)
    detach_at r s signal_name p =
        elim (change s.world p (λ c.
          vde_component_signal_detach s.world.quarks c signal_name cc.callback cc.destroy
            cc.self)) [
              | none ↦ none
              | some (w, st) ↦ elim st [
                | fail e ↦ some (record s { world = w }, detach_failed, fail e)
                | done ↦ some (
                  record {
                    world = w;
                    reg_signals = g.list_remove (λ (x : Registration). x.addr) s.reg_signals r.addr;
                  },
                  detached,
                  done,
                )
              ]
            ]

    unfoldable pub engine_ctrl_notify_del :
        Bool → Bool → Subs → CString → Option (Subs × Answer × Status)
    unfolding detach_at find_registration
    engine_ctrl_notify_del name_alloc path_alloc s full_path =
        elim (find_registration s.reg_signals full_path) [
          | none ↦ some (s, not_registered, fail enoent)
          | some r ↦ elim (check_split_path name_alloc path_alloc full_path) [
            | inl e ↦ some (s, bad_path, fail einval)
            | inr (component_name, signal_name) ↦
                elim (vde_context_get_component s.world component_name) [
                  | none ↦ some (s, no_component, fail enoent)
                  | some p ↦ detach_at r s signal_name p
                ]
          ]
        ]

    -- One registered path of a connection that ends. What cannot be split, also where there is no memory for
    -- the names, or cannot be detached is logged, and stays attached.
    unfoldable pub detach_path : World → CString → Option World
    detach_path w path = elim (check_split_path (cc.name_alloc path) (cc.path_alloc path) path) [
      | inl e ↦ some w
      | inr (component_name, sig_path) ↦ elim (vde_context_get_component w component_name) [
        | none ↦ some w
        | some p ↦
            elim (change w p (λ c.
              vde_component_signal_detach w.quarks c sig_path cc.callback cc.destroy cc.self)) [
                | none ↦ none
                | some (w', st) ↦ some w'
              ]
      ]
    ]

    -- The loop of ctrl_conn_fini_noengine.
    unfoldable pub detach_all : World → List Registration → Option World
    unfolding detach_path
    detach_all w [] = some w
    detach_all w (r ∷ rs) = elim (detach_path w r.path) [ none ↦ none | some w' ↦ detach_all w' rs ]
