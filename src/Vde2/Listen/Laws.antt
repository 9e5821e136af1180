-- ===== src/Vde2/Listen/Laws.antt =====
-- transport_vde2.c: when a transport listens.
use vde.Base.{
  ◌||◌, not, ebusy, enoent, epipe, eagain, enospc, ebadmsg, other, ◌&&◌, ℕ, ◌≡◌, refl, Bool, true,
  false, Option, none, some, ◌==◌, ◌⊎◌, inl, inr, if◌then◌else◌, Status, Errno, done, fail, is_done,
  einval, enomem, eexist, econnrefused, eaddrinuse, arith, Status-cases,
}
use vde.Base.Int.{ℤ, pos, negsuc}
use vde.Vde2.Handshake.{Sys}
use vde.Vde2.Listen.{
  ListenAnswers, vde2_remove_sock_if_unused, made_directory, bind_path, then_status, prepared,
  vde2_listen,
}

abbrev is_eexist : Status → Bool
is_eexist (fail eexist) = true
is_eexist (fail _) = false
is_eexist done = false

abbrev is_eaddrinuse : Status → Bool
is_eaddrinuse (fail eaddrinuse) = true
is_eaddrinuse (fail _) = false
is_eaddrinuse done = false

-- Connecting to the address fails since no server is there.
abbrev is_unused : Option Status → Bool
is_unused (some (fail econnrefused)) = true
is_unused (some (fail _)) = false
is_unused (some done) = false
is_unused none = false

-- A directory that exists already is as good as one that is made. An address that cannot be bound is tried
-- once more, but for one that is in use and not found unused.
abbrev pub can_listen : ListenAnswers → Bool
can_listen ans =
    (is_done ans.reuse && is_done ans.nonblock)
    && ((is_done ans.mkdir || is_eexist ans.mkdir)
        && ((is_done ans.bind
              || ((not (is_eaddrinuse ans.bind) || is_unused ans.test) && is_done ans.bind_again))
            && is_done ans.listen))

abbrev pub is_fd : Errno ⊎ ℕ → ℕ → Bool
is_fd (inl e) n = false
is_fd (inr fd) n = fd == n

abbrev pub fd_of : Errno ⊎ ℕ → ℤ
fd_of (inl e) = negsuc 0
fd_of (inr fd) = pos fd

abbrev pub is_inr : Errno ⊎ ℕ → Bool
is_inr (inl e) = false
is_inr (inr fd) = true

made_directory-done : (st : Status) → is_done (made_directory st) ≡ (is_done st || is_eexist st)
made_directory-done done = refl
made_directory-done (fail einval) = refl
made_directory-done (fail enomem) = refl
made_directory-done (fail enoent) = refl
made_directory-done (fail eexist) = refl
made_directory-done (fail ebusy) = refl
made_directory-done (fail epipe) = refl
made_directory-done (fail eagain) = refl
made_directory-done (fail enospc) = refl
made_directory-done (fail ebadmsg) = refl
made_directory-done (fail econnrefused) = refl
made_directory-done (fail eaddrinuse) = refl
made_directory-done (fail (other n)) = refl

remove-unused : (test : Option Status) → vde2_remove_sock_if_unused test ≡ not (is_unused test)
remove-unused none = refl
remove-unused (some done) = refl
remove-unused (some (fail einval)) = refl
remove-unused (some (fail enomem)) = refl
remove-unused (some (fail enoent)) = refl
remove-unused (some (fail eexist)) = refl
remove-unused (some (fail ebusy)) = refl
remove-unused (some (fail epipe)) = refl
remove-unused (some (fail eagain)) = refl
remove-unused (some (fail enospc)) = refl
remove-unused (some (fail ebadmsg)) = refl
remove-unused (some (fail econnrefused)) = refl
remove-unused (some (fail eaddrinuse)) = refl
remove-unused (some (fail (other n))) = refl

bind_path-done :
    (st : Status) (test : Option Status) (late : Errno) (again : Status)
    → is_done (bind_path st test late again)
      ≡ (is_done st || ((not (is_eaddrinuse st) || is_unused test) && is_done again))
bind_path-done done test late again = refl
bind_path-done (fail einval) test late again = refl
bind_path-done (fail enomem) test late again = refl
bind_path-done (fail enoent) test late again = refl
bind_path-done (fail eexist) test late again = refl
bind_path-done (fail ebusy) test late again = refl
bind_path-done (fail epipe) test late again = refl
bind_path-done (fail eagain) test late again = refl
bind_path-done (fail enospc) test late again = refl
bind_path-done (fail ebadmsg) test late again = refl
bind_path-done (fail econnrefused) test late again = refl
bind_path-done (fail eaddrinuse) test late again = ground (arith, remove-unused test)
bind_path-done (fail (other n)) test late again = refl

then_status-done : (st st' : Status) → is_done (then_status st st') ≡ (is_done st && is_done st')
then_status-done done st' = refl
then_status-done (fail e) st' = refl

prepared-can_listen : (ans : ListenAnswers) → is_done (prepared ans) ≡ can_listen ans
prepared-can_listen ans =
    let bound = bind_path ans.bind ans.test ans.late ans.bind_again in
    let made = made_directory ans.mkdir in
    ground (
      arith,
      then_status-done bound ans.listen,
      then_status-done made (then_status bound ans.listen),
      then_status-done ans.nonblock (then_status made (then_status bound ans.listen)),
      then_status-done ans.reuse
          (then_status ans.nonblock (then_status made (then_status bound ans.listen))),
      made_directory-done ans.mkdir,
      bind_path-done ans.bind ans.test ans.late ans.bind_again,
    )

-- A transport listens, with its new descriptor open and its event, exactly if it gets a socket, and each
-- call succeeds, with these exceptions: the directory may exist already, and where the address cannot be bound
-- the second bind counts, unless the address is in use and not found unused. Else its descriptor is -1, and a
-- descriptor that it got is closed. The other descriptors, its directory, and all connections are as before.
pub vde2_listen_lem :
    (ans : ListenAnswers) (s : Sys)
    → let (s', st) = vde2_listen ans s in
      let listens = is_inr ans.socket && can_listen ans in
      (is_done st ≡ listens)
      × (s'.tr.listen_fd ≡ (if listens then fd_of ans.socket else negsuc 0))
      × ((n : ℕ) → s'.files n ≡ (if is_fd ans.socket n then listens else s.files n))
      × (s'.tr.listen_event ≡ (if listens then ans.event else s.tr.listen_event))
      × (s'.tr.vdesock_dir ≡ s.tr.vdesock_dir)
      × (s'.tr.connections ≡ s.tr.connections)
      × (s'.tr.pending_conns ≡ s.tr.pending_conns)
      × (s'.conns ≡ s.conns)
unfolding vde2_listen
vde2_listen_lem ans s =
    let exactly = prepared-can_listen ans in
    elim (socket_cases ans.socket) [
      | inl (e, none_got) ↦
          rw (none_got, vde2_listen) (refl, refl, λ n. refl, refl, refl, refl, refl, refl)
      | inr (fd, got) ↦ elim (Status-cases (prepared ans)) [
        | inl ok ↦
            let yes : can_listen ans ≡ true = ground (arith, ok, exactly) in
            rw (got, ok, yes, vde2_listen)
              (refl, refl, λ n. ground arith, refl, refl, refl, refl, refl)
        | inr (e, bad) ↦
            let no : can_listen ans ≡ false = ground (arith, bad, exactly) in
            rw (got, bad, no, vde2_listen)
              (refl, refl, λ n. ground arith, refl, refl, refl, refl, refl)
      ]
    ]
  where
    socket_cases : (x : Errno ⊎ ℕ) → ((e : Errno) × (x ≡ inl e)) ⊎ ((fd : ℕ) × (x ≡ inr fd))
    socket_cases (inl e) = inl (e, refl)
    socket_cases (inr fd) = inr (fd, refl)
