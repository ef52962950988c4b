-- ===== src/Watcher/Tests.antt =====
-- Two listeners, and one of them again.
use zenoh_proxy.Prelude.{◌≡◌, ◌≤◌, ◌<◌, ◌⊎◌, refl, [], ◌∷◌, All, true}
use zenoh_proxy.Prelude.Dict.{emplace}
use zenoh_proxy.Watcher.{
  Listener, Watcher, construct, add_fd, remove_fd, has, insert, erase, set_all,
}
use zenoh_proxy.Watcher.Watched.{changes-max_fd}

abbrev four : Listener
four = record { name = 1; fd = 4 }

abbrev seven : Listener
seven = record { name = 2; fd = 7 }

abbrev both : Watcher
both = add_fd seven (add_fd four construct)

changes-max_fd_example :
    let a = add_fd seven both in
    let r = remove_fd seven both in
    All (λ f. f < a.max_fd) a.fds
    × ((r.fds ≡ []) ⊎ ((has r.max_fd r.fds ≡ true) × All (λ f. f ≤ r.max_fd) r.fds))
changes-max_fd_example = changes-max_fd seven both

-- What is left is the descriptor 4, and select() looks at those below 4.
still_set : ((remove_fd seven both).fds ≡ 4 ∷ []) × ((remove_fd seven both).max_fd ≡ 4)
unfolding remove_fd add_fd construct insert erase set_all emplace
still_set = (refl, refl)
