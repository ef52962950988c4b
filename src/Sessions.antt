-- ===== src/Sessions.antt =====
-- The sessions: src-pico/tcp_session.cpp, src/serial_session.cpp and src-pico/zenoh_session.cpp. What a
-- session asks of its thread (limero), which calls `invoke` and `onError` for the descriptors that it
-- watches, is kept, the newest first.
pub mod Tunnel
pub mod Tunnelled
pub mod Line
pub mod Turns
pub mod Sending
pub mod Net
pub mod Tests
use zenoh_proxy.Prelude.{ℕ, Bool, true, false, List, [], ◌∷◌, ◌==◌, if◌then◌else◌}

pub data Watch : Type 0 where
  add_read_invoker : ℕ → Watch
  add_error_invoker : ℕ → Watch
  delete_invoker : ℕ → Watch

-- Whether reads on the descriptor are reported: it was added, and not deleted since.
unfoldable pub is_read : ℕ → List Watch → Bool
is_read fd [] = false
is_read fd (add_read_invoker f ∷ ws) = let rest = is_read fd ws in if f == fd then true else rest
is_read fd (add_error_invoker f ∷ ws) = is_read fd ws
is_read fd (delete_invoker f ∷ ws) = let rest = is_read fd ws in if f == fd then false else rest
