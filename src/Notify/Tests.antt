-- ===== src/Notify/Tests.antt =====
-- A service manager that went away, and the addresses of sockets.
use headset_battery_indicato.Prelude.{ℕ, ◌≤◌, ◌≡◌, refl, false, some, [], ◌∷◌, codes}
use headset_battery_indicato.Notify.{
  Sockets, abstract_name, address_of, from_env, warnings, warnings-from_env, watchdog_message,
  ready_message, send,
}

-- The connection stands, and nothing goes out over it.
abbrev deaf : Sockets
deaf = record {
  Socket = ℕ;
  unbound = some 3;
  connect = λ socket address. some socket;
  transmit = λ socket message. (socket, false);
}

an_abstract_socket : address_of deaf (codes "@systemd") ≡ abstract_name (codes "systemd")
unfolding address_of
an_abstract_socket = refl

one_warning :
    warnings deaf
      (from_env deaf (some (codes "/run/systemd/notify")))
      (ready_message ∷ watchdog_message ∷ watchdog_message ∷ [])
    ≡ 1
unfolding warnings from_env send
one_warning = refl

warnings-from_env_example :
    warnings deaf
      (from_env deaf (some (codes "/run/systemd/notify")))
      (ready_message ∷ watchdog_message ∷ watchdog_message ∷ [])
    ≤ 1
warnings-from_env_example =
    warnings-from_env deaf (some (codes "/run/systemd/notify"))
      (ready_message ∷ watchdog_message ∷ watchdog_message ∷ [])
