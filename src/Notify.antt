-- ===== src/Notify.antt =====
-- src/notify.rs: the messages to the service manager. Sockets are a parameter.
mod Tests
use headset_battery_indicato.Prelude.{
  ℕ, suc, ◌+◌, ◌≤◌, ◌≡◌, refl, Bool, true, false, Option, none, some, List, [], ◌∷◌, arith, Text,
  codes, is_empty_list, if◌then◌else◌, strip_prefix,
}

abbrev pub ready_message : Text
ready_message = codes "READY=1\n"

abbrev pub watchdog_message : Text
watchdog_message = codes "WATCHDOG=1\n"

abbrev pub stopping_message : Text
stopping_message = codes "STOPPING=1\n"

pub data Address : Type 0 where
  path : Text → Address
  abstract_name : Text → Address

-- Datagram sockets: one that is bound to nothing, its connection, and a message sent over it.
pub record Sockets : Type 1 where
  pub Socket : Type 0
  pub unbound : Option Socket
  pub connect : Socket → Address → Option Socket
  pub transmit : Socket → Text → Socket × Bool

pub record Notifier (S : Type 0) : Type 0 where
  pub socket : Option S
  pub complained : Bool

-- What a message leaves in the log.
pub data Line : Type 0 where
  quiet repeated warned : Line

pub silent_notifier : {S : Type 0} → Notifier S
silent_notifier = record { socket = none; complained = false }

module _ (s : Sockets) where
  abbrev pub address_of : Text → Address
  unfolding strip_prefix
  address_of address = elim (strip_prefix (codes "@") address) [
    | none ↦ path address
    | some name ↦ abstract_name name
  ]

  abbrev connected : Option s.Socket → Option (Notifier s.Socket)
  connected none = none
  connected (some socket) = some (record { socket = some socket; complained = false })

  abbrev dialled : Option s.Socket → Text → Option (Notifier s.Socket)
  unfolding address_of
  dialled none address = none
  dialled (some socket) address = connected (s.connect socket (address_of address))

  -- `Notifier::to`
  unfoldable pub notifier_to : Text → Option (Notifier s.Socket)
  unfolding dialled
  notifier_to address = dialled s.unbound address

  abbrev or_silent : Option (Notifier s.Socket) → Notifier s.Socket
  unfolding silent_notifier
  or_silent none = silent_notifier
  or_silent (some notifier) = notifier

  -- `Notifier::from_env`, given the variable.
  unfoldable pub from_env : Option Text → Notifier s.Socket
  unfolding notifier_to silent_notifier or_silent
  from_env none = silent_notifier
  from_env (some address) =
      if is_empty_list address then silent_notifier else or_silent (notifier_to address)

  abbrev sent_over : Notifier s.Socket → s.Socket × Bool → Notifier s.Socket × Line
  sent_over notifier (socket, true) = (record notifier { socket = some socket }, quiet)
  sent_over notifier (socket, false) = (
    record notifier { socket = some socket; complained = true },
    if notifier.complained then repeated else warned,
  )

  abbrev send_over : Option s.Socket → Notifier s.Socket → Text → Notifier s.Socket × Line
  send_over none notifier message = (notifier, quiet)
  send_over (some socket) notifier message = sent_over notifier (s.transmit socket message)

  unfoldable pub send : Notifier s.Socket → Text → Notifier s.Socket × Line
  send notifier message = send_over notifier.socket notifier message

  unfoldable pub ready : Notifier s.Socket → Notifier s.Socket × Line
  unfolding send
  ready notifier = send notifier ready_message

  unfoldable pub watchdog : Notifier s.Socket → Notifier s.Socket × Line
  unfolding send
  watchdog notifier = send notifier watchdog_message

  unfoldable pub stopping : Notifier s.Socket → Notifier s.Socket × Line
  unfolding send
  stopping notifier = send notifier stopping_message

  -- The warnings among the lines of a series of messages.
  abbrev pub counted : Line → ℕ → ℕ
  counted warned n = suc n
  counted quiet n = n
  counted repeated n = n

  pub warnings : Notifier s.Socket → List Text → ℕ
  unfolding send
  warnings notifier [] = 0
  warnings notifier (message ∷ messages) =
      let (notifier', line) = send notifier message in counted line (warnings notifier' messages)

  abbrev allowance : Bool → ℕ
  allowance true = 0
  allowance false = 1

  allowance-le : (complained : Bool) → allowance complained ≤ 1
  allowance-le complained = ground arith

  sent_over-allowance :
      (notifier : Notifier s.Socket) (r : s.Socket × Bool) (n : ℕ)
      → n ≤ allowance (sent_over notifier r).0.complained
      → counted (sent_over notifier r).1 n ≤ allowance notifier.complained
  sent_over-allowance notifier (socket, true) n h = h
  sent_over-allowance notifier (socket, false) n h = ground arith

  send_over-allowance :
      (o : Option s.Socket) (notifier : Notifier s.Socket) (message : Text) (n : ℕ)
      → n ≤ allowance (send_over o notifier message).0.complained
      → counted (send_over o notifier message).1 n ≤ allowance notifier.complained
  send_over-allowance none notifier message n h = h
  send_over-allowance (some socket) notifier message n h =
      sent_over-allowance notifier (s.transmit socket message) n h

  warnings-allowance :
      (notifier : Notifier s.Socket) (messages : List Text)
      → warnings notifier messages ≤ allowance notifier.complained
  unfolding warnings send
  warnings-allowance notifier [] = ground arith
  warnings-allowance notifier (message ∷ messages) =
      send_over-allowance notifier.socket notifier message _
        (warnings-allowance (send notifier message).0 messages)

  -- However many messages fail to go out, and whatever goes out between them, one warning at most is
  -- logged, whichever address the environment gave.
  pub warnings-from_env :
      (variable : Option Text) (messages : List Text) → warnings (from_env variable) messages ≤ 1
  warnings-from_env variable messages = ground (
    arith,
    warnings-allowance (from_env variable) messages,
    allowance-le (from_env variable).complained,
  )
