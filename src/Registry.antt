-- ===== src/Registry.antt =====
-- backend/src/websocket/device-registry.ts: the connections of the devices. A connection is an
-- object that is written in place and compared by its identity, so it carries a number of its own.
-- Sockets and bindings are objects that are only compared, so numbers. `authorizeApplicationBinding`
-- waits for `authorize` in its middle, so it is two steps with other calls between them.
pub mod Stale
mod Tests
use backend_bmo_blabs.Base.{
  ℕ, ◌+◌, Bool, true, false, ◌&&◌, not, Option, none, some, List, [], ◌∷◌, ◌==◌, if◌then◌else◌,
  is_some,
}
use backend_bmo_blabs.Base.Dict.{Dict, lookup, insert, erase}
use backend_bmo_blabs.RequestStore.Record.{RequestStatus, VoiceRequestRecord}
use backend_bmo_blabs.RequestStore.{RequestStore, get_active_for_device}

pub record DeviceConnection : Type 0 where
  pub identity : ℕ
  pub socket : ℕ
  pub authenticated_at : ℕ
  pub last_pong_at : ℕ
  pub application_binding : Option ℕ

pub record DeviceRegistry : Type 0 where
  pub connections : Dict DeviceConnection
  pub next_identity : ℕ

pub new_registry : DeviceRegistry
new_registry = record { connections = []; next_identity = 0 }

-- `#connections.get(deviceId)?.socket`
pub get_socket : ℕ → DeviceRegistry → Option ℕ
get_socket device s = elim (lookup device s.connections) [ none ↦ none | some c ↦ some c.socket ]

-- `authenticate`, with the socket to close.
pub authenticate : ℕ → ℕ → ℕ → DeviceRegistry → DeviceRegistry × Option ℕ
authenticate device socket now s = (
  record {
    connections =
        insert device
          (record {
            identity = s.next_identity;
            socket = socket;
            authenticated_at = now;
            last_pong_at = now;
            application_binding = none;
          })
          s.connections;
    next_identity = s.next_identity + 1;
  },
  elim (get_socket device s) [
    | none ↦ none
    | some previous ↦ if previous == socket then none else some previous
  ],
)

-- The connection of the device, if it is on the socket.
pub on_socket : ℕ → ℕ → DeviceRegistry → Option DeviceConnection
on_socket device socket s = elim (lookup device s.connections) [
  | none ↦ none
  | some c ↦ if c.socket == socket then some c else none
]

pub remove : ℕ → ℕ → DeviceRegistry → DeviceRegistry
remove device socket s = elim (on_socket device socket s) [
  | none ↦ s
  | some c ↦ record s { connections = erase device s.connections }
]

pub touch_pong : ℕ → ℕ → ℕ → DeviceRegistry → DeviceRegistry
touch_pong device socket now s = elim (on_socket device socket s) [
  | none ↦ s
  | some c ↦ record s {
    connections = insert device (record c { last_pong_at = now }) s.connections;
  }
]

pub set_application_binding : ℕ → ℕ → ℕ → DeviceRegistry → DeviceRegistry × Bool
set_application_binding device socket binding s = elim (on_socket device socket s) [
  | none ↦ (s, false)
  | some c ↦ (
    record s {
      connections = insert device (record c { application_binding = some binding }) s.connections;
    },
    true,
  )
]

-- What `authorizeApplicationBinding` holds while it waits: the connection and its binding.
pub record Pending : Type 0 where
  pub identity : ℕ
  pub binding : ℕ

-- Up to the call of `authorize`: `none` is the early return.
pub authorize_begin : ℕ → DeviceRegistry → Option Pending
authorize_begin device s = elim (lookup device s.connections) [
  | none ↦ none
  | some c ↦ elim c.application_binding [
    | none ↦ none
    | some b ↦ some (record { identity = c.identity; binding = b })
  ]
]

-- `current` is the connection that was held, with the binding that was held.
pub is_held : Pending → DeviceConnection → Bool
is_held p c =
    c.identity == p.identity
    && elim c.application_binding [ none ↦ false | some b ↦ b == p.binding ]

-- The rest, once `authorize` has answered; a throw of it is `false`.
pub authorize_end : ℕ → Pending → Bool → DeviceRegistry → DeviceRegistry × Option ℕ
authorize_end device p active s = elim (lookup device s.connections) [
  | none ↦ (s, none)
  | some c ↦ if not (is_held p c) then (s, none) else if active then (s, some p.binding) else (
    record s {
      connections = insert device (record c { application_binding = none }) s.connections;
    },
    none,
  )
]

-- `isAuthenticated`
pub is_authenticated : ℕ → Option ℕ → DeviceRegistry → Bool
is_authenticated device none s = is_some (get_socket device s)
is_authenticated device (some socket) s = is_some (on_socket device socket s)

pub data BackendState : Type 0 where
  idle thinking audio_ready : BackendState

-- `getBackendState`
pub get_backend_state : ℕ → RequestStore → BackendState × Option VoiceRequestRecord
get_backend_state device store = elim (get_active_for_device device store) [
  | none ↦ (BackendState.idle, none)
  | some r ↦ (
    elim r.status [
      | RequestStatus.audio_ready ↦ BackendState.audio_ready
      | _ ↦ BackendState.thinking
    ],
    some r,
  )
]

-- The calls that write.
pub data Call : Type 0 where
  authenticated : ℕ → ℕ → ℕ → Call
  removed : ℕ → ℕ → Call
  touched : ℕ → ℕ → ℕ → Call
  bound : ℕ → ℕ → ℕ → Call
  answered : ℕ → Pending → Bool → Call

pub step : DeviceRegistry → Call → DeviceRegistry
step s (Call.authenticated device socket now) = (authenticate device socket now s).0
step s (Call.removed device socket) = remove device socket s
step s (Call.touched device socket now) = touch_pong device socket now s
step s (Call.bound device socket binding) = (set_application_binding device socket binding s).0
step s (Call.answered device p active) = (authorize_end device p active s).0

pub run : DeviceRegistry → List Call → DeviceRegistry
unfolding step
run s [] = s
run s (c ∷ cs) = run (step s c) cs
