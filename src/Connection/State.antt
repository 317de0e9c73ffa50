-- ===== src/Connection/State.antt =====
-- The state that the tasks of waepic-connection share (connection.rs, and `RunnerFields` of
-- frame.rs). The atomics and mutexes are fields; a oneshot sender is the number of its waiter, and
-- the broadcast channel is the list of the events handed to it.
use waepic.Prelude.{ℕ, List, [], ◌∷◌, ◌++◌, Option, none, Bool, false, true, String}
use waepic.Prelude.Outcome.{Result}
use waepic.Prelude.Map.{Map}
use waepic.Connection.Error.{ConnectionError}
use waepic.Connection.Noise.{NoiseSocket, Link}

pub record ConnectionConfig : Type 0 where
  pub websocket_url : String
  pub auto_reconnect : Bool
  pub keepalive_interval : ℕ
  pub max_reconnect_attempts : ℕ

abbrev pub default_config : ConnectionConfig
default_config = record {
  websocket_url = "wss://web.whatsapp.com/ws/chat";
  auto_reconnect = true;
  keepalive_interval = 20;
  max_reconnect_attempts = 10;
}

pub data RawEvent (N : Type 0) : Type 0 where
  node : N → RawEvent N
  connected disconnected : RawEvent N
  error : String → RawEvent N

pub data ConnectionCommand (N : Type 0) : Type 0 where
  send_node : N → ℕ → ConnectionCommand N
  disconnect : ConnectionCommand N

-- `answers` and `send_results` hold what has been sent to each oneshot waiter.
pub record Shared (N : Type 0) : Type 0 where
  pub iq_waiters : Map String ℕ
  pub iq_id_counter : ℕ
  pub logged_out : Bool
  pub is_connected : Bool
  pub events : List (RawEvent N)
  pub answers : List (ℕ × Result ConnectionError N)
  pub send_results : List (ℕ × Result ConnectionError (Unit {0}))

-- What a running read loop works on: the shared state, and the transport and socket that it cloned.
pub record Live (C T N : Type 0) : Type 0 where
  pub link : Link C T
  pub shared : Shared N
  pub open shared use *

-- `retired` holds the transports that have been told to disconnect, and let go.
pub record RunnerFields (C T N : Type 0) : Type 0 where
  pub config : ConnectionConfig
  pub transport : Option T
  pub noise_socket : Option (NoiseSocket C)
  pub transport_events : Bool
  pub retired : List T
  pub shared : Shared N
  pub open shared use *

module _ {N : Type 0} where
  unfoldable pub broadcast : RawEvent N → Shared N → Shared N
  broadcast e s = record s { events = s.events ++ e ∷ [] }

  abbrev pub fresh : Shared N
  fresh = record {
    iq_waiters = [];
    iq_id_counter = 0;
    logged_out = false;
    is_connected = false;
    events = [];
    answers = [];
    send_results = [];
  }

-- The state behind `Connection::new`.
abbrev pub new : {C T N : Type 0} → ConnectionConfig → RunnerFields C T N
new config = record {
  config = config;
  transport = none;
  noise_socket = none;
  transport_events = false;
  retired = [];
  shared = fresh;
}
