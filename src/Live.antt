-- ===== src/Live.antt =====
-- crates/foldback-core/src/live.rs: the server of the live mode. What happens is a sequence of events:
-- calls of the game, and what the background thread meets at its next blocking call.
pub mod Sockets
pub mod Account
pub mod Viewer
pub mod Shown
pub mod Drain
mod Tests
use foldback.Prelude.{ℕ, Bool, true, false, List, [], ◌∷◌, ◌++◌, foldl}
use foldback.Prelude.Utf8.{Text, ascii}
use foldback.Io.{vec}
use foldback.Format.Header.{format_version}
use foldback.Format.Frame.{Frame, write_frame}
use foldback.Ui.{hex_bytes}

-- A message of the crate tungstenite.
pub data Message : Type 0 where
  text : Text → Message
  binary : List ℕ → Message
  control : Message

pub record Hello : Type 0 where
  pub kind : Text
  pub protocol_version : ℕ
  pub tick_rate_hz : ℕ
  pub peer_count : ℕ
  pub build_id : Text

abbrev pub hello_of : ℕ → ℕ → List ℕ → Hello
hello_of tick_rate_hz peer_count build_id = record {
  kind = ascii "hello";
  protocol_version = format_version;
  tick_rate_hz = tick_rate_hz;
  peer_count = peer_count;
  build_id = hex_bytes build_id;
}

-- The message for a frame: the bytes that it writes to a `Vec`.
unfoldable pub frame_message : Frame → Message
frame_message frame = Message.binary (write_frame frame (vec [])).1.written

-- Where the background thread stands: in `accept`, or in `recv` with an open socket, of which the
-- model keeps the messages sent.
pub data Phase : Type 0 where
  listening : Phase
  streaming : List Message → Phase
  exited : Phase

-- The channel, whether the `LiveServer` is dropped, the thread, and the sockets that are closed.
pub record Server : Type 0 where
  pub queue : List Frame
  pub dropped : Bool
  pub phase : Phase
  pub closed : List (List Message)

abbrev pub bind : Server
bind = record { queue = []; dropped = false; phase = Phase.listening; closed = [] }

pub data Event : Type 0 where
  -- `LiveServer::send_frame`
  send_frame : Frame → Event
  -- the `LiveServer` is dropped
  drop_server : Event
  -- `accept`, the WebSocket handshake or the sending of the hello fails
  not_accepted : Event
  -- a viewer connects, and the hello is sent
  accepted : Event
  -- the thread receives; whether the send on the socket succeeds
  received : Bool → Event

unfoldable pub push_frame : Bool → Frame → Server → Server
push_frame true frame s = s
push_frame false frame s = record s { queue = s.queue ++ (frame ∷ []) }

-- The loop over frames: one `recv`. It waits while the channel is open and empty.
unfoldable pub recv : Bool → List Message → List Frame → Bool → Server → Server
recv true socket (frame ∷ queue) dropped s = record s {
  queue = queue;
  phase = Phase.streaming (socket ++ (frame_message frame ∷ []));
}
recv false socket (frame ∷ queue) dropped s = record s {
  queue = queue;
  phase = Phase.listening;
  closed = s.closed ++ (socket ∷ []);
}
recv sent socket [] true s = record s { phase = Phase.exited; closed = s.closed ++ (socket ∷ []) }
recv sent socket [] false s = s

module _ (to_json : Hello → Text) (hello : Hello) where
  unfoldable pub accept : Phase → Server → Server
  accept Phase.listening s = record s {
    phase = Phase.streaming (Message.text (to_json hello) ∷ []);
  }
  accept (Phase.streaming socket) s = s
  accept Phase.exited s = s

  unfoldable pub receive : Bool → Phase → Server → Server
  unfolding recv
  receive sent Phase.listening s = s
  receive sent (Phase.streaming socket) s = recv sent socket s.queue s.dropped s
  receive sent Phase.exited s = s

  -- An event that cannot happen where the thread stands changes nothing.
  unfoldable pub step : Server → Event → Server
  unfolding push_frame accept receive
  step s (Event.send_frame frame) = push_frame s.dropped frame s
  step s Event.drop_server = record s { dropped = true }
  step s Event.not_accepted = s
  step s Event.accepted = accept s.phase s
  step s (Event.received sent) = receive sent s.phase s

  unfoldable pub run : Server → List Event → Server
  unfolding step
  run s [] = s
  run s (e ∷ es) = run (step s e) es
