-- ===== src/Ui/Live.antt =====
-- crates/foldback-ui/src/live.rs and `frame_to_live_event` of session.rs: the viewer's live mode. A
-- socket holds the messages that it will still give and the error with which it then ends.
use foldback.Prelude.{ℕ, Option, none, some, List, [], ◌∷◌, ◌++◌}
use foldback.Prelude.Utf8.{Text, ascii}
use foldback.Error.{Error, Result, ok, err}
use foldback.Io.{eof}
use foldback.Format.Frame.{Frame}
use foldback.Format.Stream.{next_frame}
use foldback.Live.{Message}
use foldback.Ui.{TickHashEntry, EntityHashEntry, FieldHashEntry, hex, hex_bytes}

pub data LiveEvent : Type 0 where
  -- tick_rate_hz, peer_count, build_id
  hello : ℕ → ℕ → Text → LiveEvent
  tick_hash : TickHashEntry → LiveEvent
  entity_hash : EntityHashEntry → LiveEvent
  field_hash : FieldHashEntry → LiveEvent
  snapshot : ℕ → LiveEvent
  metadata : LiveEvent
  end_of_stream : LiveEvent
  disconnected : Text → LiveEvent

unfoldable pub frame_to_live_event : Frame → LiveEvent
frame_to_live_event (Frame.tick_hash tick peer_id hash) =
    LiveEvent.tick_hash (record { tick = tick; peer_id = peer_id; hash = hex hash })
frame_to_live_event (Frame.entity_hash tick peer_id entity_id hash) =
    LiveEvent.entity_hash
      (record { tick = tick; peer_id = peer_id; entity_id = entity_id; hash = hex hash })
frame_to_live_event (Frame.field_hash tick peer_id entity_id field_name hash value) =
    LiveEvent.field_hash (record {
      tick = tick;
      peer_id = peer_id;
      entity_id = entity_id;
      field_name = field_name;
      hash = hex hash;
      value_hex = hex_bytes value;
    })
frame_to_live_event (Frame.snapshot tick _ _) = LiveEvent.snapshot tick
frame_to_live_event (Frame.metadata _ _) = LiveEvent.metadata
frame_to_live_event Frame.end_of_stream = LiveEvent.end_of_stream

-- The fields that the viewer reads from the hello.
pub record Hello : Type 0 where
  pub tick_rate_hz : ℕ
  pub peer_count : ℕ
  pub build_id : Text

pub data ConnectError : Type 0 where
  could_not_connect : Text → ConnectError
  no_hello : Text → ConnectError
  hello_not_text : ConnectError
  hello_not_json : Text → ConnectError
  not_plain : ConnectError
  could_not_clone : Text → ConnectError

pub record Socket (Stream : Type 0) : Type 0 where
  pub incoming : List Message
  pub ending : Text
  -- the TCP stream below, if it is a plain one
  pub plain : Option Stream

-- The state of the viewer: `LiveConnection`, and the events that were emitted.
pub record Viewer (Stream : Type 0) : Type 0 where
  pub connection : Option Stream
  pub events : List LiveEvent

abbrev pub emit : {Stream : Type 0} → List LiveEvent → Viewer Stream → Viewer Stream
emit es v = record v { events = v.events ++ es }

abbrev pub hello_event : Hello → LiveEvent
hello_event h = LiveEvent.hello h.tick_rate_hz h.peer_count h.build_id

module _ (display : Error → Text) where
  -- What a message does to the loop: `rest` is the loop from there on.
  unfoldable pub shown : Result Error (Option Frame) → List LiveEvent → List LiveEvent
  shown (ok (some frame)) rest = frame_to_live_event frame ∷ rest
  shown (ok none) rest = rest
  shown (err e) rest = LiveEvent.disconnected (ascii "malformed frame: " ++ display e) ∷ []

  -- The events that the thread emits.
  unfoldable pub stream_frames : List Message → Text → List LiveEvent
  unfolding shown
  stream_frames [] ending = LiveEvent.disconnected ending ∷ []
  stream_frames (Message.binary bytes ∷ ms) ending =
      shown (next_frame (record { bytes = bytes; ending = eof })).0 (stream_frames ms ending)
  stream_frames (Message.text t ∷ ms) ending = stream_frames ms ending
  stream_frames (Message.control ∷ ms) ending = stream_frames ms ending

  -- `connect_live` with the thread that it starts, to its end. `into_text`, `from_json`, `try_clone`
  -- and `shutdown` are those of the libraries.
  module _ {Stream : Type 0} (into_text : Message → Option Text)
      (from_json : Text → Result Text Hello) (try_clone : Stream → Result Text Stream)
      (shutdown : Stream → Result Text (Unit {0})) where
    unfoldable pub start :
        Result Text Stream
        → List Message
        → Text
        → Viewer Stream
        → Result ConnectError (Unit {0}) × Viewer Stream
    unfolding stream_frames
    start (err e) ms ending v = (err (ConnectError.could_not_clone e), v)
    start (ok tcp) ms ending v =
        (ok tt, record { connection = some tcp; events = v.events ++ stream_frames ms ending })

    unfoldable pub clone_and_start :
        Option Stream
        → List Message
        → Text
        → Viewer Stream
        → Result ConnectError (Unit {0}) × Viewer Stream
    unfolding start
    clone_and_start none ms ending v = (err ConnectError.not_plain, v)
    clone_and_start (some tcp) ms ending v = start (try_clone tcp) ms ending v

    unfoldable pub greeted :
        Result Text Hello
        → List Message
        → Socket Stream
        → Viewer Stream
        → Result ConnectError (Unit {0}) × Viewer Stream
    unfolding clone_and_start
    greeted (err e) ms socket v = (err (ConnectError.hello_not_json e), v)
    greeted (ok read) ms socket v =
        clone_and_start socket.plain ms socket.ending (emit (hello_event read ∷ []) v)

    unfoldable pub hello_read :
        Option Text
        → List Message
        → Socket Stream
        → Viewer Stream
        → Result ConnectError (Unit {0}) × Viewer Stream
    unfolding greeted
    hello_read none ms socket v = (err ConnectError.hello_not_text, v)
    hello_read (some t) ms socket v = greeted (from_json t) ms socket v

    unfoldable pub read_hello :
        List Message
        → Socket Stream
        → Viewer Stream
        → Result ConnectError (Unit {0}) × Viewer Stream
    unfolding hello_read
    read_hello [] socket v = (err (ConnectError.no_hello socket.ending), v)
    read_hello (m ∷ ms) socket v = hello_read (into_text m) ms socket v

    -- The argument is what `tungstenite::connect` gives.
    unfoldable pub connect_live :
        Result Text (Socket Stream) → Viewer Stream → Result ConnectError (Unit {0}) × Viewer Stream
    unfolding read_hello
    connect_live (err e) v = (err (ConnectError.could_not_connect e), v)
    connect_live (ok socket) v = read_hello socket.incoming socket v

    unfoldable pub disconnect :
        Option Stream → Viewer Stream → Result Text (Unit {0}) × Viewer Stream
    disconnect none v = (ok tt, v)
    disconnect (some tcp) v = (shutdown tcp, record v { connection = none })

    unfoldable pub disconnect_live : Viewer Stream → Result Text (Unit {0}) × Viewer Stream
    unfolding disconnect
    disconnect_live v = disconnect v.connection v
