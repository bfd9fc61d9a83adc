-- ===== src/Live/Tests.antt =====
-- A game that sends a frame before a viewer connects, and more on two sockets.
use foldback.Prelude.{ℕ, ◌≡◌, refl, arith, true, false, Option, none, some, List, [], ◌∷◌}
use foldback.Prelude.Utf8.{Text, ascii}
use foldback.Error.{Error, Result, ok}
use foldback.Format.Frame.{Frame, tick_hash, end_of_stream}
use foldback.Format.Tests.{tick_hash-IsFrame}
use foldback.Live.{
  Message, Hello, hello_of, Phase, bind, Event, run, step, receive, recv, accept, push_frame,
}
use foldback.Live.Sockets.{carried, Accounts}
use foldback.Live.Account.{run-Accounts}
use foldback.Live.Drain.{receives, connected, run-receives}
use foldback.Live.Shown.{Piece, all_sockets, connect_live-run}
use foldback.Live.Sockets.{sent_by}
use foldback.Format.Frame.{IsFrame}
use foldback.Format.Tests.{end_of_stream-IsFrame}
use foldback.Prelude.{subst, sym, map, All, Memᴰ, ◌++◌}
use foldback.Ui.Live as UiLive
use foldback.Ui.Live.{LiveEvent, frame_to_live_event, hello_event, Viewer, connect_live}

abbrev to_json : Hello → Text
to_json h = h.kind

abbrev hello : Hello
hello = hello_of 60 2 (1 ∷ 2 ∷ [])

abbrev first : Frame
first = tick_hash 1 0 7

abbrev second : Frame
second = tick_hash 2 0 8

-- The second frame is lost with the first socket.
abbrev events : List Event
events =
    Event.send_frame first
    ∷ Event.accepted
    ∷ Event.received true
    ∷ Event.send_frame second
    ∷ Event.received false
    ∷ Event.not_accepted
    ∷ Event.send_frame end_of_stream
    ∷ Event.accepted
    ∷ Event.drop_server
    ∷ Event.received true
    ∷ Event.received true
    ∷ []

events-run : run to_json hello bind events ≡ record {
  queue = [];
  dropped = true;
  phase = Phase.exited;
  closed = carried to_json hello (first ∷ []) ∷ carried to_json hello (end_of_stream ∷ []) ∷ [];
}
unfolding run step receive recv accept push_frame
events-run = refl

run-Accounts_example :
    Accounts to_json hello (first ∷ second ∷ end_of_stream ∷ []) (run to_json hello bind events)
run-Accounts_example = run-Accounts to_json hello events

run-receives_example :
    run to_json hello (connected (carried to_json hello []) (first ∷ second ∷ []) []) (receives 3)
    ≡ record {
      queue = [];
      dropped = true;
      phase = Phase.exited;
      closed = carried to_json hello (first ∷ second ∷ []) ∷ [];
    }
run-receives_example =
    run-receives to_json hello (first ∷ second ∷ []) (carried to_json hello []) []

-- Dropped while no viewer is connected, the thread goes on waiting for one.
idle-drop :
    (run to_json hello bind (Event.drop_server ∷ Event.received true ∷ [])).phase ≡ Phase.listening
unfolding run step receive
idle-drop = refl

abbrev display : Error → Text
display e = ascii "error"

abbrev into_text : Message → Option Text
into_text (Message.text t) = some t
into_text (Message.binary b) = none
into_text Message.control = none

abbrev read : UiLive.Hello
read = record { tick_rate_hz = 60; peer_count = 2; build_id = ascii "0102" }

abbrev from_json : Text → Result Text UiLive.Hello
from_json t = ok read

abbrev viewer : Viewer ℕ
viewer = record { connection = none; events = [] }

sent-IsFrame : All IsFrame (sent_by false events)
sent-IsFrame = (
  tick_hash-IsFrame 1 0 7 (omega arith) (omega arith) (omega arith),
  (tick_hash-IsFrame 2 0 8 (omega arith) (omega arith) (omega arith), (end_of_stream-IsFrame, tt)),
)

first-socket :
    Memᴰ (carried to_json hello (first ∷ [])) (all_sockets (run to_json hello bind events))
first-socket =
    subst (λ s. Memᴰ (carried to_json hello (first ∷ [])) (all_sockets s)) (sym events-run)
      (Memᴰ.head refl)

connect_live-run_example :
    (frames : List Frame) × Piece frames (first ∷ second ∷ end_of_stream ∷ [])
    × (connect_live display into_text from_json
          (λ n. ok n)
          (λ n. ok tt)
          (ok (record {
            incoming = carried to_json hello (first ∷ []);
            ending = ascii "closed";
            plain = some 4;
          }))
          viewer
        ≡ (
          ok tt,
          record {
            connection = some 4;
            events =
                hello_event read
                ∷ (map frame_to_live_event frames
                    ++ (LiveEvent.disconnected (ascii "closed") ∷ []));
          },
        ))
connect_live-run_example =
    connect_live-run to_json hello display into_text from_json (λ n. ok n) (λ n. ok tt) events
      (carried to_json hello (first ∷ [])) read (ascii "closed") 4 4 viewer sent-IsFrame
      first-socket refl refl refl
