-- ===== src/Live/Viewer.antt =====
-- The two ends of the live mode: a viewer on a socket of the server.
use foldback.Prelude.{Option, some, List, [], ◌∷◌, ◌++◌, map, append-nil, append_assoc, All}
use foldback.Prelude.{◌≡◌, refl, sym, ap, ◌∙◌}
use foldback.Prelude.Utf8.{Text}
use foldback.Error.{Error, Result, ok}
use foldback.Io.{eof}
use foldback.Format.Frame.{Frame, IsFrame, frame_bytes, frame_type, encode_payload}
use foldback.Format.Decode.RoundTrip.{decode-encode}
use foldback.Format.Stream.{next_frame, after_round, decoded}
use foldback.Format.Stream.Rounds.{next_frame_lem}
use foldback.Format.Stream.Chunks.{reading, frame_round-chunk}
use foldback.Session.Frames.{write_frame-vec}
use foldback.Live.{Message, Hello, frame_message}
use foldback.Live.Sockets.{carried}
use foldback.Ui.Live as UiLive
use foldback.Ui.Live.{
  LiveEvent, frame_to_live_event, shown, stream_frames, Socket, Viewer, connect_live, hello_event,
  emit,
}
use foldback.Ui.Live.{start, clone_and_start, greeted, hello_read, read_hello}

frame_message-bytes : (f : Frame) → frame_message f ≡ Message.binary (frame_bytes f)
unfolding frame_message
frame_message-bytes f =
    ap (λ x. Message.binary x.1.written) (write_frame-vec f [])
    ∙ ap Message.binary (append-nil (frame_bytes f))

next_frame-frame :
    (f : Frame)
    → IsFrame f
    → (next_frame (record { bytes = frame_bytes f; ending = eof })).0 ≡ ok (some f)
unfolding after_round decoded frame_bytes
next_frame-frame f h =
    ap (λ b. (next_frame (reading b eof)).0) (sym (append-nil (frame_bytes f)))
    ∙ rw
        (
          next_frame_lem (reading (frame_bytes f ++ []) eof),
          frame_round-chunk (frame_type f) (encode_payload f) [] eof h.short,
          decode-encode f h.fields,
        )
        refl

stream_frames-carried :
    (display : Error → Text) (frames : List Frame) (ending : Text)
    → All IsFrame frames
    → stream_frames display (map frame_message frames) ending
      ≡ map frame_to_live_event frames ++ (LiveEvent.disconnected ending ∷ [])
unfolding stream_frames shown
stream_frames-carried display [] ending h = refl
stream_frames-carried display (f ∷ fs) ending (h, hs) =
    ap (λ m. stream_frames display (m ∷ map frame_message fs) ending) (frame_message-bytes f)
    ∙ ap (λ r. shown display r (stream_frames display (map frame_message fs) ending))
        (next_frame-frame f h)
    ∙ ap (λ es. frame_to_live_event f ∷ es) (stream_frames-carried display fs ending hs)

module _ (display : Error → Text) {Stream : Type 0} (into_text : Message → Option Text)
    (from_json : Text → Result Text UiLive.Hello) (try_clone : Stream → Result Text Stream)
    (shutdown : Stream → Result Text (Unit {0})) (to_json : Hello → Text) where
  -- Let a viewer connect to a socket that carries the hello and then frames that fit the format,
  -- let the libraries read the hello's text back, and let the TCP stream be plain and be cloned.
  -- Then `connect_live` succeeds, keeps the clone, and emits the hello, the event of each frame in
  -- order, and at the end the disconnection.
  pub connect_live-carried :
      (hello : Hello) (read : UiLive.Hello) (frames : List Frame) (ending : Text)
      (tcp clone : Stream) (v : Viewer Stream)
      → into_text (Message.text (to_json hello)) ≡ some (to_json hello)
      → from_json (to_json hello) ≡ ok read
      → try_clone tcp ≡ ok clone
      → All IsFrame frames
      → connect_live display into_text from_json try_clone shutdown
          (ok
            (record { incoming = carried to_json hello frames; ending = ending; plain = some tcp }))
          v
        ≡ (
          ok tt,
          record {
            connection = some clone;
            events =
                v.events
                ++ (hello_event read
                    ∷ (map frame_to_live_event frames ++ (LiveEvent.disconnected ending ∷ [])));
          },
        )
  unfolding connect_live read_hello hello_read greeted clone_and_start start
  connect_live-carried hello read frames ending tcp clone v is_text is_json cloned fit =
      let ms = map frame_message frames in
      let socket : Socket Stream = record {
        incoming = carried to_json hello frames;
        ending = ending;
        plain = some tcp;
      } in
      let greeted_v = emit (hello_event read ∷ []) v in
      ap (λ o. hello_read display into_text from_json try_clone shutdown o ms socket v) is_text
      ∙ ap (λ r. greeted display into_text from_json try_clone shutdown r ms socket v) is_json
      ∙ ap (λ c. start display into_text from_json try_clone shutdown c ms ending greeted_v) cloned
      ∙ ap (λ es. (ok tt, record { connection = some clone; events = greeted_v.events ++ es }))
          (stream_frames-carried display frames ending fit)
      ∙ ap (λ es. (ok tt, record { connection = some clone; events = es }))
          (append_assoc v.events (hello_event read ∷ [])
            (map frame_to_live_event frames ++ (LiveEvent.disconnected ending ∷ [])))
