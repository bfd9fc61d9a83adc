-- ===== src/Live/Drain.antt =====
-- The end of the live server: the game drops it while a viewer is connected.
use foldback.Prelude.{
  ℕ, zero, suc, true, List, [], ◌∷◌, ◌++◌, map, length, append-nil, append_assoc,
}
use foldback.Prelude.{◌≡◌, sym, ap, ◌∙◌}
use foldback.Prelude.Utf8.{Text}
use foldback.Format.Frame.{Frame}
use foldback.Live.{Message, Hello, frame_message, Phase, Server, Event, step, run, receive, recv}

-- The thread receives so many times, and every send succeeds.
abbrev pub receives : ℕ → List Event
receives zero = []
receives (suc n) = Event.received true ∷ receives n

abbrev pub connected : List Message → List Frame → List (List Message) → Server
connected socket queue closed = record {
  queue = queue;
  dropped = true;
  phase = Phase.streaming socket;
  closed = closed;
}

module _ (to_json : Hello → Text) (hello : Hello) where
  -- Let the server be dropped while a socket is open, whatever is queued. If every send succeeds,
  -- one receive more than there are queued frames ends the thread: every queued frame has been
  -- sent on that socket, in order, and the queue is empty.
  pub run-receives :
      (queue : List Frame) (socket : List Message) (closed : List (List Message))
      → run to_json hello (connected socket queue closed) (receives (suc (length queue))) ≡ record {
        queue = [];
        dropped = true;
        phase = Phase.exited;
        closed = closed ++ ((socket ++ map frame_message queue) ∷ []);
      }
  unfolding run step receive recv
  run-receives [] socket closed =
      ap
        (λ c. record {
          queue = [];
          dropped = true;
          phase = Phase.exited;
          closed = closed ++ (c ∷ []);
        })
        (sym (append-nil socket))
  run-receives (f ∷ queue) socket closed =
      run-receives queue (socket ++ (frame_message f ∷ [])) closed
      ∙ ap
          (λ c. record {
            queue = [];
            dropped = true;
            phase = Phase.exited;
            closed = closed ++ (c ∷ []);
          })
          (append_assoc socket (frame_message f ∷ []) (map frame_message queue))
