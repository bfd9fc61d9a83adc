-- ===== src/Live/Sockets.antt =====
-- The frames that the sockets of a live server carried, over one event.
use foldback.Prelude.{Bool, true, false, List, [], ◌∷◌, ◌++◌, map, append-nil, append_assoc}
use foldback.Prelude.{◌≡◌, sym, ap, ◌∙◌, subst}
use mathlib.Core.List.{map-append}
use foldback.Prelude.Utf8.{Text}
use foldback.Format.Frame.{Frame}
use foldback.Live.{
  Message, Hello, frame_message, Phase, Server, Event, step, push_frame, accept, receive, recv,
}

-- A socket that broke: the frames that it carried, and the one whose send failed.
abbrev pub Broken : Type 0
Broken = List Frame × Frame

-- The frames of the broken sockets, in order.
abbrev pub broken_frames : List Broken → List Frame
broken_frames [] = []
broken_frames ((frames, lost) ∷ bs) = frames ++ (lost ∷ broken_frames bs)

-- The frames that the game sends before it drops the server.
abbrev pub sent_by : Bool → List Event → List Frame
sent_by true es = []
sent_by false [] = []
sent_by false (Event.send_frame frame ∷ es) = frame ∷ sent_by false es
sent_by false (Event.drop_server ∷ es) = []
sent_by false (Event.not_accepted ∷ es) = sent_by false es
sent_by false (Event.accepted ∷ es) = sent_by false es
sent_by false (Event.received sent ∷ es) = sent_by false es

module _ (to_json : Hello → Text) (hello : Hello) where
  -- A socket that has carried the hello and then these frames.
  abbrev pub carried : List Frame → List Message
  carried frames = Message.text (to_json hello) ∷ map frame_message frames

  abbrev pub carried_broken : Broken → List Message
  carried_broken b = carried b.0

  -- The sockets of a server, open and closed, by the frames that they carried: the broken ones, and
  -- the frames `now` of the last one, which is open or was closed when the thread exited.
  pub data Sockets (past : List Broken) : List Frame → Server → Type 0 where
    listening :
        {queue : List Frame} {dropped : Bool}
        → Sockets past [] (record {
          queue = queue;
          dropped = dropped;
          phase = Phase.listening;
          closed = map carried_broken past;
        })
    streaming :
        {queue : List Frame} {dropped : Bool} {now : List Frame}
        → Sockets past now (record {
          queue = queue;
          dropped = dropped;
          phase = Phase.streaming (carried now);
          closed = map carried_broken past;
        })
    exited :
        {now : List Frame}
        → Sockets past now (record {
          queue = [];
          dropped = true;
          phase = Phase.exited;
          closed = map carried_broken past ++ (carried now ∷ []);
        })

  -- The frames sent are those of the broken sockets, those of the last one and those queued, in this
  -- order: none is doubled, none overtakes another, and one is lost with each broken socket.
  pub record Accounts (sent : List Frame) (s : Server) : Type 0 where
    pub past : List Broken
    pub now : List Frame
    pub sockets : Sockets past now s
    pub total : sent ≡ broken_frames past ++ (now ++ s.queue)

  broken_frames-append :
      (past : List Broken) (frames : List Frame) (lost : Frame) (rest : List Frame)
      → broken_frames past ++ (frames ++ (lost ∷ rest))
        ≡ broken_frames (past ++ ((frames, lost) ∷ [])) ++ rest
  broken_frames-append [] frames lost rest = sym (append_assoc frames (lost ∷ []) rest)
  broken_frames-append ((fs, l) ∷ past) frames lost rest =
      append_assoc fs (l ∷ broken_frames past) (frames ++ (lost ∷ rest))
      ∙ ap (λ x. fs ++ (l ∷ x)) (broken_frames-append past frames lost rest)
      ∙ sym (append_assoc fs (l ∷ broken_frames (past ++ ((frames, lost) ∷ []))) rest)

  -- The frames that one event sends.
  abbrev pub sent_now : Event → Bool → List Frame
  sent_now (Event.send_frame frame) false = frame ∷ []
  sent_now (Event.send_frame frame) true = []
  sent_now Event.drop_server dropped = []
  sent_now Event.not_accepted dropped = []
  sent_now Event.accepted dropped = []
  sent_now (Event.received sent) dropped = []

  pub same-Accounts :
      {sent : List Frame} {s : Server} (past : List Broken) (now : List Frame)
      → Sockets past now s
      → sent ≡ broken_frames past ++ (now ++ s.queue)
      → Accounts (sent ++ []) s
  same-Accounts {sent} past now k e = record {
    past = past;
    now = now;
    sockets = k;
    total = append-nil sent ∙ e;
  }

  queued :
      {sent : List Frame} (past : List Broken) (now queue : List Frame) (frame : Frame)
      → sent ≡ broken_frames past ++ (now ++ queue)
      → sent ++ (frame ∷ []) ≡ broken_frames past ++ (now ++ (queue ++ (frame ∷ [])))
  queued past now queue frame e =
      ap (λ x. x ++ (frame ∷ [])) e
      ∙ append_assoc (broken_frames past) (now ++ queue) (frame ∷ [])
      ∙ ap (λ x. broken_frames past ++ x) (append_assoc now queue (frame ∷ []))

  receive-Accounts :
      {sent : List Frame} (ok dropped : Bool) (queue : List Frame) (past : List Broken)
      (now : List Frame)
      → sent ≡ broken_frames past ++ (now ++ queue)
      → Accounts (sent ++ []) (
          recv ok (carried now) queue dropped (record {
            queue = queue;
            dropped = dropped;
            phase = Phase.streaming (carried now);
            closed = map carried_broken past;
          }))
  unfolding recv
  receive-Accounts {sent} true dropped (f ∷ queue) past now e = record {
    past = past;
    now = now ++ (f ∷ []);
    sockets =
        subst
          (λ c. Sockets past (now ++ (f ∷ [])) (record {
            queue = queue;
            dropped = dropped;
            phase = Phase.streaming c;
            closed = map carried_broken past;
          }))
          (ap (λ x. Message.text (to_json hello) ∷ x) (map-append frame_message now (f ∷ [])))
          Sockets.streaming;
    total =
        append-nil sent
        ∙ e
        ∙ ap (λ x. broken_frames past ++ x) (sym (append_assoc now (f ∷ []) queue));
  }
  receive-Accounts {sent} false dropped (f ∷ queue) past now e = record {
    past = past ++ ((now, f) ∷ []);
    now = [];
    sockets =
        subst
          (λ c.
            Sockets (past ++ ((now, f) ∷ [])) []
              (record { queue = queue; dropped = dropped; phase = Phase.listening; closed = c }))
          (map-append carried_broken past ((now, f) ∷ [])) Sockets.listening;
    total = append-nil sent ∙ e ∙ broken_frames-append past now f queue;
  }
  receive-Accounts true true [] past now e = same-Accounts past now Sockets.exited e
  receive-Accounts false true [] past now e = same-Accounts past now Sockets.exited e
  receive-Accounts true false [] past now e = same-Accounts past now Sockets.streaming e
  receive-Accounts false false [] past now e = same-Accounts past now Sockets.streaming e

  pub step_at :
      {sent : List Frame} (s : Server) (e : Event) (past : List Broken) (now : List Frame)
      → Sockets past now s
      → sent ≡ broken_frames past ++ (now ++ s.queue)
      → Accounts (sent ++ sent_now e s.dropped) (step to_json hello s e)
  unfolding step push_frame accept receive
  step_at s (Event.send_frame f) past now (Sockets.listening {queue = q} {dropped = true}) e =
      same-Accounts past [] Sockets.listening e
  step_at s (Event.send_frame f) past now (Sockets.listening {queue = q} {dropped = false}) e =
      record { past = past; now = []; sockets = Sockets.listening; total = queued past [] q f e }
  step_at s (Event.send_frame f) past now (Sockets.streaming {queue = q} {dropped = true}) e =
      same-Accounts past now Sockets.streaming e
  step_at s (Event.send_frame f) past now (Sockets.streaming {queue = q} {dropped = false}) e =
      record { past = past; now = now; sockets = Sockets.streaming; total = queued past now q f e }
  step_at s (Event.send_frame f) past now Sockets.exited e = same-Accounts past now Sockets.exited e
  step_at s Event.drop_server past now Sockets.listening e =
      same-Accounts past [] Sockets.listening e
  step_at s Event.drop_server past now Sockets.streaming e =
      same-Accounts past now Sockets.streaming e
  step_at s Event.drop_server past now Sockets.exited e = same-Accounts past now Sockets.exited e
  step_at s Event.not_accepted past now k e = same-Accounts past now k e
  step_at s Event.accepted past now Sockets.listening e = same-Accounts past [] Sockets.streaming e
  step_at s Event.accepted past now Sockets.streaming e = same-Accounts past now Sockets.streaming e
  step_at s Event.accepted past now Sockets.exited e = same-Accounts past now Sockets.exited e
  step_at s (Event.received ok) past now Sockets.listening e =
      same-Accounts past [] Sockets.listening e
  step_at s (Event.received ok) past now (Sockets.streaming {queue = q} {dropped = d}) e =
      receive-Accounts ok d q past now e
  step_at s (Event.received ok) past now Sockets.exited e = same-Accounts past now Sockets.exited e
