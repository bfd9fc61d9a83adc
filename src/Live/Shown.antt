-- ===== src/Live/Shown.antt =====
-- From a game to its viewers: what a viewer shows of any socket of a live server.
use foldback.Prelude.{false, Option, some, List, [], ◌∷◌, ◌++◌, map, append_assoc, All}
use foldback.Prelude.{◌≡◌, refl, sym, ap, ◌∙◌, subst, ◌⊎◌, inl, inr, Memᴰ}
use foldback.Prelude.Utf8.{Text}
use foldback.Error.{Error, Result, ok}
use foldback.Format.Frame.{Frame, IsFrame}
use foldback.Live.{Message, Hello, Phase, Server, bind, Event, run}
use foldback.Live.Sockets.{Broken, broken_frames, sent_by, carried, carried_broken, Sockets}
use foldback.Live.Account.{run-Accounts}
use foldback.Live.Viewer.{connect_live-carried}
use foldback.Ui.Live as UiLive
use foldback.Ui.Live.{LiveEvent, frame_to_live_event, Socket, Viewer, connect_live, hello_event}

mem_cases {ℓ} : {A : Type ℓ} {x : A} (xs ys : List A) → Memᴰ x (xs ++ ys) → Memᴰ x xs ⊎ Memᴰ x ys
mem_cases [] ys m = inr m
mem_cases (z ∷ xs) ys (Memᴰ.head e) = inl (Memᴰ.head e)
mem_cases (z ∷ xs) ys (Memᴰ.tail m) = elim (mem_cases xs ys m) [
  | inl k ↦ inl (Memᴰ.tail k)
  | inr k ↦ inr k
]

All-right : (xs ys : List Frame) → All IsFrame (xs ++ ys) → All IsFrame ys
All-right [] ys h = h
All-right (x ∷ xs) ys (h, hs) = All-right xs ys hs

All-left : (xs ys : List Frame) → All IsFrame (xs ++ ys) → All IsFrame xs
All-left [] ys h = tt
All-left (x ∷ xs) ys (h, hs) = (h, All-left xs ys hs)

-- The frames stand one behind the other among those sent.
pub record Piece (frames sent : List Frame) : Type 0 where
  pub before : List Frame
  pub after : List Frame
  pub whole : sent ≡ before ++ (frames ++ after)

Piece-fit : {frames sent : List Frame} → Piece frames sent → All IsFrame sent → All IsFrame frames
Piece-fit {frames} h fit =
    All-left frames h.after
      (All-right h.before (frames ++ h.after) (subst (All IsFrame) h.whole fit))

abbrev pub open_socket : Phase → List (List Message)
open_socket Phase.listening = []
open_socket (Phase.streaming socket) = socket ∷ []
open_socket Phase.exited = []

-- Every socket that the server had.
abbrev pub all_sockets : Server → List (List Message)
all_sockets s = s.closed ++ open_socket s.phase

module _ (to_json : Hello → Text) (hello : Hello) where
  abbrev Carries : List Message → List Frame → Type 0
  Carries c sent = (frames : List Frame) × (c ≡ carried to_json hello frames) × Piece frames sent

  broken-Carries :
      (past : List Broken) (c : List Message) (rest : List Frame)
      → Memᴰ c (map (carried_broken to_json hello) past)
      → Carries c (broken_frames past ++ rest)
  broken-Carries [] c rest m = elim m [ ]
  broken-Carries ((fs, l) ∷ past) c rest (Memᴰ.head p) = (
    fs,
    p,
    record {
      before = [];
      after = (l ∷ broken_frames past) ++ rest;
      whole = append_assoc fs (l ∷ broken_frames past) rest;
    },
  )
  broken-Carries ((fs, l) ∷ past) c rest (Memᴰ.tail m) =
      let (frames, p, k) = broken-Carries past c rest m in
      (
        frames,
        p,
        record {
          before = fs ++ (l ∷ k.before);
          after = k.after;
          whole =
              append_assoc fs (l ∷ broken_frames past) rest
              ∙ ap (λ x. fs ++ (l ∷ x)) k.whole
              ∙ sym (append_assoc fs (l ∷ k.before) (frames ++ k.after));
        },
      )

  one-Carries :
      (past : List Broken) (now queue : List Frame) (c : List Message)
      → Memᴰ c (map (carried_broken to_json hello) past) ⊎ Memᴰ c (carried to_json hello now ∷ [])
      → Carries c (broken_frames past ++ (now ++ queue))
  one-Carries past now queue c (inl m) = broken-Carries past c (now ++ queue) m
  one-Carries past now queue c (inr (Memᴰ.head p)) =
      (now, p, record { before = broken_frames past; after = queue; whole = refl })
  one-Carries past now queue c (inr (Memᴰ.tail m)) = elim m [ ]

  Sockets-Carries :
      (past : List Broken) (now : List Frame) (s : Server) (c : List Message)
      → Sockets to_json hello past now s
      → Memᴰ c (all_sockets s)
      → Carries c (broken_frames past ++ (now ++ s.queue))
  Sockets-Carries past now s c (Sockets.listening {queue = q}) m =
      elim (mem_cases (map (carried_broken to_json hello) past) [] m) [
        | inl k ↦ broken-Carries past c q k
        | inr k ↦ elim k [ ]
      ]
  Sockets-Carries past now s c (Sockets.streaming {queue = q}) m =
      one-Carries past now q c
        (mem_cases (map (carried_broken to_json hello) past) (carried to_json hello now ∷ []) m)
  Sockets-Carries past now s c Sockets.exited m =
      elim (mem_cases (map (carried_broken to_json hello) past ++ (carried to_json hello now ∷ []))
        [] m) [
          | inl k ↦ one-Carries past now [] c (
              mem_cases (map (carried_broken to_json hello) past) (carried to_json hello now ∷ [])
                k)
          | inr k ↦ elim k [ ]
        ]

  run-Carries :
      (es : List Event) (c : List Message)
      → Memᴰ c (all_sockets (run to_json hello bind es))
      → Carries c (sent_by false es)
  run-Carries es c m =
      let h = run-Accounts to_json hello es in
      subst (Carries c) (sym h.total)
        (Sockets-Carries h.past h.now (run to_json hello bind es) c h.sockets m)

  module _ (display : Error → Text) {Stream : Type 0} (into_text : Message → Option Text)
      (from_json : Text → Result Text UiLive.Hello) (try_clone : Stream → Result Text Stream)
      (shutdown : Stream → Result Text (Unit {0})) where
    -- Let a game and its viewers do anything with a new live server, where every frame that the
    -- game sent before it dropped the server fits the format. Let a viewer connect to any socket
    -- that the server had, open or closed, let the libraries read the hello's text back, and let
    -- the TCP stream be plain and be cloned. Then `connect_live` succeeds, keeps the clone, and
    -- emits the hello, then the events of frames that stand one behind the other among those sent,
    -- and at the end the disconnection.
    pub connect_live-run :
        (es : List Event) (c : List Message) (read : UiLive.Hello) (ending : Text)
        (tcp clone : Stream) (v : Viewer Stream)
        → All IsFrame (sent_by false es)
        → Memᴰ c (all_sockets (run to_json hello bind es))
        → into_text (Message.text (to_json hello)) ≡ some (to_json hello)
        → from_json (to_json hello) ≡ ok read
        → try_clone tcp ≡ ok clone
        → (frames : List Frame) × Piece frames (sent_by false es)
          × (connect_live display into_text from_json try_clone shutdown
                (ok (record { incoming = c; ending = ending; plain = some tcp }))
                v
              ≡ (
                ok tt,
                record {
                  connection = some clone;
                  events =
                      v.events
                      ++ (hello_event read
                          ∷ (map frame_to_live_event frames
                              ++ (LiveEvent.disconnected ending ∷ [])));
                },
              ))
    connect_live-run es c read ending tcp clone v fit m is_text is_json cloned =
        let (frames, p, piece) = run-Carries es c m in
        (
          frames,
          piece,
          ap
                (λ x.
                  connect_live display into_text from_json try_clone shutdown
                    (ok (record { incoming = x; ending = ending; plain = some tcp })) v)
                p
              ∙ connect_live-carried display into_text from_json try_clone shutdown to_json hello
                  read frames ending tcp clone v is_text is_json cloned (Piece-fit piece fit),
        )
