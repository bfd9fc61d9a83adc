-- ===== src/Live/Account.antt =====
-- What becomes of the frames that a game sends to the live server.
use foldback.Prelude.{Bool, true, false, List, [], ◌∷◌, ◌++◌, append_assoc}
use foldback.Prelude.{◌≡◌, refl, ap, ◌∙◌, subst}
use foldback.Prelude.Utf8.{Text}
use foldback.Format.Frame.{Frame}
use foldback.Live.{
  Message, Hello, Phase, Server, bind, Event, step, run, push_frame, accept, receive, recv,
}
use foldback.Live.Sockets.{sent_by, Sockets, Accounts, sent_now, same-Accounts, step_at}

module _ (to_json : Hello → Text) (hello : Hello) where
  recv-dropped :
      (ok : Bool) (socket : List Message) (queue : List Frame) (dropped : Bool) (s : Server)
      → (recv ok socket queue dropped s).dropped ≡ s.dropped
  unfolding recv
  recv-dropped true socket (f ∷ queue) dropped s = refl
  recv-dropped false socket (f ∷ queue) dropped s = refl
  recv-dropped true socket [] true s = refl
  recv-dropped false socket [] true s = refl
  recv-dropped true socket [] false s = refl
  recv-dropped false socket [] false s = refl

  receive-dropped :
      (ok : Bool) (phase : Phase) (s : Server)
      → (receive to_json hello ok phase s).dropped ≡ s.dropped
  unfolding receive
  receive-dropped ok Phase.listening s = refl
  receive-dropped ok (Phase.streaming socket) s = recv-dropped ok socket s.queue s.dropped s
  receive-dropped ok Phase.exited s = refl

  accept-dropped : (phase : Phase) (s : Server) → (accept to_json hello phase s).dropped ≡ s.dropped
  unfolding accept
  accept-dropped Phase.listening s = refl
  accept-dropped (Phase.streaming socket) s = refl
  accept-dropped Phase.exited s = refl

  push_frame-dropped :
      (dropped : Bool) (f : Frame) (s : Server) → (push_frame dropped f s).dropped ≡ s.dropped
  unfolding push_frame
  push_frame-dropped true f s = refl
  push_frame-dropped false f s = refl

  sent_by_split :
      (e : Event) (dropped : Bool) (es : List Event)
      → sent_now to_json hello e dropped
          ++ sent_by (elim e [ Event.drop_server ↦ true | _ ↦ dropped ]) es
        ≡ sent_by dropped (e ∷ es)
  sent_by_split (Event.send_frame f) true es = refl
  sent_by_split (Event.send_frame f) false es = refl
  sent_by_split Event.drop_server true es = refl
  sent_by_split Event.drop_server false es = refl
  sent_by_split Event.not_accepted true es = refl
  sent_by_split Event.not_accepted false es = refl
  sent_by_split Event.accepted true es = refl
  sent_by_split Event.accepted false es = refl
  sent_by_split (Event.received ok) true es = refl
  sent_by_split (Event.received ok) false es = refl

  step-dropped :
      (s : Server) (e : Event)
      → (step to_json hello s e).dropped ≡ elim e [ Event.drop_server ↦ true | _ ↦ s.dropped ]
  unfolding step
  step-dropped s (Event.send_frame f) = push_frame-dropped s.dropped f s
  step-dropped s Event.drop_server = refl
  step-dropped s Event.not_accepted = refl
  step-dropped s Event.accepted = accept-dropped s.phase s
  step-dropped s (Event.received ok) = receive-dropped ok s.phase s

  run_from :
      (s : Server) (es : List Event) (sent : List Frame)
      → Accounts to_json hello sent s
      → Accounts to_json hello (sent ++ sent_by s.dropped es) (run to_json hello s es)
  unfolding run
  run_from s [] sent h =
      subst (λ x. Accounts to_json hello (sent ++ x) s) (nothing_sent s.dropped)
        (same-Accounts to_json hello h.past h.now h.sockets h.total)
    where
      nothing_sent : (dropped : Bool) → [] ≡ sent_by dropped []
      nothing_sent true = refl
      nothing_sent false = refl
  run_from s (e ∷ es) sent h =
      subst (λ x. Accounts to_json hello x (run to_json hello (step to_json hello s e) es))
        (append_assoc sent (sent_now to_json hello e s.dropped)
            (sent_by (step to_json hello s e).dropped es)
          ∙ ap (λ x. sent ++ x)
              (ap (λ d. sent_now to_json hello e s.dropped ++ sent_by d es) (step-dropped s e)
                ∙ sent_by_split e s.dropped es))
        (run_from (step to_json hello s e) es (sent ++ sent_now to_json hello e s.dropped)
          (step_at to_json hello s e h.past h.now h.sockets h.total))

  -- Whatever a game and its viewers do with a new live server, the frames that the game sent
  -- before it dropped the server are, in this order: for each socket that broke, the frames that
  -- it carried and one frame that is lost with it; the frames of the socket that is open, or that
  -- was closed when the thread exited; and the frames still queued. Every socket carries the hello
  -- first and then just its frames, also those that were sent before a viewer connected.
  pub run-Accounts :
      (es : List Event) → Accounts to_json hello (sent_by false es) (run to_json hello bind es)
  run-Accounts es =
      run_from bind es []
        (record { past = []; now = []; sockets = Sockets.listening; total = refl })
