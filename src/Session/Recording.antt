-- ===== src/Session/Recording.antt =====
-- What a reader finds in the file of a session, cut anywhere behind its header.
use foldback.Prelude.{
  ℕ, ◌≡◌, refl, sym, ap, ◌∙◌, arith, subst, true, some, List, [], ◌∷◌, ◌++◌, map, foldl,
}
use foldback.Prelude.{length, All, append-nil, leb, length-append, ◌-◌}
use foldback.Prelude.Utf8.{Text}
use foldback.Error.{IoError, Result, ok, ok_injective}
use foldback.Io.{Writer, eof, vec, write_all, write_plan}
use foldback.Format.Header
use foldback.Format.Header.{header_bytes, write_header, read_header}
use foldback.Format.Header.RoundTrip.{IsHeader, read_header-header_bytes}
use foldback.Format.Frame.{Frame, IsFrame, frame_bytes}
use foldback.Format.Stream.{for_each_frame}
use foldback.Format.Stream.Chunks.{reading}
use foldback.Format.Stream.Recovery.{known, IsItem, complete, frames_of, for_each_frame-cut}
use foldback.Session.{Session, SessionBuilder, build, build_with, open_recording, build_to}
use foldback.Session.Calls.{Call, run}
use foldback.Session.Frames.{HasFile, file_bytes, all_frames, run-HasFile}

-- The header that a builder writes.
abbrev pub header_of : SessionBuilder → Header.Header
header_of b = Header.new b.tick_rate_hz b.peer_count b.build_id

-- The whole frames among the first `n` bytes of some frames.
abbrev pub frames_within : ℕ → List Frame → List Frame
frames_within n fs = frames_of (complete n (map known fs))

pub known-IsItem : (fs : List Frame) → All IsFrame fs → All IsItem (map known fs)
known-IsItem [] h = tt
known-IsItem (f ∷ fs) (h, hs) = (h, known-IsItem fs hs)

pub frames_within-whole : (fs : List Frame) → frames_within (length (file_bytes fs)) fs ≡ fs
frames_within-whole [] = refl
frames_within-whole (f ∷ fs) = rw (fits, left) (ap (λ x. f ∷ x) (frames_within-whole fs))
  where
    fits : leb (length (frame_bytes f)) (length (frame_bytes f ++ file_bytes fs)) ≡ true
    fits = ground (arith, length-append (frame_bytes f) (file_bytes fs))

    left : length (frame_bytes f ++ file_bytes fs) - length (frame_bytes f) ≡ length (file_bytes fs)
    left = omega (arith, length-append (frame_bytes f) (file_bytes fs))

-- A file of frames that fit the format, whole, gives every one of them in order.
pub recording-whole :
    {S : Type 0} (body : S → Frame → S) (a : S) (fs : List Frame)
    → All IsFrame fs
    → for_each_frame body a (reading (file_bytes fs) eof) ≡ ok (foldl body a fs)
recording-whole body a fs h =
    for_each_frame-cut body (map known fs) a (file_bytes fs) [] (known-IsItem fs h)
      (append-nil (file_bytes fs))
    ∙ ap (λ x. ok (foldl body a x)) (frames_within-whole fs)

module _ (create : Text → Result IoError Writer) (xxh3_64 : List ℕ → ℕ) where
  -- The session that `build` returns when the file is created and takes the header.
  pub build-file :
      (b : SessionBuilder) (path : Text)
      → b.record_to ≡ some path
      → create path ≡ ok (vec [])
      → build create b ≡ ok (build_with b (some (vec (header_bytes (header_of b)))))
  unfolding build build_to open_recording write_header write_all write_plan
  build-file b path e c = rw (e, c) refl

  -- The session that `build` returns, where it returns one.
  pub build_file_inv :
      (b : SessionBuilder) (path : Text) (s : Session)
      → b.record_to ≡ some path
      → create path ≡ ok (vec [])
      → build create b ≡ ok s
      → build_with b (some (vec (header_bytes (header_of b)))) ≡ s
  build_file_inv b path s e c bs = ok_injective (sym (build-file b path e c) ∙ bs)

  -- Let `build` create the file of a session and return the session, let no write to the file
  -- fail, let the header's fields fit their machine types and every frame that the calls record
  -- fit the format, and let the frames' bytes be cut anywhere, as by a crash. Then the uncut file
  -- holds the header and exactly those frames, and a reader of the cut file gets the builder's
  -- header back and runs its body, without an error, over exactly the frames that lie whole before
  -- the cut, in the order of the calls.
  pub recording-cut :
      {S : Type 0} (body : S → Frame → S) (a : S) (b : SessionBuilder) (path : Text)
      (cs : List Call) (front back : List ℕ) (s : Session)
      → b.record_to ≡ some path
      → create path ≡ ok (vec [])
      → build create b ≡ ok s
      → IsHeader (header_of b)
      → All IsFrame (all_frames xxh3_64 s cs)
      → front ++ back ≡ file_bytes (all_frames xxh3_64 s cs)
      → HasFile (header_bytes (header_of b) ++ (front ++ back)) (run xxh3_64 s cs)
        × (read_header (reading (header_bytes (header_of b) ++ front) eof)
            ≡ (ok (header_of b), reading front eof))
        × (for_each_frame body a (reading front eof)
            ≡ ok (foldl body a (frames_within (length front) (all_frames xxh3_64 s cs))))
  recording-cut body a b path cs front back s e c bs fits frames p = (
    rw p (run-HasFile xxh3_64 s cs (header_bytes (header_of b)) opened),
    read_header-header_bytes (header_of b) (reading (header_bytes (header_of b) ++ front) eof) front
        fits refl,
    for_each_frame-cut body (map known (all_frames xxh3_64 s cs)) a front back
        (known-IsItem _ frames) p,
  )
    where
      opened : HasFile (header_bytes (header_of b)) s
      opened =
          subst (λ t. HasFile (header_bytes (header_of b)) t) (build_file_inv b path s e c bs)
            (unfold build_with in refl)
