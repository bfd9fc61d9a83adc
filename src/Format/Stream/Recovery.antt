-- ===== src/Format/Stream/Recovery.antt =====
-- The loop over the frames of a file that ends anywhere.
use foldback.Prelude.{ℕ, ◌-◌, ◌≡◌, ◌≢◌, refl, sym, ap, ◌∙◌, arith, inl, inr}
use foldback.Prelude.{List, [], ◌∷◌, ◌++◌, length, All, foldl, append_split, length-append, leb}
use foldback.Prelude.{if◌then◌else◌, Bool-cases, leb→le, leb→lt}
use native.Mathlib.Nat.{le_of_lt}
use foldback.Prelude.Bytes.{IsU32}
use foldback.Error.{ok, err, unknown_frame_type}
use foldback.Io.{Reader, eof}
use foldback.Format.Frame.{Frame, frame_type, encode_payload, frame_bytes, IsFrame}
use foldback.Format.Decode.{decode_payload, decode_body}
use foldback.Format.Decode.RoundTrip.{decode-encode}
use foldback.Format.Stream.{decoded, after_round, each_frame}
use foldback.Format.Stream.{frame_round, for_each_frame}
use foldback.Format.Stream.Rounds.{next_frame_lem, for_each_frame_lem}
use foldback.Format.Stream.Chunks.{chunk_bytes, reading, Stops, frame_round-chunk, frame_round-cut}
use foldback.Format.Stream.Chunks.{frame_round-end}

-- What a file may hold behind its header: frames of this version, and chunks of a type that only a
-- later version knows.
pub data Item : Type 0 where
  known : Frame → Item
  unknown : ℕ → List ℕ → Item

abbrev pub item_bytes : Item → List ℕ
item_bytes (known f) = frame_bytes f
item_bytes (unknown t p) = chunk_bytes t p

abbrev pub item_type : Item → ℕ
item_type (known f) = frame_type f
item_type (unknown t p) = t

abbrev pub item_payload : Item → List ℕ
item_payload (known f) = encode_payload f
item_payload (unknown t p) = p

-- A type byte that no frame of this version has.
abbrev pub IsUnknown : ℕ → Type 0
IsUnknown t = (f : Frame) → t ≢ frame_type f

abbrev pub IsItem : Item → Type 0
IsItem (known f) = IsFrame f
IsItem (unknown t p) = IsUnknown t × IsU32 (length p)

abbrev pub stream : List Item → List ℕ
stream [] = []
stream (i ∷ is) = item_bytes i ++ stream is

-- The items that the first `n` bytes of their stream hold whole.
abbrev pub complete : ℕ → List Item → List Item
complete n [] = []
complete n (i ∷ is) =
    if leb (length (item_bytes i)) n then i ∷ complete (n - length (item_bytes i)) is else []

abbrev pub frames_of : List Item → List Frame
frames_of [] = []
frames_of (known f ∷ is) = f ∷ frames_of is
frames_of (unknown t p ∷ is) = frames_of is

decode_unknown :
    (t : ℕ) (p : List ℕ) → IsUnknown t → decode_payload t p ≡ err (unknown_frame_type t)
unfolding decode_payload decode_body frame_type
decode_unknown t p h = ground (
  arith,
  h (Frame.tick_hash 0 0 0),
  h (Frame.entity_hash 0 0 0 0),
  h (Frame.field_hash 0 0 0 [] 0 []),
  h (Frame.snapshot 0 0 []),
  h (Frame.metadata [] []),
  h Frame.end_of_stream,
)

item-chunk : (i : Item) → item_bytes i ≡ chunk_bytes (item_type i) (item_payload i)
unfolding frame_bytes
item-chunk (known f) = refl
item-chunk (unknown t p) = refl

item-short : (i : Item) → IsItem i → IsU32 (length (item_payload i))
item-short (known f) h = h.short
item-short (unknown t p) h = h.1

module _ {S : Type 0} (body : S → Frame → S) where
  stops→ok : (s : S) (r : Reader) → Stops (frame_round r) → for_each_frame body s r ≡ ok s
  unfolding after_round each_frame
  stops→ok s r (r', e) = for_each_frame_lem body s r ∙ rw (next_frame_lem r, e) refl

  known-step :
      (s : S) (f : Frame) (rest : List ℕ)
      → IsFrame f
      → for_each_frame body s (reading (frame_bytes f ++ rest) eof)
        ≡ for_each_frame body (body s f) (reading rest eof)
  unfolding after_round each_frame decoded frame_bytes
  known-step s f rest h =
      for_each_frame_lem body s (reading (frame_bytes f ++ rest) eof)
      ∙ rw
          (
            next_frame_lem (reading (frame_bytes f ++ rest) eof),
            frame_round-chunk (frame_type f) (encode_payload f) rest eof h.short,
            decode-encode f h.fields,
          )
          refl

  unknown-step :
      (s : S) (t : ℕ) (p rest : List ℕ)
      → IsUnknown t
      → IsU32 (length p)
      → for_each_frame body s (reading (chunk_bytes t p ++ rest) eof)
        ≡ for_each_frame body s (reading rest eof)
  unfolding after_round each_frame decoded
  unknown-step s t p rest u h =
      for_each_frame_lem body s (reading (chunk_bytes t p ++ rest) eof)
      ∙ rw
          (
            next_frame_lem (reading (chunk_bytes t p ++ rest) eof),
            frame_round-chunk t p rest eof h,
            decode_unknown t p u,
          )
          (sym (for_each_frame_lem body s (reading rest eof)))

  item-step :
      (s : S) (i : Item) (rest : List ℕ)
      → IsItem i
      → for_each_frame body s (reading (item_bytes i ++ rest) eof)
        ≡ for_each_frame body (foldl body s (frames_of (i ∷ []))) (reading rest eof)
  item-step s (known f) rest h = known-step s f rest h
  item-step s (unknown t p) rest (u, h) = unknown-step s t p rest u h

  foldl-frames_of :
      (s : S) (i : Item) (is : List Item)
      → foldl body s (frames_of (i ∷ is))
        ≡ foldl body (foldl body s (frames_of (i ∷ []))) (frames_of is)
  foldl-frames_of s (known f) is = refl
  foldl-frames_of s (unknown t p) is = refl

  -- Wherever a file of whole frames that fit the format and of chunks of an unknown type is cut,
  -- the loop over its frames succeeds, and it has run its body over exactly the frames that lie
  -- whole before the cut, in order; chunks of an unknown type are skipped.
  pub for_each_frame-cut :
      (items : List Item) (s : S) (front back : List ℕ)
      → All IsItem items
      → front ++ back ≡ stream items
      → for_each_frame body s (reading front eof)
        ≡ ok (foldl body s (frames_of (complete (length front) items)))
  for_each_frame-cut [] s [] back h e = stops→ok s (reading [] eof) frame_round-end
  for_each_frame-cut [] s (b ∷ front) back h e = cc
  for_each_frame-cut (i ∷ is) s front back (hi, his) e =
      elim (Bool-cases (leb (length (item_bytes i)) (length front))) [
        | inl fits ↦
            let (rest, p, q) =
              append_split front back (item_bytes i) (stream is) e (leb→le _ _ fits) in
            let left : length front - length (item_bytes i) ≡ length rest =
              omega (arith, ap length p, length-append (item_bytes i) rest) in
            rw (fits, left)
              (ap (λ x. for_each_frame body s (reading x eof)) p
                ∙ item-step s i rest hi
                ∙ for_each_frame-cut is (foldl body s (frames_of (i ∷ []))) rest back his q
                ∙ ap ok (sym (foldl-frames_of s i (complete (length rest) is))))
        | inr cut ↦
            let (tail, p, q) =
              append_split (item_bytes i) (stream is) front back (sym e)
                (le_of_lt (leb→lt _ _ cut)) in
            rw cut (
              stops→ok s (reading front eof) (
                frame_round-cut (item_type i) (item_payload i) front tail (item-short i hi)
                  (omega (arith, ap length p, length-append front tail, leb→lt _ _ cut))
                  (sym p ∙ item-chunk i)))
      ]
