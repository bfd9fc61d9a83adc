-- ===== src/Ggrs/Desync.antt =====
-- `record_desync` and then `check_divergence`: a desync that GGRS reports, in the session.
use foldback.Prelude.{
  ℕ, ◌≤◌, ◌≡◌, ◌≢◌, ◌%◌, ◌^◌, refl, sym, ap, ◌∙◌, arith, false, none, some, List, [], ◌∷◌, ◌++◌,
}
use foldback.Prelude.{append_assoc, Memᴰ, inl, inr, Option-cases, Bool-cases, ltb, ltb→lt}
use foldback.Error.{ok}
use foldback.Action.{bind_ok, ◌>>◌}
use foldback.Bisect.{TickHashRecord, add_report, by_tick}
use foldback.Bisect.Reports.{by_tick-snoc}
use foldback.Ring
use foldback.Session.{Session, record_peer_hash, with_writer, on_writer, contains, check_divergence}
use foldback.Session.Divergence.{IsNew, check_divergence-some, check_divergence-none}
use foldback.Ggrs.{narrow, record_desync}

-- The session after a report that no file takes.
abbrev reported : ℕ → ℕ → ℕ → Session → Session
reported tick peer hash s = record s {
  ring = Ring.push s.ring (tick, hash);
  hashes_by_tick = add_report tick (peer, hash) s.hashes_by_tick;
}

quiet :
    (tick peer hash : ℕ) (s : Session)
    → s.writer ≡ none
    → record_peer_hash tick peer hash s ≡ (ok tt, reported tick peer hash s)
unfolding record_peer_hash with_writer on_writer
quiet tick peer hash s e = rw e refl

mem_last : {A : Type 0} (xs : List A) (y : A) (ys : List A) → Memᴰ y (xs ++ (y ∷ ys))
mem_last [] y ys = Memᴰ.head refl
mem_last (x ∷ xs) y ys = Memᴰ.tail (mem_last xs y ys)

mem_last_two : {A : Type 0} (xs : List A) (x y : A) → Memᴰ y (xs ++ (x ∷ y ∷ []))
mem_last_two [] x y = Memᴰ.tail (Memᴰ.head refl)
mem_last_two (z ∷ xs) x y = Memᴰ.tail (mem_last_two xs x y)

-- The record of one side.
abbrev pub side : ℕ → ℕ → ℕ → TickHashRecord
side tick peer hash = record { tick = tick; peer_id = peer; hash = hash }

-- A check finds a tick up to one that is new.
finds_up_to :
    (s : Session) (rs : List TickHashRecord) (t : ℕ)
    → s.hashes_by_tick ≡ by_tick rs
    → IsNew s.checked_ticks rs t
    → (u : ℕ) × ((check_divergence s).0 ≡ some u) × (u ≤ t)
finds_up_to s rs t table new = elim (Option-cases (check_divergence s).0) [
  | inl e ↦ absurd ((check_divergence-none s rs table).0 e t new)
  | inr (u, e) ↦ elim (Bool-cases (ltb t u)) [
    | inl l ↦ absurd (((check_divergence-some s rs table u).0 e).1 t (ltb→lt t u l) new)
    | inr g ↦ (u, e, ground arith)
  ]
]

-- Let a session without a file hold the reports `rs` in its table, let no earlier check have
-- returned the tick `tick`, and let two GGRS checksums have different low 64 bits. After
-- `record_desync` of the two for that tick, `check_divergence` returns that tick or an earlier
-- one.
pub check_divergence-record_desync :
    (s : Session) (rs : List TickHashRecord) (tick local remote local_checksum remote_checksum : ℕ)
    → s.writer ≡ none
    → s.hashes_by_tick ≡ by_tick rs
    → contains tick s.checked_ticks ≡ false
    → local_checksum % 2 ^ 64 ≢ remote_checksum % 2 ^ 64
    → (u : ℕ) × ((check_divergence
          (record_desync tick local remote local_checksum remote_checksum s).1).0
        ≡ some u)
      × (u ≤ tick)
unfolding record_desync narrow
check_divergence-record_desync s rs tick local remote lc rc w table unchecked ne = rw both (
    finds_up_to (reported tick remote (narrow rc) (reported tick local (narrow lc) s))
      (rs ++ (side tick local (narrow lc) ∷ side tick remote (narrow rc) ∷ [])) tick tables
      (
        unchecked,
        (
          side tick local (narrow lc),
          side tick remote (narrow rc),
          mem_last rs (side tick local (narrow lc)) (side tick remote (narrow rc) ∷ []),
          mem_last_two rs (side tick local (narrow lc)) (side tick remote (narrow rc)),
          refl,
          refl,
          ne,
        ),
      ))
  where
    both :
        (do record_peer_hash tick local (narrow lc); record_peer_hash tick remote (narrow rc)) s
        ≡ (ok tt, reported tick remote (narrow rc) (reported tick local (narrow lc) s))
    both =
        bind_ok (record_peer_hash tick local (narrow lc))
          (λ _. record_peer_hash tick remote (narrow rc)) (quiet tick local (narrow lc) s w)
        ∙ quiet tick remote (narrow rc) (reported tick local (narrow lc) s) w

    tables :
        add_report tick (remote, narrow rc) (add_report tick (local, narrow lc) s.hashes_by_tick)
        ≡ by_tick (rs ++ (side tick local (narrow lc) ∷ side tick remote (narrow rc) ∷ []))
    tables =
        ap (λ m. add_report tick (remote, narrow rc) (add_report tick (local, narrow lc) m)) table
        ∙ ap (add_report tick (remote, narrow rc))
            (sym (by_tick-snoc rs (side tick local (narrow lc))))
        ∙ sym
            (by_tick-snoc (rs ++ (side tick local (narrow lc) ∷ [])) (side tick remote (narrow rc)))
        ∙ ap by_tick
            (append_assoc rs (side tick local (narrow lc) ∷ []) (side tick remote (narrow rc) ∷ []))
