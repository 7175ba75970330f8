-- ===== src/Chat/Messages/Reading.antt =====
-- chat_read_impl.go: a read marker only moves forward.
use mwanachama_backend_comm.Base.{
  ℕ, Bool, true, false, ◌≡◌, refl, inl, inr, Option, none, some, List, [], ◌∷◌, String, arith,
  find_first, any, max, Option-cases, eq_refl,
}
use mwanachama_backend_comm.Errors.{ok}
use mwanachama_backend_comm.Exec.Steps.{Result-cases}
use mwanachama_backend_comm.Roles.{chat_read_marker}
use mwanachama_backend_comm.Validate.{check}
use mwanachama_backend_comm.Sql.Rows.{upsert_rows, find_first-append, find_first-map_where_self}
use mwanachama_backend_comm.Chat.Types.{ChatReadMarker}
use mwanachama_backend_comm.Chat.Messages.{
  ChatDb, ChatEngine, is_marker, advanced, read_marker, mark_read,
}

-- How far a marker that may not be there has read.
abbrev pub read_so_far : Option ChatReadMarker → ℕ
read_so_far none = 0
read_so_far (some r) = r.read_at

find_first-any :
    (q : ChatReadMarker → Bool) (rows : List ChatReadMarker) (r : ChatReadMarker)
    → find_first q rows ≡ some r
    → any q rows ≡ true
find_first-any q [] r h = cc
find_first-any q (x ∷ rows) r h = ground (arith, find_first-any q rows r)

find_first-absent :
    (q : ChatReadMarker → Bool) (rows : List ChatReadMarker)
    → find_first q rows ≡ none
    → any q rows ≡ false
find_first-absent q [] h = refl
find_first-absent q (x ∷ rows) h = ground (arith, find_first-absent q rows)

upserted-read_at :
    (new : ChatReadMarker) (thread reader : String) (rows : List ChatReadMarker)
    (r : ChatReadMarker)
    → is_marker thread reader new ≡ true
    → find_first
        (is_marker thread reader)
        (upsert_rows (is_marker thread reader) (advanced new) new rows)
      ≡ some r
    → r.read_at ≡ max (read_so_far (find_first (is_marker thread reader) rows)) new.read_at
upserted-read_at new thread reader rows r mine h =
    let q = is_marker thread reader in
    elim (Option-cases (find_first q rows)) [
      | inr (old, there) ↦
          let moved = find_first-map_where_self q (advanced new) rows old refl there in
          ground (arith, find_first-any q rows old there)
      | inl absent ↦
          let empty = find_first-absent q rows absent in
          ground (arith, find_first-append q rows (new ∷ []) absent)
    ]

module _ (g : ChatEngine) (now : ℕ) (minted : String) where
  -- A read marker only moves forward: marking a thread read up to a time returns a marker that
  -- stands at that time, or where the reader's marker stood before, whichever is later.
  pub mark_read-max :
      (structure thread reader : String) (read_at : ℕ) (s : ChatDb) (r : ChatReadMarker)
      → (mark_read g now minted structure thread reader read_at s).0 ≡ ok r
      → r.read_at ≡ max (read_so_far (find_first (is_marker thread reader) s.markers)) read_at
  unfolding mark_read read_marker
  mark_read-max structure thread reader read_at s r h =
      let new : ChatReadMarker = record {
        id = minted;
        structure_id = structure;
        thread_id = thread;
        reader_id = reader;
        read_at = read_at;
        marked_at = now;
      } in
      let q = is_marker thread reader in
      let after = upsert_rows q (advanced new) new s.markers in
      elim (Result-cases (check g.spec chat_read_marker (g.encode_marker new))) [
        | inl (x, refused) ↦ absurd (ground arith)
        | inr (x, passed) ↦ elim (g.marker_table.upsert_law q (advanced new) new s.markers) [
          | inr (x, failed) ↦ absurd (ground arith)
          | inl done ↦ elim (g.marker_table.take_law q after) [
            | inr (x, failed) ↦ absurd (ground arith)
            | inl read ↦ elim (Option-cases (find_first q after)) [
              | inl absent ↦ absurd (ground arith)
              | inr (r', there) ↦
                  let same : r' ≡ r = ground arith in
                  upserted-read_at new thread reader s.markers r
                    (rw (eq_refl thread, eq_refl reader)) (rw same at there)
            ]
          ]
        ]
      ]
