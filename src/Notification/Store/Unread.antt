-- ===== src/Notification/Store/Unread.antt =====
-- notification_impl.go: reading notifications, and how many are unread.
use mwanachama_backend_comm.Base.{
  ℕ, ◌+◌, ◌&&◌, ◌≡◌, inl, inr, List, String, arith, count, eqb, ltb, length, Bool-cases,
}
use mwanachama_backend_comm.Errors.{ok}
use mwanachama_backend_comm.Sql.Rows.{map_where}
use mwanachama_backend_comm.Sql.Counts.{count-map_where, count_none, count_same, count_split}
use mwanachama_backend_comm.Notification.Types.{Notification}
use mwanachama_backend_comm.Notification.Store.{
  NotificationDb, NotificationEngine, is_unread, to_mark, with_read_at, mark_read,
  notification_max_mark_read,
}

unread-map_where :
    (actor : String) (ids : List String) (at : ℕ) (rows : List Notification)
    → count (is_unread actor) rows
      ≡ count (to_mark actor ids) rows
        + count (is_unread actor) (map_where (to_mark actor ids) (with_read_at at) rows)
unread-map_where actor ids at rows =
    let q = to_mark actor ids in
    let p = is_unread actor in
    ground (
      arith,
      count_split q p rows,
      count-map_where q p (with_read_at at) rows,
      count_none (λ r. q r && p (with_read_at at r)) rows (λ r. ground arith),
      count_same (λ r. q r && p r) q rows (λ r. ground arith),
    )

-- `MarkRead` returns by how much it lowered the number of the caller's unread notifications.
pub mark_read-unread :
    (g : NotificationEngine) (now : ℕ) (minted actor : String) (ids : List String) (read_at n : ℕ)
    (s : NotificationDb)
    → (mark_read g now minted actor ids read_at s).0 ≡ ok n
    → count (is_unread actor) s.notifications
      ≡ n + count (is_unread actor) (mark_read g now minted actor ids read_at s).1.notifications
unfolding mark_read
mark_read-unread g now minted actor ids read_at n s h =
    elim (Bool-cases (ltb notification_max_mark_read (length ids))) [
      | inl many ↦ absurd (ground arith)
      | inr few ↦ elim (Bool-cases (eqb (length ids) 0)) [
        | inl nothing ↦ ground arith
        | inr some_ids ↦
            elim (g.notification_table.update_law (to_mark actor ids) (with_read_at read_at)
              s.notifications) [
                | inr (d, failed) ↦ absurd (ground arith)
                | inl done ↦ ground (arith, unread-map_where actor ids read_at s.notifications)
              ]
      ]
    ]
