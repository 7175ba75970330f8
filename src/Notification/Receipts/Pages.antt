-- ===== src/Notification/Receipts/Pages.antt =====
-- A page of receipts.
use mwanachama_backend_comm.Base.{
  ℕ, zero, suc, ◌≤◌, Bool, true, false, ◌&&◌, ◌||◌, ◌≡◌, refl, ap, inl, inr, List, [], ◌∷◌, String,
  ◌==◌, ℤ, pos, negsuc, arith, length, take, map, keep, all, text_before, Bool-cases, is_blank,
}
use mwanachama_backend_comm.Errors.{ok}
use mwanachama_backend_comm.Exec.Steps.{Outcome-cases}
use mwanachama_backend_comm.Sql.Rows.{sort, insert_sorted}
use mwanachama_backend_comm.Notification.Types.{Notification, NotificationAcknowledgement}
use mwanachama_backend_comm.Notification.Store.{NotificationDb, NotificationEngine}
use mwanachama_backend_comm.Notification.Receipts.{
  NotificationReceipt, receipts_page, receipts_max_page, is_about, receipt_of, acknowledgements_of,
  notification_receipts,
}
use mwanachama_backend_comm.Exec.{pure, ◌>>=◌}

length-take : {A : Type 0} (n : ℕ) (xs : List A) → length (take n xs) ≤ n
length-take zero xs = omega arith
length-take (suc n) [] = omega arith
length-take (suc n) (x ∷ xs) = omega (arith, length-take n xs)

length-map : {A B : Type 0} (f : A → B) (xs : List A) → length (map f xs) ≡ length xs
length-map f [] = refl
length-map f (x ∷ xs) = rw (length-map f xs) refl

all-take :
    {A : Type 0} (p : A → Bool) (n : ℕ) (xs : List A) → all p xs ≡ true → all p (take n xs) ≡ true
all-take p zero xs h = refl
all-take p (suc n) [] h = refl
all-take p (suc n) (x ∷ xs) h = ground (arith, all-take p n xs)

all-insert_sorted :
    {A : Type 0} (p : A → Bool) (before : A → A → Bool) (x : A) (xs : List A)
    → p x ≡ true
    → all p xs ≡ true
    → all p (insert_sorted before x xs) ≡ true
all-insert_sorted p before x [] h hs = ground arith
all-insert_sorted p before x (y ∷ ys) h hs = ground (arith, all-insert_sorted p before x ys)

-- The rows that a query selects meet its condition.
all-sort-keep :
    {A : Type 0} (p : A → Bool) (before : A → A → Bool) (xs : List A)
    → all p (sort before (keep p xs)) ≡ true
all-sort-keep p before [] = refl
all-sort-keep p before (x ∷ xs) = elim (Bool-cases (p x)) [
  | inl met ↦
      rw met
        (all-insert_sorted p before x (sort before (keep p xs)) met (all-sort-keep p before xs))
  | inr other ↦ rw other (all-sort-keep p before xs)
]

pub receipts_page-max : (limit : ℤ) → receipts_page limit ≤ receipts_max_page
unfolding receipts_page
receipts_page-max (pos zero) = omega arith
receipts_page-max (pos (suc n)) = ground arith
receipts_page-max (negsuc n) = omega arith

receipts_page-le : (n : ℕ) → receipts_page (pos (suc n)) ≤ suc n
unfolding receipts_page
receipts_page-le n = ground arith

-- A receipt that a page after the id `after` may hold.
abbrev pub is_next : String → String → NotificationReceipt → Bool
is_next event after r =
    (event == "" || r.event == event) && (after == "" || text_before after r.notification_id)

later_two : (a b c : Bool) → (a && b) && c ≡ true → b && c ≡ true
later_two true b c h = h
later_two false b c h = cc

all-map :
    {A B : Type 0} (p : A → Bool) (q : B → Bool) (f : A → B) (xs : List A)
    → ((x : A) → p x ≡ true → q (f x) ≡ true)
    → all p xs ≡ true
    → all q (map f xs) ≡ true
all-map p q f [] keeps h = refl
all-map p q f (x ∷ xs) keeps h = ground (arith, all-map p q f xs keeps, keeps x)

all-receipt_of :
    (acks : List NotificationAcknowledgement) (kind subject event after : String)
    (ns : List Notification)
    → all (is_about kind subject event after) ns ≡ true
    → all (is_next event after) (map (receipt_of acks) ns) ≡ true
all-receipt_of acks kind subject event after ns =
    all-map (is_about kind subject event after) (is_next event after) (receipt_of acks) ns (λ n.
      later_two (n.subject_kind == kind && n.subject_id == subject)
        (event == "" || n.event == event) (after == "" || text_before after n.id))

module _ (g : NotificationEngine) (now : ℕ) (minted : String) where
  page-shape :
      (ns : List Notification) (s s' : NotificationDb) (out : List NotificationReceipt)
      → (do acks ← acknowledgements_of g now minted ns; pure (map (receipt_of acks) ns)) s
        ≡ (ok out, s')
      → (acks : List NotificationAcknowledgement) × (out ≡ map (receipt_of acks) ns)
  page-shape ns s s' out h = elim (Outcome-cases (acknowledgements_of g now minted ns s)) [
    | inl (e, x, fails) ↦ absurd (ground arith)
    | inr (acks, x, works) ↦ (acks, ground arith)
  ]

  -- A page of receipts has at most 1000, and no more than a positive limit that was asked for; and
  -- each is of the event that was asked for and comes after the id that was given.
  pub notification_receipts-bounded :
      (kind subject event after : String) (limit : ℤ) (s s' : NotificationDb)
      (out : List NotificationReceipt)
      → notification_receipts g now minted kind subject event after limit s ≡ (ok out, s')
      → (length out ≤ 1000)
        × ((n : ℕ) → limit ≡ pos (suc n) → length out ≤ suc n)
        × (all (is_next event after) out ≡ true)
  unfolding notification_receipts
  notification_receipts-bounded kind subject event after limit s s' out h =
      elim (Bool-cases (is_blank kind || is_blank subject)) [
        | inl blank ↦ absurd (ground arith)
        | inr named ↦
            elim (g.notification_table.list_law (is_about kind subject event after)
              (λ a b. text_before a.id b.id) s.notifications) [
                | inr (d, fails) ↦ absurd (ground arith)
                | inl read ↦
                    let rows =
                      sort (λ (a b : Notification). text_before a.id b.id)
                        (keep (is_about kind subject event after) s.notifications) in
                    let sent = take (receipts_page limit) rows in
                    let (acks, shape) = page-shape sent s s' out (ground arith) in
                    let about =
                      all-sort-keep (is_about kind subject event after)
                        (λ (a b : Notification). text_before a.id b.id) s.notifications in
                    let next = all-receipt_of acks kind subject event after sent (
                      all-take (is_about kind subject event after) (receipts_page limit) rows
                        about) in
                    let size = length-map (receipt_of acks) sent in
                    let few = length-take (receipts_page limit) rows in
                    (
                      rw (shape, size) (omega (arith, few, receipts_page-max limit)),
                      λ n asked.
                          rw (shape, size)
                            (omega (arith, few, ap receipts_page asked, receipts_page-le n)),
                      rw shape next,
                    )
              ]
      ]
