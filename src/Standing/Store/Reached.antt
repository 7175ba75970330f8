-- ===== src/Standing/Store/Reached.antt =====
-- The last occurrence that a row has reached, across the statements that change the row.
use mwanachama_backend_comm.Base.{
  ℕ, ◌≤◌, ◌<◌, Bool, true, false, ◌≡◌, ◌≢◌, refl, sym, ap, ◌∙◌, inl, inr, none, some, List, [], ◌∷◌,
  ◌++◌, String, arith, leb, count, any, all, Bool-cases, Option-cases, if◌then◌else◌, ◌==◌, eq_iff,
}
use mwanachama_backend_comm.Sql.Rows.{map_where, map_where_none}
use mwanachama_backend_comm.Standing.Types.{StandingMessage}
use mwanachama_backend_comm.Standing.Store.{claimable, sent_at, last_of, due_from}
use mwanachama_backend_comm.Sql.Counts.{any-count, count-append}

abbrev pub has_id : String → StandingMessage → Bool
has_id id r = r.id == id

-- An occurrence of a standing message is not after what the row says was sent last.
abbrev pub reached : String × ℕ → StandingMessage → Bool
reached x r =
    if r.id == x.0 then (elim r.last_sent_at [ none ↦ false | some last ↦ leb x.1 last ]) else true

pub last_of-leb :
    (p : ℕ → Bool) (xs : List ℕ) (at : ℕ) → all p xs ≡ true → last_of xs ≡ some at → p at ≡ true
last_of-leb p [] at met h = cc
last_of-leb p (x ∷ xs) at met h = elim (Option-cases (last_of xs)) [
  | inl e ↦ ground arith
  | inr (y, e) ↦ ground (arith, last_of-leb p xs y)
]

-- A row that is claimed for an occurrence that is due was behind it.
pub claimable-reached :
    (m r : StandingMessage) (x : String × ℕ) (at : ℕ)
    → x.0 ≡ m.id
    → due_from m ≤ at
    → claimable m r ≡ true
    → reached x r ≡ true
    → x.1 < at
claimable-reached m r x at same due mine past = elim (Option-cases m.last_sent_at) [
  | inl never ↦ elim (Option-cases r.last_sent_at) [
    | inl e ↦ ground arith
    | inr (l, e) ↦ ground arith
  ]
  | inr (k, last) ↦ elim (Option-cases r.last_sent_at) [
    | inl e ↦ ground arith
    | inr (l, e) ↦ ground arith
  ]
]

pub reached-sent_at :
    (m r : StandingMessage) (x : String × ℕ) (at : ℕ)
    → due_from m ≤ at
    → claimable m r ≡ true
    → reached x r ≡ true
    → reached x (sent_at at r) ≡ true
reached-sent_at m r x at due mine past = elim (Bool-cases (r.id == x.0)) [
  | inl e ↦
      let own : r.id == m.id ≡ true = ground arith in
      let same : x.0 ≡ m.id = sym ((eq_iff r.id x.0).0 e) ∙ (eq_iff r.id m.id).0 own in
      let later = claimable-reached m r x at same due mine past in ground arith
  | inr e ↦ ground arith
]

pub all-map_where :
    (q p : StandingMessage → Bool) (set : StandingMessage → StandingMessage)
    (rs : List StandingMessage)
    → ((r : StandingMessage) → q r ≡ true → p r ≡ true → p (set r) ≡ true)
    → all p rs ≡ true
    → all p (map_where q set rs) ≡ true
all-map_where q p set [] keeps h = refl
all-map_where q p set (r ∷ rs) keeps h = ground (arith, all-map_where q p set rs keeps, keeps r)

pub all-append :
    (p : StandingMessage → Bool) (rs : List StandingMessage) (r : StandingMessage)
    → all p rs ≡ true
    → p r ≡ true
    → all p (rs ++ r ∷ []) ≡ true
all-append p [] r h e = ground arith
all-append p (x ∷ rs) r h e = ground (arith, all-append p rs r)

none_with :
    (id : String) (m : StandingMessage) (rs : List StandingMessage)
    → m.id ≡ id
    → count (has_id id) rs ≡ 0
    → count (claimable m) rs ≡ 0
none_with id m [] same h = refl
none_with id m (r ∷ rs) same h = ground (arith, none_with id m rs same)

unreached :
    (x : String × ℕ) (rs : List StandingMessage)
    → count (has_id x.0) rs ≡ 0
    → all (reached x) rs ≡ true
unreached x [] h = refl
unreached x (r ∷ rs) h = ground (arith, unreached x rs)

-- After a claim every row of that id has reached the occurrence.
pub all-reached_claimed :
    (m : StandingMessage) (at : ℕ) (rs : List StandingMessage)
    → count (has_id m.id) rs ≤ 1
    → count (claimable m) rs ≢ 0
    → all (reached (m.id, at)) (map_where (claimable m) (sent_at at) rs) ≡ true
all-reached_claimed m at [] few met = absurd (met refl)
all-reached_claimed m at (r ∷ rs) few met = elim (Bool-cases (claimable m r)) [
  | inl mine ↦
      let rest : count (has_id m.id) rs ≡ 0 = ground arith in
      let same = map_where_none (claimable m) (sent_at at) rs (none_with m.id m rs refl rest) in
      let others = unreached (m.id, at) rs rest in ground arith
  | inr other ↦ elim (Bool-cases (r.id == m.id)) [
    | inl e ↦
        let rest : count (has_id m.id) rs ≡ 0 = ground arith in
        let gone = none_with m.id m rs refl rest in absurd (met (ground arith))
    | inr e ↦ ground (arith, all-reached_claimed m at rs)
  ]
]

-- Before a claim the rows of that id had reached less.
pub claimed_later :
    (m : StandingMessage) (at : ℕ) (x : String × ℕ) (rs : List StandingMessage)
    → due_from m ≤ at
    → x.0 ≡ m.id
    → count (claimable m) rs ≢ 0
    → all (reached x) rs ≡ true
    → x.1 < at
claimed_later m at x [] due same met past = absurd (met refl)
claimed_later m at x (r ∷ rs) due same met past = elim (Bool-cases (claimable m r)) [
  | inl mine ↦ claimable-reached m r x at same due mine (ground arith)
  | inr other ↦ claimed_later m at x rs due same (ground arith) (ground arith)
]

pub any-map_where :
    (q p : StandingMessage → Bool) (set : StandingMessage → StandingMessage)
    (rs : List StandingMessage)
    → ((r : StandingMessage) → p (set r) ≡ p r)
    → any p (map_where q set rs) ≡ any p rs
any-map_where q p set [] same = refl
any-map_where q p set (r ∷ rs) same = ground (arith, any-map_where q p set rs same, same r)

pub any-append_left :
    (p : StandingMessage → Bool) (rs more : List StandingMessage)
    → any p rs ≡ true
    → any p (rs ++ more) ≡ true
any-append_left p [] more h = cc
any-append_left p (r ∷ rs) more h = ground (arith, any-append_left p rs more)

pub claimed-any :
    (m : StandingMessage) (rs : List StandingMessage)
    → count (claimable m) rs ≢ 0
    → any (has_id m.id) rs ≡ true
claimed-any m [] met = absurd (met refl)
claimed-any m (r ∷ rs) met = elim (Bool-cases (claimable m r)) [
  | inl mine ↦ ground arith
  | inr other ↦ let rest = claimed-any m rs (ground arith) in ground arith
]

-- A row whose id no other has is none of those that were sent.
pub unlike-reached :
    (new : StandingMessage) (x : String × ℕ) (rs : List StandingMessage)
    → any (has_id new.id) rs ≡ false
    → any (has_id x.0) rs ≡ true
    → reached x new ≡ true
unlike-reached new x rs fresh there = elim (Bool-cases (new.id == x.0)) [
  | inl e ↦
      let same = (eq_iff new.id x.0).0 e in let clash = ap (λ id. any (has_id id) rs) same in cc
  | inr e ↦ ground arith
]

pub unique_append :
    (new : StandingMessage) (id : String) (rs : List StandingMessage)
    → any (has_id new.id) rs ≡ false
    → count (has_id id) rs ≤ 1
    → count (has_id id) (rs ++ new ∷ []) ≤ 1
unique_append new id rs fresh few = elim (Bool-cases (new.id == id)) [
  | inl e ↦
      let same = (eq_iff new.id id).0 e in
      let gone = any-count (has_id new.id) rs fresh in
      let whole = count-append (has_id id) rs (new ∷ []) in
      let moved = ap (λ x. count (has_id x) rs) same in ground arith
  | inr e ↦ let whole = count-append (has_id id) rs (new ∷ []) in ground arith
]

pub any_mono :
    (p q : StandingMessage → Bool) (rs : List StandingMessage)
    → ((r : StandingMessage) → p r ≡ true → q r ≡ true)
    → any p rs ≡ true
    → any q rs ≡ true
any_mono p q [] sub h = cc
any_mono p q (r ∷ rs) sub h = ground (arith, any_mono p q rs sub, sub r)
