-- ===== src/Subject/Manager/Replies.antt =====
-- Whom a reply is raised to, where the host names no others.
use mwanachama_backend_comm.Base.{
  ℕ, Bool, true, false, not, ◌&&◌, ◌||◌, ◌≡◌, refl, ap, inl, inr, List, [], ◌∷◌, String, ◌==◌,
  eq_refl, eq_iff, arith, all, keep, Bool-cases, Option-cases,
}
use mwanachama_backend_comm.Errors.{ok, err}
use mwanachama_backend_comm.Exec.Steps.{Outcome-cases, Result-cases}
use mwanachama_backend_comm.Validate.{holds}
use mwanachama_backend_comm.Subject.Types.{
  SubjectThread, SubjectStanding, is_private, is_answerer, is_audience,
}
use mwanachama_backend_comm.Subject.Store.{
  SubjectDb, SubjectEngine, is_subject_not_found, audience_authors,
}
use mwanachama_backend_comm.Subject.Manager.{
  SubjectHost, standing_on, tell_each, answerers_to_tell, reply_recipients, except,
}

-- An actor whom the host lets answer for a record.
abbrev pub answers_for : SubjectHost → String → String → String → Bool
answers_for h kind id a = elim (standing_on h a kind id) [ err e ↦ false | ok st ↦ is_answerer st ]

abbrev pub is_other : String → String → Bool
is_other poster a = not (a == poster)

abbrev pub answers_unseen : SubjectHost → String → String → List String → String → Bool
answers_unseen h kind id seen a = not (holds seen a) && answers_for h kind id a

seen_more :
    (a first : String) (seen : List String)
    → holds seen first ≡ true
    → holds (a ∷ seen) first ≡ true
unfolding holds
seen_more a first seen k = ground (arith, k)

not_seen :
    (seen : List String) (a first : String)
    → holds seen a ≡ false
    → holds seen first ≡ true
    → is_other first a ≡ true
not_seen seen a first new k = elim (Bool-cases (a == first)) [
  | inl e ↦ let same = ap (holds seen) ((eq_iff a first).0 e) in cc
  | inr e ↦ rw e refl
]

answering :
    (h : SubjectHost) (kind id a : String) (st : SubjectStanding)
    → standing_on h a kind id ≡ ok st
    → is_answerer st ≡ true
    → answers_for h kind id a ≡ true
answering h kind id a st stands one = ground arith

-- Those who are told answer for the record, and none of them was seen before.
all-tell_each :
    (h : SubjectHost) (kind id : String) (seen named told : List String) (first : String)
    → tell_each h kind id seen named ≡ ok told
    → holds seen first ≡ true
    → all (λ a. is_other first a && answers_for h kind id a) told ≡ true
unfolding holds
all-tell_each h kind id seen [] told first e k = ground arith
all-tell_each h kind id seen (a ∷ named) told first e k = elim (Bool-cases (holds seen a)) [
  | inl before ↦ all-tell_each h kind id seen named told first (ground arith) k
  | inr new ↦ elim (Result-cases (standing_on h a kind id)) [
    | inl (x, fails) ↦ elim (Bool-cases (is_subject_not_found x)) [
      | inl unknown ↦
          all-tell_each h kind id (a ∷ seen) named told first (ground arith)
            (seen_more a first seen k)
      | inr stops ↦ absurd (ground arith)
    ]
    | inr (st, stands) ↦ elim (Result-cases (tell_each h kind id (a ∷ seen) named)) [
      | inl (x, fails) ↦ absurd (ground arith)
      | inr (rest, works) ↦
          let others =
            all-tell_each h kind id (a ∷ seen) named rest first works (seen_more a first seen k) in
          let apart = not_seen seen a first new k in
          elim (Bool-cases (is_answerer st)) [
            | inl one ↦
                let shape : told ≡ a ∷ rest = ground arith in
                let mine = answering h kind id a st stands one in rw (shape, apart, mine) others
            | inr other ↦ let shape : told ≡ rest = ground arith in rw shape others
          ]
    ]
  ]
]

abbrev pub is_told : SubjectHost → SubjectThread → String → String → Bool
is_told h t poster a = is_other poster a && answers_for h t.subject_kind t.subject_id a

all-answerers_to_tell :
    (h : SubjectHost) (t : SubjectThread) (poster : String) (st : SubjectStanding)
    (told : List String)
    → answerers_to_tell h t poster st ≡ ok told
    → all (is_told h t poster) told ≡ true
unfolding answerers_to_tell holds
all-answerers_to_tell h t poster st told e = elim (Option-cases h.answerers) [
  | inl unset ↦ let shape : told ≡ [] = ground arith in rw shape refl
  | inr (f, set) ↦ elim (Bool-cases (not (is_private t.audience) || not (is_audience st))) [
    | inl nobody ↦ let shape : told ≡ [] = ground arith in rw shape refl
    | inr some_told ↦ elim (Result-cases (f t.subject_kind t.subject_id)) [
      | inl (x, fails) ↦ absurd (ground arith)
      | inr (named, works) ↦
          all-tell_each h t.subject_kind t.subject_id (poster ∷ ("" ∷ [])) named told poster
            (ground arith) (ground (arith, eq_refl poster))
    ]
  ]
]

all-except : (p : String → Bool) (xs : List String) → all p (keep p xs) ≡ true
all-except p [] = refl
all-except p (x ∷ xs) = ground (arith, all-except p xs)

weaker :
    (p q r : String → Bool) (xs : List String)
    → ((a : String) → p a && q a ≡ true → r a ≡ true)
    → all (λ a. p a && q a) xs ≡ true
    → all r xs ≡ true
weaker p q r [] sub h = refl
weaker p q r (x ∷ xs) sub h = ground (arith, weaker p q r xs sub, sub x)

every : (p : String → Bool) (xs : List String) → ((a : String) → p a ≡ true) → all p xs ≡ true
every p [] h = refl
every p (x ∷ xs) h = rw (h x) (every p xs h)

module _ (h : SubjectHost) (g : SubjectEngine) (now : ℕ) (minted : String) where
  -- One who may be told of a message: in a private thread its owner, or one who answers for it.
  abbrev pub is_party : SubjectThread → String → Bool
  is_party t a =
      not (is_private t.audience) || t.owner_id == a || answers_for h t.subject_kind t.subject_id a

  -- Before the host names others, a message about a record is not told to the one who wrote it,
  -- and in a private thread it is told only to its owner and to actors whom the host lets answer
  -- for the record.
  pub reply_recipients-others :
      (t : SubjectThread) (poster : String) (st : SubjectStanding) (answerers rs : List String)
      (s s' : SubjectDb)
      → answerers_to_tell h t poster st ≡ ok answerers
      → reply_recipients h g now minted t poster st answerers s ≡ (ok rs, s')
      → (all (is_other poster) rs ≡ true) × (all (is_party t) rs ≡ true)
  unfolding reply_recipients
  reply_recipients-others t poster st answerers rs s s' asked e =
      let told = all-answerers_to_tell h t poster st answerers asked in
      elim (Bool-cases (is_private t.audience)) [
        | inl secret ↦ elim (Bool-cases (is_answerer st && not (t.owner_id == poster))) [
          | inl back ↦
              let shape : rs ≡ t.owner_id ∷ [] = ground arith in
              (rw shape (ground arith), rw shape (ground (arith, eq_refl t.owner_id)))
          | inr forth ↦
              let shape : rs ≡ answerers = ground arith in
              (
                rw shape (
                    weaker (is_other poster) (answers_for h t.subject_kind t.subject_id)
                      (is_other poster) answerers (λ a k. ground arith) told),
                rw shape (
                    weaker (is_other poster) (answers_for h t.subject_kind t.subject_id)
                      (is_party t) answerers (λ a k. ground arith) told),
              )
        ]
        | inr open_to_all ↦ elim (Outcome-cases (audience_authors g now minted t.id s)) [
          | inl (x, y, fails) ↦ absurd (ground arith)
          | inr (authors, y, works) ↦
              let shape : rs ≡ except h g now minted poster authors = ground arith in
              (
                rw shape (all-except (is_other poster) authors),
                every (is_party t) rs (λ a. rw open_to_all refl),
              )
        ]
      ]
