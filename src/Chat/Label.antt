-- ===== src/Chat/Label.antt =====
-- chat_impl.go: the label of a thread, and the path that its words make.
use mwanachama_backend_comm.Base.{
  ℕ, Bool, ◌||◌, Option, none, some, List, [], ◌∷◌, ◌++◌, Text, String, codes, eqb, is_space, not,
  if◌then◌else◌,
}

-- The runs of runes that meet `p`: the loop of `labelTagPath`, and of `strings.Fields`. `word` is
-- what the builder holds.
words_from : (ℕ → Bool) → Text → Text → List Text
words_from p [] [] = []
words_from p (r ∷ rs) [] = (r ∷ rs) ∷ []
words_from p word (c ∷ cs) =
    let longer = words_from p (word ++ c ∷ []) cs in
    let rest = words_from p [] cs in
    if p c then longer else (elim word [ [] ↦ rest | r ∷ rs ↦ (r ∷ rs) ∷ rest ])

-- `strings.Join`.
pub join : Text → List Text → Text
join sep [] = []
join sep (w ∷ []) = w
join sep (w ∷ v ∷ ws) = w ++ (sep ++ join sep (v ∷ ws))

-- `strings.Join(strings.Fields(label), " ")`.
pub one_line : Text → Text
unfolding words_from join
one_line label = join (codes " ") (words_from (λ r. not (is_space r)) [] label)

-- What `unicode` and `strings.ToLower` say of a rune and of a text.
pub record Unicode : Type 0 where
  pub to_lower : Text → Text
  pub is_letter : ℕ → Bool
  pub is_digit : ℕ → Bool

pub label_tag_path : Unicode → Text → Option Text
unfolding words_from join
label_tag_path u label =
    elim (words_from (λ r. u.is_letter r || u.is_digit r) [] (u.to_lower label)) [
      | [] ↦ none
      | w ∷ ws ↦ some (b'/' ∷ join (codes "-") (w ∷ ws))
    ]

-- `strings.TrimPrefix`.
without_prefix : Text → Text → Option Text
without_prefix [] s = some s
without_prefix (p ∷ ps) [] = none
without_prefix (p ∷ ps) (r ∷ rs) = let rest = without_prefix ps rs in if eqb p r then rest else none

pub trim_prefix : Text → Text → Text
unfolding without_prefix
trim_prefix p s = elim (without_prefix p s) [ none ↦ s | some rest ↦ rest ]

-- `path + "-" + strings.TrimPrefix(id, prefixChatThread+"-")`: the path that a thread is moved to.
pub aside_path : Text → String → Text
unfolding trim_prefix
aside_path path id = path ++ (b'-' ∷ trim_prefix (codes "cthread-") (codes id))

abbrev pub same_text : Text → Text → Bool
same_text [] [] = Bool.true
same_text [] (r ∷ rs) = Bool.false
same_text (r ∷ rs) [] = Bool.false
same_text (r ∷ rs) (q ∷ qs) = let rest = same_text rs qs in if eqb r q then rest else Bool.false
