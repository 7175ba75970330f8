-- ===== src/Tests/Moderation.antt =====
-- moderation_impl.go on one removal, disputed, with a log that is a list.
use mwanachama_backend_comm.Base.{◌≡◌, ◌≢◌, refl, List, [], ◌∷◌, ◌++◌, none, ◌==◌, find_first, Bool}
use mwanachama_backend_comm.Errors.{ok}
use mwanachama_backend_comm.Sql.Memory.{memory}
use mwanachama_backend_comm.Sql.Commit.{in_memory}
use mwanachama_backend_comm.Moderation.Types.{
  Removal, Dismissal, Dispute, open_dispute, reinstated, upheld,
}
use mwanachama_backend_comm.Moderation.Acts.{
  ActEntry, Actor, withheld_act, report_left_standing_act,
}
use mwanachama_backend_comm.Moderation.Store.{
  ModerationDb, ModerationEngine, create_removal, dismiss_reports, decide_dispute, decided,
  removal_work, dismissal_work, decide_work,
}
use mwanachama_backend_comm.Moderation.Store.Atomic.{create_removal_logged, dismiss_reports_logged}
use mwanachama_backend_comm.Moderation.Store.Decided.{
  DecidedBy, decide_dispute-DecidedBy, decide_dispute_once,
}
use mwanachama_backend_comm.Moderation.Store.Reasons.{
  acts-Settled, Settled, removal_reason, dismissal_reason, with_removal, with_dismissal,
}

abbrev engine : ModerationEngine (List ActEntry)
engine = record {
  report_table = memory (λ a b. a.id == b.id);
  removal_table = memory (λ a b. a.message_id == b.message_id);
  dismissal_table = memory (λ a b. a.message_id == b.message_id);
  dispute_table = memory (λ a b. a.removal_id == b.removal_id);
  write_act = λ e log. ok (log ++ e ∷ []);
  removal_tx = in_memory;
  dismissal_tx = in_memory;
  dispute_tx = in_memory;
}

abbrev moderator : Actor
moderator = record { id = "r"; label = "Reviewer"; structure_id = "" }

abbrev withheld : Removal
withheld = record {
  id = "rem";
  message_id = "msg";
  structure_id = "st";
  removed_by = "m";
  actor_role_class = "lead";
  reason = "abuse";
  removed_at = 3;
}

abbrev appeal : Dispute
appeal = record {
  id = "d";
  removal_id = "rem";
  raised_by = "author";
  statement = "why";
  review_structure_id = "up";
  held_since = 4;
  raised_at = 4;
  state = open_dispute;
  decided_by = "";
  decided_at = none;
}

abbrev standing : Dismissal
standing = record {
  id = "dis";
  message_id = "other";
  structure_id = "st";
  dismissed_by = "m";
  actor_role_class = "lead";
  reason = "abuse";
  note = "";
  dismissed_at = 3;
}

abbrev empty : ModerationDb (List ActEntry)
empty = record { reports = []; removals = []; dismissals = []; disputes = []; log = [] }

abbrev disputed : ModerationDb (List ActEntry)
disputed = record empty { removals = withheld ∷ []; disputes = appeal ∷ [] }

abbrev same_message : Removal → Removal → Bool
same_message a b = a.message_id == b.message_id

abbrev same_report : Dismissal → Dismissal → Bool
same_report a b = a.message_id == b.message_id

-- The message is withheld already, and the other one is not.
acts-Settled_example :
    Settled engine same_message same_report disputed "" "id" moderator 5
      (removal_reason engine same_message same_report disputed "" "id" moderator 5 withheld)
      (withheld_act withheld "" moderator)
      withheld
      (with_removal engine same_message same_report disputed "" "id" moderator 5 withheld)
      (create_removal engine withheld "" moderator "id" 5 disputed)
    × Settled engine same_message same_report disputed "" "id" moderator 5
        (dismissal_reason engine same_message same_report disputed "" "id" moderator 5 standing)
        (report_left_standing_act standing "" moderator)
        standing
        (with_dismissal engine same_message same_report disputed "" "id" moderator 5 standing)
        (dismiss_reports engine standing "" moderator "id" 5 disputed)
acts-Settled_example =
    acts-Settled engine same_message same_report disputed "" "id" moderator 5 withheld standing

removed : (create_removal engine withheld "" moderator "id" 5 empty).0 ≡ ok withheld
unfolding create_removal removal_work
removed = refl

create_removal_logged_example :
    (log : List ActEntry) × (engine.write_act (withheld_act withheld "" moderator) [] ≡ ok log)
    × ((create_removal engine withheld "" moderator "id" 5 empty).1
        ≡ record empty { removals = [] ++ withheld ∷ []; log = log })
create_removal_logged_example =
    create_removal_logged engine empty "" "id" moderator 5 withheld withheld removed

dismissed : (dismiss_reports engine standing "" moderator "id" 5 disputed).0 ≡ ok standing
unfolding dismiss_reports dismissal_work
dismissed = refl

dismiss_reports_logged_example :
    (find_first (λ m. m.message_id == standing.message_id) disputed.removals ≡ none)
    × (log : List ActEntry) × (engine.write_act (report_left_standing_act standing "" moderator) []
        ≡ ok log)
    × ((dismiss_reports engine standing "" moderator "id" 5 disputed).1
        ≡ record disputed { dismissals = [] ++ standing ∷ []; log = log })
dismiss_reports_logged_example =
    dismiss_reports_logged engine disputed "" "id" moderator 5 standing standing dismissed

settled :
    (decide_dispute engine "d" upheld "r" 5 "" moderator disputed).0
    ≡ ok (decided upheld "r" 5 appeal)
unfolding decide_dispute decide_work
settled = refl

decide_dispute-DecidedBy_example :
    DecidedBy engine "d" upheld "r" 5 "" moderator disputed
      (decided upheld "r" 5 appeal)
      (decide_dispute engine "d" upheld "r" 5 "" moderator disputed).1
decide_dispute-DecidedBy_example =
    decide_dispute-DecidedBy engine "d" upheld "r" 5 "" moderator disputed
      (decided upheld "r" 5 appeal) settled

decide_dispute_once_example :
    (decide_dispute engine "d" reinstated "q" 6 "" moderator
      (decide_dispute engine "d" upheld "r" 5 "" moderator disputed).1).0
    ≢ ok (decided reinstated "q" 6 appeal)
decide_dispute_once_example =
    decide_dispute_once engine "d" upheld reinstated "r" "q" 5 6 "" "" moderator moderator disputed
      (decided upheld "r" 5 appeal) (decided reinstated "q" 6 appeal) refl settled
