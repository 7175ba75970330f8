-- ===== src/Notification/Category.antt =====
-- models/notification_category.go: the vocabulary of notifications. A category, an event and a kind of
-- subject are strings.
use mwanachama_backend_comm.Base.{
  Bool, ◌||◌, Option, none, some, List, [], ◌∷◌, String, ◌==◌, if◌then◌else◌,
}
use mwanachama_backend_comm.Validate.{holds}

-- `notificationCategories`.
abbrev pub notification_categories : List String
notification_categories =
    "survey"
    ∷ ("results"
        ∷ ("contribution"
            ∷ ("merchandise"
                ∷ ("chat"
                    ∷ ("membership"
                        ∷ ("security"
                            ∷ ("approval"
                                ∷ ("item" ∷ ("case" ∷ ("task" ∷ ("post" ∷ ("market" ∷ []))))))))))))

-- `notificationEventCategory`: each event with its category.
abbrev pub event_categories : List (String × String)
event_categories =
    ("survey_reached", "survey")
    ∷ (("survey_reminder", "survey")
        ∷ (("survey_nudge", "survey")
            ∷ (("results_published", "results")
                ∷ (("contribution_matched", "contribution")
                    ∷ (("contribution_orphaned", "contribution")
                        ∷ (("contribution_report_refused", "contribution")
                            ∷ (("merchandise_recorded", "merchandise")
                                ∷ (("message_removed", "chat")
                                    ∷ (("identity_case_opened", "security")
                                        ∷ (("identity_case_closed", "security")
                                            ∷ (("enrollment_key_rotated", "membership")
                                                ∷ (("actor_transferred", "membership")
                                                    ∷ (("consent_version_published", "membership")
                                                        ∷ (("number_changed", "membership")
                                                            ∷ (("device_signed_out", "security")
                                                            ∷ (("approval_requested", "approval")
                                                            ∷ (("group_join_approved", "membership")
                                                            ∷ (("group_join_declined", "membership")
                                                            ∷ (("group_invited", "membership")
                                                            ∷ (("join_requested", "membership")
                                                            ∷ (("thread_reply", "chat")
                                                            ∷ (("thread_requested", "chat")
                                                            ∷ (("thread_declined", "chat")
                                                            ∷ (("record_message", "chat")
                                                            ∷ (("record_access_ended", "chat")
                                                            ∷ ((
                                                            "group_member_removed", "membership",
                                                            )
                                                            ∷ ((
                                                            "agency_member_removed", "membership",
                                                            )
                                                            ∷ (("item_acknowledged", "item")
                                                            ∷ (("item_answered", "item")
                                                            ∷ (("item_status_changed", "item")
                                                            ∷ (("item_filed_for_you", "item")
                                                            ∷ (("items_overdue", "item")
                                                            ∷ ((
                                                            "record_change_approved", "membership",
                                                            )
                                                            ∷ ((
                                                            "record_change_refused", "membership",
                                                            )
                                                            ∷ (("case_opened", "case")
                                                            ∷ (("case_closed", "case")
                                                            ∷ (("task_assigned", "task")
                                                            ∷ (("task_overdue", "task")
                                                            ∷ (("appointment_booked", "case")
                                                            ∷ (("appointment_cancelled", "case")
                                                            ∷ ((
                                                            "appointment_cancelled_by_member",
                                                            "case",
                                                            )
                                                            ∷ (("poll_opened", "survey")
                                                            ∷ (("poll_result_published", "results")
                                                            ∷ (("volunteer_picked", "post")
                                                            ∷ (("volunteer_call_filled", "post")
                                                            ∷ (("supplier_approved", "market")
                                                            ∷ (("ask_waiting", "market")
                                                            ∷ (("ask_answered", "market")
                                                            ∷ (("revision_asked", "market")
                                                            ∷ (("notice_posted", "market")
                                                            ∷ (("quote_sent", "market")
                                                            ∷ (("draft_waiting", "market")
                                                            ∷ (("counter_sent", "market")
                                                            ∷ (("ask_closed", "market") ∷ []))))))))
                                                            ))))))))))))))))))))))))))))))))))))))))
                                                            ))))))

-- `notificationEventUnmutable`: the events that reach everybody.
abbrev pub unmutable_events : List String
unmutable_events =
    "group_member_removed"
    ∷ ("agency_member_removed"
        ∷ ("record_access_ended"
            ∷ ("volunteer_picked"
                ∷ ("record_change_approved" ∷ ("record_change_refused" ∷ ("case_closed" ∷ []))))))

-- `notificationSubjectKinds`.
abbrev pub notification_subject_kinds : List String
notification_subject_kinds =
    "survey"
    ∷ ("contribution"
        ∷ ("contribution_report"
            ∷ ("handout"
                ∷ ("message"
                    ∷ ("identity_case"
                        ∷ ("device"
                            ∷ ("enrollment_key"
                                ∷ ("actor_registration"
                                    ∷ ("pending_approval"
                                        ∷ ("group"
                                            ∷ ("subject_thread"
                                                ∷ ("chat_thread"
                                                    ∷ ("group_join_request"
                                                        ∷ ("group_join_decision"
                                                            ∷ ("item"
                                                            ∷ ("item_digest"
                                                            ∷ ("record_change"
                                                            ∷ ("case"
                                                            ∷ ("task"
                                                            ∷ ("record"
                                                            ∷ ("poll"
                                                            ∷ ("post"
                                                            ∷ ("poster"
                                                            ∷ ("ask"
                                                            ∷ ("group_order"
                                                            ∷ ("notice"
                                                            ∷ ("quote"
                                                            ∷ ("draft"
                                                            ∷ []))))))))))))))))))))))))))))

abbrev pub category_in : List (String × String) → String → Option String
category_in [] event = none
category_in (x ∷ xs) event = if x.0 == event then some x.1 else category_in xs event

unfoldable pub notification_category_of : String → Option String
notification_category_of event = category_in event_categories event

unfoldable pub notification_event_unmutable : String → Bool
notification_event_unmutable event = holds unmutable_events event

pub is_notification_category : String → Bool
is_notification_category c = holds notification_categories c

pub notification_exempt : String → Bool
notification_exempt c = c == "survey" || c == "security"
