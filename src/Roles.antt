-- ===== src/Roles.antt =====
-- roles.go: the tables that the module's objects fill.
pub data Role : Type 0 where
  chat_thread chat_message chat_read_marker chat_archive : Role
  subject_thread subject_message : Role
  dm_thread dm_participant dm_message dm_reaction dm_device_key : Role
  report removal dismissal dispute : Role
  address address_block : Role
  notification notification_preference notification_ack : Role
  push_subscription push_delivery standing_message : Role
