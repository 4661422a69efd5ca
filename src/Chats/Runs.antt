-- ===== src/Chats/Runs.antt =====
-- The theorems on chat settings at concrete inputs.
use mautrix_signal.Common.{◌≡◌, true, false, some, none, codes}
use mautrix_signal.Chats.Settings.{
  ChatSettings, Tags, settings_of, plan_chat_settings, initial_user_local,
}
use mautrix_signal.Chats.Settings.Plan.{
  view, apply_plan, apply-plan_chat_settings, initial_user_local-plan,
}

abbrev pinned_settings : ChatSettings
pinned_settings = record { muted_until = 0; archived = true; marked_unread = false; pinned = true }

abbrev muted_settings : ChatSettings
muted_settings = record {
  muted_until = 8000;
  archived = true;
  marked_unread = true;
  pinned = false;
}

abbrev some_tags : Tags
some_tags = record { pinned = codes "m.favourite"; archive = codes "m.lowpriority" }

apply-plan_chat_settings_example :
    apply_plan
      (plan_chat_settings (some pinned_settings) muted_settings some_tags 5000)
      (view (settings_of (some pinned_settings)) some_tags 5000)
    ≡ view muted_settings some_tags 5000
apply-plan_chat_settings_example =
    apply-plan_chat_settings (some pinned_settings) muted_settings some_tags 5000

initial_user_local-plan_example :
    initial_user_local muted_settings some_tags 5000
    ≡ (plan_chat_settings none muted_settings some_tags 5000).user_local
initial_user_local-plan_example = initial_user_local-plan muted_settings some_tags 5000
