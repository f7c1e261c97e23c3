-- ===== src/Middlewares/LockTables.antt =====
-- The tables of bot/middlewares/state_lock.py: the states it locks, what each allows, and the texts of
-- the buttons (`ReplyBtn` of bot/core/constants.py).
use telegram_bot_new_version.Prelude.{String, Bool, true, false, List, [], ◌∷◌, ℕ, ◌*◌}

-- LOCKED_STATES. A name that several groups of states declare has its group in front.
pub data LockedState : Type 0 where
  anonymous_chat_active waiting_for_approval typing_message waiting_in_queue : LockedState
  answering_questions waiting_for_partner_answer waiting_for_report_description : LockedState
  waiting_for_evidence_before_reason selecting_reason waiting_for_age_filter editing_bio :
      LockedState
  selecting_interests waiting_for_photo editing_name updating_age updating_province : LockedState
  updating_city waiting_for_voice waiting_for_gps choosing_province choosing_interests : LockedState
  choosing_age_range showing_results discovery_navigating waiting_for_amount : LockedState
  coin_transfer_confirming choosing_package choosing_method waiting_for_receipt_photo : LockedState
  waiting_for_support_reply waiting_for_broadcast_message waiting_for_name : LockedState
  waiting_for_description waiting_for_duration waiting_for_multiplier event_confirming : LockedState
  waiting_for_filter waiting_for_message p_broadcast_confirming choosing_type : LockedState
  entering_text entering_option_a entering_option_b entering_option_c entering_option_d :
      LockedState
  entering_category question_add_confirming waiting_for_excel confirming_bulk : LockedState
  waiting_for_comment_text waiting_for_support_message : LockedState

-- The state of a user's dialogue: a locked one, or any other by its name.
pub data FsmState : Type 0 where
  locked : LockedState → FsmState
  unlocked : String → FsmState

-- REAL_MATCH_STATES, those of them that are locked.
abbrev pub is_real_match : LockedState → Bool
is_real_match anonymous_chat_active = true
is_real_match waiting_for_approval = true
is_real_match waiting_in_queue = true
is_real_match answering_questions = true
is_real_match waiting_for_partner_answer = true
is_real_match _ = false

-- REPLY_BTN_VALUES: the texts of `ReplyBtn`, each once, by the first name that has it.
pub data ReplyBtn : Type 0 where
  start_date my_profile discover my_coins vip_subscription gifts support help lootbox : ReplyBtn
  nearby referral_vip search_users my_friends blocked_users rules cancel cancel_short : ReplyBtn
  back_to_menu phase_user_profile end_date end_chat accept_terms show_rules : ReplyBtn

-- The number of a text in that list.
unfoldable pub button_no : ReplyBtn → ℕ
button_no start_date = 0
button_no my_profile = 1
button_no discover = 2
button_no my_coins = 3
button_no vip_subscription = 4
button_no gifts = 5
button_no support = 6
button_no help = 7
button_no lootbox = 8
button_no nearby = 9
button_no referral_vip = 10
button_no search_users = 11
button_no my_friends = 12
button_no blocked_users = 13
button_no rules = 14
button_no cancel = 15
button_no cancel_short = 16
button_no back_to_menu = 17
button_no phase_user_profile = 18
button_no end_date = 19
button_no end_chat = 20
button_no accept_terms = 21
button_no show_rules = 22

-- The number of a state in that set.
unfoldable pub state_no : LockedState → ℕ
state_no anonymous_chat_active = 0
state_no waiting_for_approval = 1
state_no typing_message = 2
state_no waiting_in_queue = 3
state_no answering_questions = 4
state_no waiting_for_partner_answer = 5
state_no waiting_for_report_description = 6
state_no waiting_for_evidence_before_reason = 7
state_no selecting_reason = 8
state_no waiting_for_age_filter = 9
state_no editing_bio = 10
state_no selecting_interests = 11
state_no waiting_for_photo = 12
state_no editing_name = 13
state_no updating_age = 14
state_no updating_province = 15
state_no updating_city = 16
state_no waiting_for_voice = 17
state_no waiting_for_gps = 18
state_no choosing_province = 19
state_no choosing_interests = 20
state_no choosing_age_range = 21
state_no showing_results = 22
state_no discovery_navigating = 23
state_no waiting_for_amount = 24
state_no coin_transfer_confirming = 25
state_no choosing_package = 26
state_no choosing_method = 27
state_no waiting_for_receipt_photo = 28
state_no waiting_for_support_reply = 29
state_no waiting_for_broadcast_message = 30
state_no waiting_for_name = 31
state_no waiting_for_description = 32
state_no waiting_for_duration = 33
state_no waiting_for_multiplier = 34
state_no event_confirming = 35
state_no waiting_for_filter = 36
state_no waiting_for_message = 37
state_no p_broadcast_confirming = 38
state_no choosing_type = 39
state_no entering_text = 40
state_no entering_option_a = 41
state_no entering_option_b = 42
state_no entering_option_c = 43
state_no entering_option_d = 44
state_no entering_category = 45
state_no question_add_confirming = 46
state_no waiting_for_excel = 47
state_no confirming_bulk = 48
state_no waiting_for_comment_text = 49
state_no waiting_for_support_message = 50

-- GLOBAL_ALLOWED_TEXTS
abbrev pub global_allowed_texts : List ReplyBtn
global_allowed_texts = cancel ∷ back_to_menu ∷ []

-- GLOBAL_ALLOWED_CALLBACK_PREFIXES
abbrev pub global_allowed_callback_prefixes : List String
global_allowed_callback_prefixes =
    "view_profile_" ∷ "prof_page:" ∷ "ignore" ∷ "req_direct_" ∷ "block_user_" ∷ "unblock_user_"
    ∷ "report_user_" ∷ "add_friend_" ∷ "remove_friend_" ∷ "transfer_coin_" ∷ "view_comments:" ∷ []

-- _LOCKED_STATE_TTL_SECONDS, in microseconds.
abbrev pub locked_state_ttl : ℕ
locked_state_ttl = 15 * 60 * 1000000

pub record Actions : Type 0 where
  pub allowed_texts : List ReplyBtn
  pub allowed_callback_prefixes : List String
  pub allow_other_texts : Bool
  pub allow_media : Bool

abbrev allow : (texts : List ReplyBtn) (prefixes : List String) (other_texts media : Bool) → Actions
allow texts prefixes other_texts media = record {
  allowed_texts = texts;
  allowed_callback_prefixes = prefixes;
  allow_other_texts = other_texts;
  allow_media = media;
}

-- STATE_ALLOWED_ACTIONS
unfoldable pub state_allowed_actions : LockedState → Actions
state_allowed_actions anonymous_chat_active =
    allow (phase_user_profile ∷ end_chat ∷ end_date ∷ [])
      ("end_active_chat" ∷ "confirm_end_chat" ∷ "cancel_end_chat" ∷ "confirm_end_date"
        ∷ "cancel_end_date" ∷ "trigger_report_" ∷ "safety_reason_" ∷ "report_cancel" ∷ [])
      true true
state_allowed_actions waiting_for_approval =
    allow [] ("approve_chat_yes" ∷ "approve_chat_no" ∷ []) false false
state_allowed_actions typing_message = allow [] [] true false
state_allowed_actions waiting_in_queue = allow [] [] false false
state_allowed_actions answering_questions = allow [] ("ans_" ∷ []) false false
state_allowed_actions waiting_for_partner_answer = allow [] ("ans_" ∷ []) false false
state_allowed_actions waiting_for_report_description = allow [] ("report_cancel" ∷ []) true true
state_allowed_actions waiting_for_evidence_before_reason =
    allow [] ("report_cancel" ∷ []) true false
state_allowed_actions selecting_reason =
    allow [] ("safety_reason_" ∷ "report_cancel" ∷ []) false false
state_allowed_actions waiting_for_age_filter =
    allow (back_to_menu ∷ []) ("vip_age_" ∷ []) false false
state_allowed_actions editing_bio = allow [] [] true false
state_allowed_actions selecting_interests =
    allow [] ("interest_" ∷ "save_interests" ∷ []) true false
state_allowed_actions waiting_for_photo = allow [] [] false true
state_allowed_actions editing_name = allow [] [] true false
state_allowed_actions updating_age = allow [] [] true false
state_allowed_actions updating_province = allow [] [] true false
state_allowed_actions updating_city = allow [] [] true false
state_allowed_actions waiting_for_voice = allow [] [] false true
state_allowed_actions waiting_for_gps = allow [] [] false true
state_allowed_actions choosing_province = allow [] ("disc_cancel" ∷ []) true false
state_allowed_actions choosing_interests = allow [] ("disc_cancel" ∷ "disc_int_" ∷ []) true false
state_allowed_actions choosing_age_range = allow [] ("disc_cancel" ∷ "disc_age_" ∷ []) true false
state_allowed_actions showing_results =
    allow (my_profile ∷ []) ("disc_" ∷ "view_profile_" ∷ "like_" ∷ "pass_" ∷ []) false false
state_allowed_actions discovery_navigating =
    allow (my_profile ∷ []) ("disc_" ∷ "view_profile_" ∷ "like_" ∷ "pass_" ∷ []) false false
state_allowed_actions waiting_for_amount = allow [] [] true false
state_allowed_actions coin_transfer_confirming =
    allow [] ("transfer_confirm_" ∷ "transfer_cancel" ∷ []) false false
state_allowed_actions choosing_package =
    allow [] ("buy_package_" ∷ "cancel_payment" ∷ []) false false
state_allowed_actions choosing_method = allow [] ("pay_method_" ∷ "cancel_payment" ∷ []) false false
state_allowed_actions waiting_for_receipt_photo = allow [] ("cancel_payment" ∷ []) true true
state_allowed_actions waiting_for_support_reply = allow [] ("cancel_admin_reply" ∷ []) true true
state_allowed_actions waiting_for_broadcast_message = allow [] ("cancel_broadcast" ∷ []) true true
state_allowed_actions waiting_for_name = allow [] ("cancel_event" ∷ []) true false
state_allowed_actions waiting_for_description = allow [] ("cancel_event" ∷ []) true false
state_allowed_actions waiting_for_duration = allow [] ("cancel_event" ∷ []) true false
state_allowed_actions waiting_for_multiplier = allow [] ("cancel_event" ∷ []) true false
state_allowed_actions event_confirming =
    allow [] ("event_confirm" ∷ "cancel_event" ∷ []) false false
state_allowed_actions waiting_for_filter = allow [] ("cancel_pbroadcast" ∷ []) true false
state_allowed_actions waiting_for_message = allow [] ("cancel_pbroadcast" ∷ []) true true
state_allowed_actions p_broadcast_confirming =
    allow [] ("pbroadcast_confirm" ∷ "cancel_pbroadcast" ∷ []) false false
state_allowed_actions choosing_type = allow [] ("qtype:" ∷ []) true false
state_allowed_actions entering_text = allow [] [] true false
state_allowed_actions entering_option_a = allow [] [] true false
state_allowed_actions entering_option_b = allow [] [] true false
state_allowed_actions entering_option_c = allow [] [] true false
state_allowed_actions entering_option_d = allow [] [] true false
state_allowed_actions entering_category = allow [] [] true false
state_allowed_actions question_add_confirming = allow [] ("qconfirm:" ∷ []) false false
state_allowed_actions waiting_for_excel = allow [] [] false true
state_allowed_actions confirming_bulk = allow [] ("qbulk:" ∷ []) false false
state_allowed_actions waiting_for_comment_text = allow [] [] true false
state_allowed_actions waiting_for_support_message = allow [] [] true false
