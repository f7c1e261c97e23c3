-- ===== src/Payment/Gateway.antt =====
-- services/zarinpal.py, `verify_payment`. The texts of its messages are left out.
use text.Mathlib.Text.{starts_with}
use telegram_bot_new_version.Prelude.{
  ◌==◌, if◌then◌else◌, ℕ, suc, ◌*◌, String, Bool, true, false, Option, none, some,
}

-- What the gateway's HTTP call gives: an exception, JSON that is no object, or the `code` and the
-- `ref_id` of the object's `data`.
pub data Reply : Type 0 where
  network_error not_a_dict : Reply
  answered : Option ℕ → Option String → Reply

-- success, ref_id, code
abbrev pub Verdict : Type 0
Verdict = Bool × Option String × Option ℕ

unfoldable pub text_length : String → ℕ
text_length String.[] = 0
text_length (String.◌∷◌ c s) = suc (text_length s)

unfoldable pub well_formed : String → Bool
unfolding text_length
well_formed authority = if text_length authority == 36 then starts_with authority "A" else false

unfoldable pub is_success : Option ℕ → Bool
is_success none = false
is_success (some code) = if code == 100 then true else code == 101

-- `str(ref_id)`, with the empty text for a null.
unfoldable pub ref_text : Option String → String
ref_text none = ""
ref_text (some ref_id) = ref_id

unfoldable pub read_reply : Reply → Verdict
unfolding is_success ref_text
read_reply network_error = (false, none, none)
read_reply not_a_dict = (false, none, none)
read_reply (answered code ref_id) =
    if is_success code then (true, some (ref_text ref_id), code) else (false, none, code)

-- `post` is the gateway: what it answers for an amount in rials and an authority.
unfoldable pub verify_payment : (post : ℕ → String → Reply) → ℕ → String → Verdict
unfolding read_reply well_formed
verify_payment post amount_toman authority =
    if well_formed authority
    then (if amount_toman == 0
        then (false, none, none)
        else read_reply (post (amount_toman * 10) authority))
    else (false, none, none)
