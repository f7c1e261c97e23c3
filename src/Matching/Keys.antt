-- ===== src/Matching/Keys.antt =====
-- The queue keys of services/matching_engine.py: `_get_queue_key` and `_get_target_queue_keys`.
use text.Mathlib.Text.{◌==◌ as str_eq}
use telegram_bot_new_version.Prelude.{
  if◌then◌else◌, Bool-cases, String, ◌≡◌, ◌⊎◌, inl, inr, true, Option, none, some, List, [], ◌∷◌,
  ◌++◌, arith, refl,
}

-- `match:queue:<province>:<gender>:wants_<target>`
pub record QueueKey : Type 0 where
  pub province : String
  pub gender : String
  pub wants : String

-- `f(text) if text else default`
abbrev pub or_default : (String → String) → Option String → String → String
or_default norm none other = other
or_default norm (some text) other = if str_eq text "" then other else norm text

-- `norm` is `.strip().lower()`, `norm_place` replaces spaces as well.
module _ (norm norm_place : String → String) (gender target province : Option String) where
  unfoldable pub get_queue_key : QueueKey
  get_queue_key = record {
    province = or_default norm_place province "global";
    gender = or_default norm gender "unknown";
    wants = or_default norm target "any";
  }

abbrev pub target_genders : String → List String
target_genders target = if str_eq target "any" then "male" ∷ "female" ∷ [] else target ∷ []

abbrev pub provinces_to_search : String → List String
provinces_to_search province =
    if str_eq province "global" then province ∷ [] else province ∷ "global" ∷ []

-- The two inner loops, for one province, and the outer one.
unfoldable pub keys_of_genders : (province own : String) → List String → List QueueKey
keys_of_genders province own [] = []
keys_of_genders province own (g ∷ gs) =
    record { province = province; gender = g; wants = own }
    ∷ record { province = province; gender = g; wants = "any" }
    ∷ keys_of_genders province own gs

unfoldable pub keys_of_provinces : (own : String) → List String → List String → List QueueKey
unfolding keys_of_genders
keys_of_provinces own genders [] = []
keys_of_provinces own genders (p ∷ ps) =
    keys_of_genders p own genders ++ keys_of_provinces own genders ps

-- The arguments are the three parts of the caller's own key.
unfoldable pub get_target_queue_keys : QueueKey → List QueueKey
unfolding keys_of_provinces
get_target_queue_keys own =
    keys_of_provinces own.gender (target_genders own.wants) (provinces_to_search own.province)

-- What a key that the caller searches says of who waits there.
abbrev pub Fits : QueueKey → QueueKey → Type 0
Fits own key =
    ((key.wants ≡ own.gender) ⊎ (key.wants ≡ "any"))
    × ((key.gender ≡ own.wants) ⊎ (str_eq own.wants "any" ≡ true))
    × ((key.province ≡ own.province) ⊎ (key.province ≡ "global"))

abbrev pub All : (QueueKey → Type 0) → List QueueKey → Type 0
All P [] = Unit
All P (k ∷ ks) = P k × All P ks

All-append :
    (P : QueueKey → Type 0) (xs ys : List QueueKey) → All P xs → All P ys → All P (xs ++ ys)
All-append P [] ys a b = b
All-append P (x ∷ xs) ys (p, a) b = (p, All-append P xs ys a b)

genders-fit :
    (own : QueueKey) (p : String)
    → ((p ≡ own.province) ⊎ (p ≡ "global"))
    → All (Fits own) (keys_of_genders p own.gender (target_genders own.wants))
unfolding keys_of_genders
genders-fit own p place = elim (Bool-cases (str_eq own.wants "any")) [
  | inl any ↦ ground (arith, any, place)
  | inr one ↦ ground (arith, one, place)
]

abbrev AllPlaces : QueueKey → List String → Type 0
AllPlaces own [] = Unit
AllPlaces own (p ∷ ps) = ((p ≡ own.province) ⊎ (p ≡ "global")) × AllPlaces own ps

places-fit :
    (own : QueueKey) (ps : List String)
    → AllPlaces own ps
    → All (Fits own) (keys_of_provinces own.gender (target_genders own.wants) ps)
unfolding keys_of_provinces
places-fit own [] a = tt
places-fit own (p ∷ ps) (place, a) =
    All-append (Fits own) (keys_of_genders p own.gender (target_genders own.wants))
      (keys_of_provinces own.gender (target_genders own.wants) ps) (genders-fit own p place)
      (places-fit own ps a)

places : (own : QueueKey) → AllPlaces own (provinces_to_search own.province)
places own = elim (Bool-cases (str_eq own.province "global")) [
  | inl same ↦ rw same (inl refl, tt)
  | inr other ↦ rw other (inl refl, (inr refl, tt))
]

-- Every queue that is searched holds people who want the caller's gender or any, have the gender that
-- the caller wants where one is named, and wait in the caller's province or everywhere.
pub target_keys-Fits : (own : QueueKey) → All (Fits own) (get_target_queue_keys own)
unfolding get_target_queue_keys keys_of_provinces
target_keys-Fits own = places-fit own (provinces_to_search own.province) (places own)
