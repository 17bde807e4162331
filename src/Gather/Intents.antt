-- ===== src/Gather/Intents.antt =====
-- What a social search asks for: SearchIntent of syncinerary/tools/fetch/social.py, and the platforms
-- of syncinerary/domain/models.py.
use syncinerary.Prelude.{List, [], ◌∷◌, Option, none, some, Bool, true, false, ◌&&◌}

pub data SocialPlatform : Type 0 where
  instagram tiktok rednote : SocialPlatform

pub data SearchIntentType : Type 0 where
  places food hidden_gems : SearchIntentType

pub data QuerySpecificity : Type 0 where
  specific normal broad : QuerySpecificity

abbrev pub same_platform : SocialPlatform → SocialPlatform → Bool
same_platform instagram instagram = true
same_platform tiktok tiktok = true
same_platform rednote rednote = true
same_platform _ _ = false

abbrev pub same_type : SearchIntentType → SearchIntentType → Bool
same_type places places = true
same_type food food = true
same_type hidden_gems hidden_gems = true
same_type _ _ = false

abbrev pub same_specificity : QuerySpecificity → QuerySpecificity → Bool
same_specificity specific specific = true
same_specificity normal normal = true
same_specificity broad broad = true
same_specificity _ _ = false

abbrev pub opening_sequence : List SearchIntentType
opening_sequence = places ∷ food ∷ hidden_gems ∷ []

abbrev pub trending_intents : List SearchIntentType
trending_intents = places ∷ food ∷ []

abbrev pub for_you_intents : List SearchIntentType
for_you_intents = hidden_gems ∷ []

-- `SOCIAL_PLATFORM_PRIORITY`
abbrev pub discovery_platforms : List SocialPlatform
discovery_platforms = instagram ∷ rednote ∷ tiktok ∷ []

pub record SearchIntent : Type 0 where
  pub platform : SocialPlatform
  pub intent_type : SearchIntentType
  pub specificity : QuerySpecificity

-- The two intents have one `key`: the wording is not part of it.
abbrev pub same_question : SearchIntent → SearchIntent → Bool
same_question i j = same_platform i.platform j.platform && same_type i.intent_type j.intent_type

abbrev broader_than : QuerySpecificity → Option QuerySpecificity
broader_than specific = some normal
broader_than normal = some broad
broader_than broad = none

abbrev with_wording : SearchIntent → Option QuerySpecificity → Option SearchIntent
with_wording i none = none
with_wording i (some wider) = some (record i { specificity = wider })

-- `SearchIntent.broadened`
unfoldable pub broadened : SearchIntent → Option SearchIntent
broadened i = with_wording i (broader_than i.specificity)
