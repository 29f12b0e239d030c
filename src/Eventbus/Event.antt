-- ===== src/Eventbus/Event.antt =====
-- `BaseEvent` of eventbus/events.go. An instant is the number of nanoseconds since the zero time of
-- package time, before which no clock of a service stands.
use svckit.Base.{ℕ, ◌-◌, ◌*◌, ◌/◌, ◌==◌, [], ◌∷◌, ◌++◌, Option, none, some, if◌then◌else◌}
use svckit.Base.Int.{ℤ, sub_ℕ}
use svckit.Base.Text.{Text, text_eq, split, itoa}
use svckit.Eventbus.Json.{Json}

-- `data` is the value that `Data` is in JSON, and `none` if json.Marshal refuses it.
pub record BaseEvent : Type 0 where
  pub id : Text
  pub type : Text
  pub timestamp : ℕ
  pub source : Text
  pub user_id : Text
  pub payload : Option Json

-- The seconds from the zero time to the Unix epoch, and `Unix`.
abbrev pub epoch : ℕ
epoch = 62_135_596_800

abbrev pub unix : ℕ → ℤ
unix t = sub_ℕ (t / 1_000_000_000) epoch

abbrev pub unix_nano : ℕ → ℕ
unix_nano t = t - epoch * 1_000_000_000

-- The identifier of an event that is made at `now`, with the eight characters that are drawn.
unfoldable pub generate_event_id : ℕ → Text → Text
unfolding itoa
generate_event_id now drawn = itoa (unix_nano now) ++ (45 ∷ drawn)

unfoldable pub new_event : ℕ → Text → Text → Text → Option Json → BaseEvent
unfolding generate_event_id
new_event now drawn event_type source payload = record {
  id = generate_event_id now drawn;
  type = event_type;
  timestamp = now;
  source = source;
  user_id = [];
  payload = payload;
}

unfoldable pub set_user_id : Text → BaseEvent → BaseEvent
set_user_id user_id e = record e { user_id = user_id }

-- The field that is required and missing.
pub data EventError : Type 0 where
  id_required type_required source_required timestamp_required : EventError

unfoldable pub validate_event : BaseEvent → Option EventError
validate_event e =
    if text_eq e.id []
    then some id_required
    else if text_eq e.type []
    then some type_required
    else if text_eq e.source []
    then some source_required
    else if e.timestamp == 0
    then some timestamp_required
    else none

-- The part before the first dot of the type, and the part after it up to the next dot.
unfoldable pub get_event_domain : BaseEvent → Text
get_event_domain e = elim (split e.type (46 ∷ [])) [ [] ↦ [] | p ∷ ps ↦ p ]

unfoldable pub get_event_action : BaseEvent → Text
get_event_action e = elim (split e.type (46 ∷ [])) [
  | [] ↦ []
  | p ∷ ps ↦ elim ps [ [] ↦ [] | q ∷ qs ↦ q ]
]
