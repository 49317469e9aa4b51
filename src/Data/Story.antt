-- ===== src/Data/Story.antt =====
-- apps/web/src/data.ts: the export of the scene as text, and the chat threads.
use synchrono_city.Prelude.{
  ℕ, zero, suc, ◌+◌, ◌/◌, ◌%◌, Bool, Option, List, [], ◌∷◌, ◌++◌, map, leb, if◌then◌else◌,
}
use synchrono_city.Prelude.Text.{JsString, codes, join}
use synchrono_city.Prelude.Maps.{JsMap, map_get}
use synchrono_city.Prelude.Runtime.{Runtime}
use synchrono_city.Data.Types.{ParticipantProfile, Place, GeoNote, PlaceTile, CallSession}
use synchrono_city.Data.Threads.{build_participant_map, build_place_tiles}
use synchrono_city.Data.Merge.{name_or}

pub data ChatKind : Type 0 where
  dm group_dm : ChatKind

pub record ChatThread : Type 0 where
  pub id : JsString
  pub kind : ChatKind
  pub title : JsString
  pub summary : JsString
  pub participants : List JsString
  pub unread : Bool
  pub active_call : Bool

unfoldable pub build_chat_threads : List ChatThread
build_chat_threads = []

-- `${n}` of a natural number. The fuel is the number itself, which has no more digits.
abbrev pub digits : ℕ → ℕ → JsString
digits zero n = (48 + n) ∷ []
digits (suc fuel) n =
    let front = digits fuel (n / 10) in
    if leb n 9 then (48 + n) ∷ [] else front ++ (48 + n % 10) ∷ []

-- `\n`
abbrev newline : JsString
newline = 10 ∷ []

abbrev pub story_of : JsMap ParticipantProfile → PlaceTile → JsString
story_of profiles tile =
    codes "# "
    ++ tile.geohash
    ++ codes " · "
    ++ tile.title
    ++ newline
    ++ codes "Room: "
    ++ tile.room_id
    ++ newline
    ++ codes "Latest note: "
    ++ tile.latest_note
    ++ newline
    ++ codes "Notes: "
    ++ digits tile.note_count tile.note_count
    ++ newline
    ++ codes "Participants: "
    ++ join (codes ", ") (map (λ k. name_or (map_get k profiles) k) tile.participants)

unfoldable pub build_story_export :
    Runtime
    → List Place
    → List GeoNote
    → List ParticipantProfile
    → Option CallSession
    → JsString
    → JsString
build_story_export rt places notes profiles active_call current_pubkey = join (newline ++ newline) (
    map (story_of (build_participant_map profiles))
      (build_place_tiles rt places notes active_call current_pubkey))
