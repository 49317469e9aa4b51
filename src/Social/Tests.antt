-- ===== src/Social/Tests.antt =====
-- The theorems on apps/web/src/social-payload.ts at concrete inputs.
use synchrono_city.Prelude.{◌≡◌, refl, true, false, none, some, [], ◌∷◌}
use synchrono_city.Prelude.Int.{pos}
use synchrono_city.Prelude.Text.{codes, trim, trim_start, trim_end, is_space}
use synchrono_city.Data.Types.{Place, GeoNote}
use synchrono_city.Social.Values.{undefined, null}
use synchrono_city.Social.{normalize_geo_note_payload, normalize_bootstrap_payload}
use synchrono_city.Social.Laws.{snake, camel, IsFullPlace}
use synchrono_city.Social.Notes.{note_object, IsFullNote, normalize_geo_note_payload_lem}
use synchrono_city.Social.Payload.{
  IsNamed, Content, payload_of, IsComplete, state_of, normalize_bootstrap_payload_lem,
}

abbrev place : Place
place = record {
  geohash = codes "gbsu";
  title = codes "Square";
  neighborhood = [];
  description = [];
  activity_summary = codes "quiet";
  created_at = some (codes "2024");
  picture = none;
  owner_pubkey = some (codes "npub1scout");
  member_pubkeys = some (codes "npub1scout" ∷ []);
  tags = codes "a" ∷ codes "b" ∷ [];
  capacity = pos 8;
  occupant_pubkeys = [];
  unread = true;
  pinned_note_id = none;
}

abbrev note : GeoNote
note = record {
  id = codes "n";
  geohash = codes "gbsu";
  author_pubkey = codes "npub1scout";
  content = codes "hello";
  created_at = codes "2024";
  replies = pos 1;
  reply_target_id = some (codes "m");
  root_note_id = none;
  tagged_pubkeys = none;
  reactions = some (record { emoji = codes "+"; count = pos 2 } ∷ []);
}

abbrev content : Content
content = record {
  relay_name = undefined;
  relay_operator_pubkey = undefined;
  current_user_pubkey = codes "npub1scout";
  relay_url = null;
  relay_list =
      some (record { url = codes "wss://a"; name = codes "a"; inbox = true; outbox = false })
      ∷ none
      ∷ [];
  cross_relay_items = none ∷ [];
  places = none ∷ some place ∷ [];
  profiles = [];
  notes = some note ∷ none ∷ some note ∷ [];
}

full_note : IsFullNote note
unfolding trim trim_start trim_end is_space
full_note = record {
  reply_target_id = refl;
  root_note_id = tt;
  tagged_pubkeys = tt;
  reactions = ((refl, refl, refl), tt);
}

normalize_geo_note_payload_example : normalize_geo_note_payload (note_object camel note) ≡ note
normalize_geo_note_payload_example = normalize_geo_note_payload_lem camel note full_note

named_note : IsNamed note
named_note = record { id = refl; geohash = refl; author_pubkey = refl }

full_place : IsFullPlace place
full_place = record {
  created_at = refl;
  picture = tt;
  owner_pubkey = refl;
  member_pubkeys = refl;
  pinned_note_id = tt;
}

content-IsComplete : IsComplete content
content-IsComplete = record {
  relay_list = (refl, tt);
  cross_relay_items = tt;
  places = ((full_place, refl), tt);
  profiles = tt;
  notes = ((full_note, named_note), ((full_note, named_note), tt));
}

normalize_bootstrap_payload_example :
    normalize_bootstrap_payload (payload_of snake content) ≡ state_of content
normalize_bootstrap_payload_example =
    normalize_bootstrap_payload_lem snake content content-IsComplete
