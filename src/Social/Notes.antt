-- ===== src/Social/Notes.antt =====
-- Notes in apps/web/src/social-payload.ts.
use synchrono_city.Prelude.{◌≡◌, refl, true, false, Option, none, some, List, [], ◌∷◌, All}
use synchrono_city.Prelude.Int.{is_positive}
use synchrono_city.Prelude.Text.{codes, ◌===◌, trim, truthy}
use synchrono_city.Data.Types.{GeoNote, GeoNoteReaction}
use synchrono_city.Social.Values.{
  JsValue, undefined, number, string, array, object, Elements, end, element, bare, property,
  property_of, pick_from, pick_value, as_string, as_number, as_reaction, reactions_of,
  as_reaction_array,
}
use synchrono_city.Social.{normalize_geo_note_payload}
use synchrono_city.Social.Laws.{
  Spelling, camel, snake, spell, optional, optional_array, IsFull, IsFullList,
  optional_string-optional, full_list,
}

abbrev pub reaction_object : GeoNoteReaction → JsValue
reaction_object r =
    object
      (property (codes "emoji") (string r.emoji) (property (codes "count") (number r.count) bare))

abbrev pub reaction_elements : List GeoNoteReaction → Elements
reaction_elements [] = end
reaction_elements (r ∷ rs) = element (reaction_object r) (reaction_elements rs)

abbrev pub optional_reactions : Option (List GeoNoteReaction) → JsValue
optional_reactions none = undefined
optional_reactions (some rs) = array (reaction_elements rs)

-- A reaction with a trimmed emoji that was counted.
abbrev pub IsCounted : GeoNoteReaction → Type 0
IsCounted r = (trim r.emoji ≡ r.emoji) × (truthy r.emoji ≡ true) × (is_positive r.count ≡ true)

abbrev pub IsFullReactions : Option (List GeoNoteReaction) → Type 0
IsFullReactions none = Unit
IsFullReactions (some []) = true ≡ false
IsFullReactions (some (r ∷ rs)) = All IsCounted (r ∷ rs)

reactions_of-reaction_elements :
    (rs : List GeoNoteReaction) → All IsCounted rs → reactions_of (reaction_elements rs) ≡ rs
unfolding reactions_of as_reaction pick_value pick_from property_of ◌===◌ as_string as_number
reactions_of-reaction_elements [] h = refl
reactions_of-reaction_elements (r ∷ rs) ((t, e, c), h) =
    rw (t, e, c, reactions_of-reaction_elements rs h) refl

full_reactions :
    (o : Option (List GeoNoteReaction))
    → IsFullReactions o
    → as_reaction_array (optional_reactions o) ≡ o
unfolding as_reaction_array
full_reactions none h = refl
full_reactions (some []) h = cc
full_reactions (some (r ∷ rs)) h = rw (reactions_of-reaction_elements (r ∷ rs) h) refl

-- A note as an object, with all its properties.
abbrev pub note_object : Spelling → GeoNote → JsValue
note_object sp n = object (
    property (codes "id") (string n.id) (
      property (codes "geohash") (string n.geohash) (
        property (spell sp "authorPubkey" "author_pubkey") (string n.author_pubkey) (
          property (codes "content") (string n.content) (
            property (spell sp "createdAt" "created_at") (string n.created_at) (
              property (codes "replies") (number n.replies) (
                property (spell sp "replyTargetId" "reply_target_id") (optional n.reply_target_id) (
                  property (spell sp "rootNoteId" "root_note_id") (optional n.root_note_id) (
                    property (spell sp "taggedPubkeys" "tagged_pubkeys")
                      (optional_array n.tagged_pubkeys)
                      (property (codes "reactions") (optional_reactions n.reactions) bare))))))))))

pub record IsFullNote (n : GeoNote) : Type 0 where
  pub reply_target_id : IsFull n.reply_target_id
  pub root_note_id : IsFull n.root_note_id
  pub tagged_pubkeys : IsFullList n.tagged_pubkeys
  pub reactions : IsFullReactions n.reactions

-- A note whose optional strings and lists are not empty, and whose reactions have trimmed emojis and
-- positive counts, sent with its keys in either spelling, is normalized to itself.
pub normalize_geo_note_payload_lem :
    (sp : Spelling) (n : GeoNote) → IsFullNote n → normalize_geo_note_payload (note_object sp n) ≡ n
unfolding normalize_geo_note_payload pick_value pick_from property_of ◌===◌ as_string as_number
normalize_geo_note_payload_lem camel n h =
    rw
      (
        optional_string-optional n.reply_target_id h.reply_target_id,
        optional_string-optional n.root_note_id h.root_note_id,
        full_list n.tagged_pubkeys h.tagged_pubkeys,
        full_reactions n.reactions h.reactions,
      )
      refl
normalize_geo_note_payload_lem snake n h =
    rw
      (
        optional_string-optional n.reply_target_id h.reply_target_id,
        optional_string-optional n.root_note_id h.root_note_id,
        full_list n.tagged_pubkeys h.tagged_pubkeys,
        full_reactions n.reactions h.reactions,
      )
      refl
