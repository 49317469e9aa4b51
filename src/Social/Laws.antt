-- ===== src/Social/Laws.antt =====
-- The normalization of apps/web/src/social-payload.ts, against objects in both spellings.
use Prim.Native.String.{String}
use synchrono_city.Prelude.{◌≡◌, refl, ap, Bool, true, false, Option, none, some, List, [], ◌∷◌}
use synchrono_city.Prelude.Text.{JsString, codes, ◌===◌, truthy}
use synchrono_city.Data.Types.{Place}
use synchrono_city.Social.Values.{
  JsValue, undefined, boolean, number, string, array, object, Elements, end, element, bare,
  property, property_of, pick_from, pick_value, as_string, as_number, as_boolean, as_string_array,
  strings_of, optional_string, or_undefined, nonempty_or_undefined,
}
use synchrono_city.Social.{normalize_place_payload}

-- The two spellings of a key.
pub data Spelling : Type 0 where
  camel snake : Spelling

abbrev pub spell : Spelling → String → String → JsString
spell camel a b = codes a
spell snake a b = codes b

abbrev pub optional : Option JsString → JsValue
optional none = undefined
optional (some s) = string s

abbrev pub elements : List JsString → Elements
elements [] = end
elements (x ∷ xs) = element (string x) (elements xs)

abbrev pub optional_array : Option (List JsString) → JsValue
optional_array none = undefined
optional_array (some xs) = array (elements xs)

-- A place as an object, with all its properties.
abbrev pub place_object : Spelling → Place → JsValue
place_object sp p = object (
    property (codes "geohash") (string p.geohash) (
      property (codes "title") (string p.title) (
        property (codes "neighborhood") (string p.neighborhood) (
          property (codes "description") (string p.description) (
            property (spell sp "activitySummary" "activity_summary") (string p.activity_summary) (
              property (spell sp "createdAt" "created_at") (optional p.created_at) (
                property (spell sp "picture" "pic") (optional p.picture) (
                  property (spell sp "ownerPubkey" "owner_pubkey") (optional p.owner_pubkey) (
                    property (spell sp "memberPubkeys" "member_pubkeys")
                      (optional_array p.member_pubkeys)
                      (property (codes "tags") (array (elements p.tags)) (
                        property (codes "capacity") (number p.capacity) (
                          property (spell sp "occupantPubkeys" "occupant_pubkeys")
                            (array (elements p.occupant_pubkeys))
                            (property (codes "unread") (boolean p.unread) (
                              property (spell sp "pinnedNoteId" "pinned_note_id")
                                (optional p.pinned_note_id) bare))))))))))))))

-- An optional string that is there is not empty, and so is an optional list.
abbrev pub IsFull : Option JsString → Type 0
IsFull none = Unit
IsFull (some s) = truthy s ≡ true

abbrev is_nonempty : List JsString → Bool
is_nonempty [] = false
is_nonempty (x ∷ xs) = true

abbrev pub IsFullList : Option (List JsString) → Type 0
IsFullList none = Unit
IsFullList (some xs) = is_nonempty xs ≡ true

pub optional_string-optional : (o : Option JsString) → IsFull o → optional_string (optional o) ≡ o
unfolding optional_string as_string
optional_string-optional none h = refl
optional_string-optional (some s) h = rw h refl

pub or_undefined-optional :
    (o : Option JsString) → IsFull o → or_undefined (as_string (optional o)) ≡ o
unfolding as_string
or_undefined-optional none h = refl
or_undefined-optional (some []) h = cc
or_undefined-optional (some (c ∷ s)) h = refl

strings_of-elements : (xs : List JsString) → strings_of (elements xs) ≡ xs
unfolding strings_of
strings_of-elements [] = refl
strings_of-elements (x ∷ xs) = ap (◌∷◌ x) (strings_of-elements xs)

pub full_list :
    (o : Option (List JsString))
    → IsFullList o
    → nonempty_or_undefined (as_string_array (optional_array o)) ≡ o
unfolding as_string_array
full_list none h = refl
full_list (some []) h = cc
full_list (some (x ∷ xs)) h = rw (strings_of-elements (x ∷ xs)) refl

pub record IsFullPlace (p : Place) : Type 0 where
  pub created_at : IsFull p.created_at
  pub picture : IsFull p.picture
  pub owner_pubkey : IsFull p.owner_pubkey
  pub member_pubkeys : IsFullList p.member_pubkeys
  pub pinned_note_id : IsFull p.pinned_note_id

-- A place whose optional strings and lists are not empty, sent with its keys in either spelling, is
-- normalized to itself.
pub normalize_place_payload_lem :
    (sp : Spelling) (p : Place) → IsFullPlace p → normalize_place_payload (place_object sp p) ≡ p
unfolding normalize_place_payload pick_value pick_from property_of ◌===◌ as_string as_number
    as_boolean as_string_array
normalize_place_payload_lem camel p h =
    rw
      (
        optional_string-optional p.created_at h.created_at,
        optional_string-optional p.picture h.picture,
        or_undefined-optional p.owner_pubkey h.owner_pubkey,
        full_list p.member_pubkeys h.member_pubkeys,
        strings_of-elements p.tags,
        strings_of-elements p.occupant_pubkeys,
        optional_string-optional p.pinned_note_id h.pinned_note_id,
      )
      refl
normalize_place_payload_lem snake p h =
    rw
      (
        optional_string-optional p.created_at h.created_at,
        optional_string-optional p.picture h.picture,
        or_undefined-optional p.owner_pubkey h.owner_pubkey,
        full_list p.member_pubkeys h.member_pubkeys,
        strings_of-elements p.tags,
        strings_of-elements p.occupant_pubkeys,
        optional_string-optional p.pinned_note_id h.pinned_note_id,
      )
      refl
