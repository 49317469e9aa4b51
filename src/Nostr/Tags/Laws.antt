-- ===== src/Nostr/Tags/Laws.antt =====
-- The tags that apps/web/src/nostr.ts builds, read back by the functions that it reads tags with.
use synchrono_city.Prelude.{
  ◌≡◌, refl, sym, ap, ◌∙◌, ◌++◌, true, false, Option, none, some, or_else, List, [], ◌∷◌, map,
  Bool-cases, inl, inr, ◌>>=◌,
}
use synchrono_city.Prelude.Text.{JsString, codes, ◌===◌, ===_iff, trim, truthy, dedupe, or_string}
use synchrono_city.Prelude.Runtime.{Runtime}
use synchrono_city.Social.Values.{JsValue, string}
use synchrono_city.NostrUtils.{Bech32, normalize_public_key_hex}
use synchrono_city.Nostr.Tags.{
  item, tag_text, extract_tag_value, extract_geohash_tag, extract_last_tag_value, event_tags,
  extract_event_references, or_nothing, build_reply_reference_tag, ReplyTarget, filter_map_hex,
  trimmed_or, build_geo_note_tags, build_geo_reaction_tags, tag_value_of,
}

bind_some {ℓ} : {A : Type ℓ} (o : Option A) → (o >>= λ a. some a) ≡ o
bind_some none = refl
bind_some (some a) = refl

module _ (rt : Runtime) where
  -- An ID or a geohash that neither `trim` nor `toLowerCase` changes, and that is not empty.
  abbrev pub IsId : JsString → Type 0
  IsId s = (trim s ≡ s) × (truthy s ≡ true) × (rt.to_lower_case s ≡ s)

  event_tags-other :
      (name text : JsString) (more : List JsString) (tags : List JsValue)
      → (name === codes "e") ≡ false
      → event_tags (tag_value_of (name ∷ text ∷ more) ∷ tags) ≡ event_tags tags
  unfolding event_tags tag_text item
  event_tags-other name text more tags h = rw h (bind_some (event_tags tags))

  event_tags-reference :
      (id relay_url marker : JsString) (author : Option JsString) (tags : List JsValue)
      → IsId id
      → event_tags (tag_value_of (build_reply_reference_tag id relay_url marker author) ∷ tags)
        ≡ (event_tags tags >>= λ later. some ((id, string marker) ∷ later))
  unfolding event_tags tag_text item build_reply_reference_tag ◌===◌
  event_tags-reference id relay_url marker author tags (t, s, l) = rw (t, s) refl

event_tags-keys :
    (keys : List JsString)
    → event_tags (map tag_value_of (map (λ k. codes "p" ∷ k ∷ []) keys)) ≡ some []
unfolding event_tags tag_text item ◌===◌
event_tags-keys [] = refl
event_tags-keys (k ∷ keys) = rw (event_tags-keys keys) refl

module _ (rt : Runtime) (geohash relay_url : JsString) (author : Option JsString)
    (keys : List JsString) where
  -- The tags of a reply, with the references that it makes.
  abbrev pub reply_tags : List (List JsString) → List JsValue
  reply_tags refs =
      map tag_value_of ((codes "g" ∷ geohash ∷ []) ∷ refs ++ map (λ k. codes "p" ∷ k ∷ []) keys)

  abbrev pub rooted : JsString → JsString → List (List JsString)
  rooted root reply =
      build_reply_reference_tag root relay_url (codes "root") author
      ∷ build_reply_reference_tag reply relay_url (codes "reply") author
      ∷ []

  abbrev pub direct : JsString → List (List JsString)
  direct reply = build_reply_reference_tag reply relay_url (codes "root") author ∷ []

  extract-rooted :
      (root reply : JsString)
      → IsId rt root
      → IsId rt reply
      → extract_event_references rt (reply_tags (rooted root reply))
        ≡ some (record { root_id = some root; reply_id = some reply })
  unfolding extract_event_references ◌===◌
  extract-rooted root reply h k =
      rw
        (
          event_tags-other rt (codes "g") geohash []
              (map tag_value_of (rooted root reply ++ map (λ key. codes "p" ∷ key ∷ []) keys)) refl,
          event_tags-reference rt root relay_url (codes "root") author
              (map tag_value_of (
                build_reply_reference_tag reply relay_url (codes "reply") author
                ∷ map (λ key. codes "p" ∷ key ∷ []) keys))
              h,
          event_tags-reference rt reply relay_url (codes "reply") author
              (map tag_value_of (map (λ key. codes "p" ∷ key ∷ []) keys)) k,
          event_tags-keys keys,
          h.2,
          k.2,
        )
        refl

  extract-direct :
      (reply : JsString)
      → IsId rt reply
      → extract_event_references rt (reply_tags (direct reply))
        ≡ some (record { root_id = some reply; reply_id = some reply })
  unfolding extract_event_references ◌===◌
  extract-direct reply k =
      rw
        (
          event_tags-other rt (codes "g") geohash []
              (map tag_value_of (direct reply ++ map (λ key. codes "p" ∷ key ∷ []) keys)) refl,
          event_tags-reference rt reply relay_url (codes "root") author
              (map tag_value_of (map (λ key. codes "p" ∷ key ∷ []) keys)) k,
          event_tags-keys keys,
          k.2,
        )
        refl

abbrev pub IsOptionalId : Runtime → Option JsString → Type 0
IsOptionalId rt none = Unit
IsOptionalId rt (some s) = IsId rt s

or_string_left : (s t : JsString) → truthy s ≡ true → or_string s t ≡ s
or_string_left [] t h = cc
or_string_left (c ∷ s) t h = refl

-- The root of a reply to the note: the root that the note has, and otherwise the note itself.
abbrev pub root_of : ReplyTarget → JsString
root_of target = or_else target.root_note_id target.id

root_of-IsId :
    (rt : Runtime) (target : ReplyTarget)
    → IsId rt target.id
    → IsOptionalId rt target.root_note_id
    → IsId rt (root_of target) × (trimmed_or target.root_note_id (trim target.id) ≡ root_of target)
root_of-IsId rt target h k = by_root target.root_note_id k
  where
    by_root :
        (root : Option JsString)
        → IsOptionalId rt root
        → IsId rt (or_else root target.id)
          × (trimmed_or root (trim target.id) ≡ or_else root target.id)
    by_root none k = (h, h.0)
    by_root (some r) (t, s, l) = ((t, s, l), rw t (or_string_left r (trim target.id) s))

-- A reply's tags, as `publishGeoNote` builds them, are read back as its geohash, as a reply to the
-- note, and under the note's root, or under the note itself if it has none; if the geohash and the
-- IDs are such that neither `trim` nor `toLowerCase` changes them, and not empty.
pub extract-build_geo_note_tags :
    (rt : Runtime) (bech32 : Bech32) (geohash relay_url : JsString) (target : ReplyTarget)
    → IsId rt geohash
    → IsId rt target.id
    → IsOptionalId rt target.root_note_id
    → let tags = map tag_value_of (build_geo_note_tags rt bech32 geohash relay_url (some target)) in
      (extract_geohash_tag rt tags ≡ some (some geohash))
      × (extract_event_references rt tags
          ≡ some (record { root_id = some (root_of target); reply_id = some target.id }))
unfolding build_geo_note_tags extract_geohash_tag extract_tag_value tag_text item ◌===◌
extract-build_geo_note_tags rt bech32 geohash relay_url target g h k =
    let (r, e) = root_of-IsId rt target h k in
    let hex = normalize_public_key_hex rt bech32 in
    let author = hex target.author_pubkey in
    let keys =
      filter_map_hex hex (dedupe (target.author_pubkey ∷ or_else target.tagged_pubkeys [])) in
    (
      rw (g.0, g.1, g.2) refl,
      elim (Bool-cases (root_of target === target.id)) [
        | inl same ↦
            rw (e, h.0, same, r.1)
              (extract-direct rt geohash relay_url author keys target.id h
                ∙ ap
                    (λ (root : JsString).
                      some (record { root_id = some root; reply_id = some target.id }))
                    (sym ((===_iff (root_of target) target.id).0 same)))
        | inr other ↦
            rw (e, h.0, other, r.1)
              (extract-rooted rt geohash relay_url author keys (root_of target) target.id r h)
      ],
    )

no_reference_later :
    (rt : Runtime) (author : List JsString)
    → extract_last_tag_value rt
        (map tag_value_of
          (map (λ k. codes "p" ∷ k ∷ []) author ++ (codes "k" ∷ codes "1" ∷ []) ∷ []))
        (codes "e")
      ≡ some none
unfolding extract_last_tag_value tag_text item ◌===◌
no_reference_later rt [] = refl
no_reference_later rt (k ∷ author) = rw (no_reference_later rt author) refl

-- A reaction's tags, as `publishGeoReaction` builds them, are read back as its geohash and the note
-- that it is to, under the same conditions.
pub extract-build_geo_reaction_tags :
    (rt : Runtime) (bech32 : Bech32) (geohash relay_url id author_pubkey : JsString)
    → IsId rt geohash
    → IsId rt id
    → let tags =
        map tag_value_of (build_geo_reaction_tags rt bech32 geohash relay_url id author_pubkey) in
      (extract_geohash_tag rt tags ≡ some (some geohash))
      × (extract_last_tag_value rt tags (codes "e") ≡ some (some id))
unfolding build_geo_reaction_tags extract_geohash_tag extract_tag_value extract_last_tag_value
    tag_text item ◌===◌
extract-build_geo_reaction_tags rt bech32 geohash relay_url id author_pubkey g h =
    let author = or_nothing (normalize_public_key_hex rt bech32 author_pubkey) in
    let later = no_reference_later rt author in
    (rw (g.0, g.1, g.2) refl, rw (later, h.0, h.0, h.1, h.2) refl)
