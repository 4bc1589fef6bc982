-- ===== src/Messages/Shape.antt =====
-- compactor/main.py: the two merges before a request is forwarded, `_merge_adjacent_system_messages`
-- and `_merge_consecutive_same_role`. Of a message's keys the role and the content are modelled.
pub mod Runs
pub mod Alternate
use zions_light_ai.Prelude.{
  ℕ, zero, suc, ◌+◌, Bool, true, false, not, ◌&&◌, ◌||◌, List, [], ◌∷◌, ◌++◌, map, filter, leb,
  ◌==◌, if◌then◌else◌,
}
use zions_light_ai.Prelude.Text.{Text, join, strip}
use zions_light_ai.Tail.{Role, system, user, assistant}

-- a part of a list content: a text, an image by its identity, another dict, or no dict
pub data Part : Type 0 where
  text_part : Text → Part
  image_part other_part not_dict : ℕ → Part

-- a message's content: a string, a list of parts, or none
pub data Content : Type 0 where
  string : Text → Content
  parts : List Part → Content
  missing : Content

pub record ChatMessage : Type 0 where
  pub role : Role
  pub content : Content

-- `c.get("text", "")` of the parts that are dicts
unfoldable pub part_texts : List Part → List Text
part_texts [] = []
part_texts (text_part t ∷ ps) = t ∷ part_texts ps
part_texts (image_part n ∷ ps) = [] ∷ part_texts ps
part_texts (other_part n ∷ ps) = [] ∷ part_texts ps
part_texts (not_dict n ∷ ps) = part_texts ps

unfoldable pub content_text : Content → Text
unfolding part_texts join
content_text (string t) = t
content_text (parts ps) = join (32 ∷ []) (part_texts ps)
content_text missing = []

unfoldable pub images_of : List Part → ℕ
images_of [] = 0
images_of (image_part n ∷ ps) = suc (images_of ps)
images_of (text_part t ∷ ps) = images_of ps
images_of (other_part n ∷ ps) = images_of ps
images_of (not_dict n ∷ ps) = images_of ps

unfoldable pub message_image_count : Content → ℕ
unfolding images_of
message_image_count (parts ps) = images_of ps
message_image_count _ = 0

-- The loop over the messages after the first, onto `out[-1]`.
unfoldable pub merge_onto :
    (ChatMessage → ChatMessage → Bool)
    → (ChatMessage → ChatMessage → ChatMessage)
    → ChatMessage
    → List ChatMessage
    → List ChatMessage
merge_onto merges merged last [] = last ∷ []
merge_onto merges merged last (m ∷ ms) =
    let joined = merge_onto merges merged (merged last m) ms in
    let rest = merge_onto merges merged m ms in if merges last m then joined else last ∷ rest

abbrev pub is_system_text : Role → Content → Bool
is_system_text system (string t) = true
is_system_text _ _ = false

abbrev pub is_text_system : ChatMessage → Bool
is_text_system m = is_system_text m.role m.content

-- Text-only parts of a system message become a string.
abbrev pub flat_content : Role → Content → Content
flat_content system (parts ps) =
    if message_image_count (parts ps) == 0 then string (content_text (parts ps)) else parts ps
flat_content _ c = c

unfoldable pub flatten : ChatMessage → ChatMessage
unfolding message_image_count content_text
flatten m = record m { content = flat_content m.role m.content }

abbrev pub both_system : ChatMessage → ChatMessage → Bool
both_system p m = is_text_system p && is_text_system m

unfoldable pub join_system : ChatMessage → ChatMessage → ChatMessage
unfolding content_text
join_system p m = record p {
  content = string (content_text p.content ++ (10 ∷ 10 ∷ content_text m.content));
}

unfoldable pub merge_adjacent_system_messages : List ChatMessage → List ChatMessage
unfolding merge_onto flatten join_system
merge_adjacent_system_messages [] = []
merge_adjacent_system_messages (m ∷ []) = m ∷ []
merge_adjacent_system_messages (m ∷ n ∷ ms) =
    merge_onto both_system join_system (flatten m) (map flatten (n ∷ ms))

abbrev pub is_dict : Part → Bool
is_dict (not_dict n) = false
is_dict _ = true

abbrev pub as_parts : Content → List Part
as_parts (parts ps) = filter is_dict ps
as_parts (string t) = text_part t ∷ []
as_parts missing = text_part [] ∷ []

-- one role, of those that must alternate
abbrev pub same_speaker : Role → Role → Bool
same_speaker user user = true
same_speaker assistant assistant = true
same_speaker _ _ = false

abbrev pub both_speak : ChatMessage → ChatMessage → Bool
both_speak p m = same_speaker p.role m.role

abbrev pub paragraphs : Text → Text → Text
paragraphs [] [] = []
paragraphs a b = strip (a ++ (10 ∷ 10 ∷ b))

unfoldable pub joined_content : Content → Content → Content
unfolding message_image_count content_text strip
joined_content p m =
    if leb 1 (message_image_count m) || leb 1 (message_image_count p)
    then parts (as_parts p ++ as_parts m)
    else string (paragraphs (strip (content_text p)) (strip (content_text m)))

unfoldable pub join_turns : ChatMessage → ChatMessage → ChatMessage
unfolding joined_content
join_turns p m = record p { content = joined_content p.content m.content }

unfoldable pub merge_consecutive_same_role : List ChatMessage → List ChatMessage
unfolding merge_onto join_turns
merge_consecutive_same_role [] = []
merge_consecutive_same_role (m ∷ ms) = merge_onto both_speak join_turns m ms

-- the two, as the request handler calls them
unfoldable pub shape_messages : List ChatMessage → List ChatMessage
unfolding merge_adjacent_system_messages merge_consecutive_same_role
shape_messages messages = merge_consecutive_same_role (merge_adjacent_system_messages messages)
