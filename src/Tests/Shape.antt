-- ===== src/Tests/Shape.antt =====
-- A request with two system messages, an image among the user's turns, and two replies in a row.
use zions_light_ai.Prelude.{◌≡◌, refl, List, [], ◌∷◌}
use zions_light_ai.Prelude.Text.{codes, is_space}
use zions_light_ai.Tail.{system, user, assistant}
use zions_light_ai.Messages.Shape.{
  text_part, image_part, string, parts, ChatMessage, shape_messages,
}

abbrev request : List ChatMessage
request =
    record { role = system; content = string (codes "memory") }
    ∷ record { role = system; content = parts (text_part (codes "rules") ∷ []) }
    ∷ record { role = user; content = parts (image_part 1 ∷ []) }
    ∷ record { role = user; content = string (codes "what is it") }
    ∷ record { role = assistant; content = string (codes "a cat") }
    ∷ record { role = assistant; content = string (codes "asleep") }
    ∷ []

shape_messages_run :
    shape_messages request
    ≡ record { role = system; content = string (codes "memory\n\nrules") }
      ∷ record { role = user; content = parts (image_part 1 ∷ text_part (codes "what is it") ∷ []) }
      ∷ record { role = assistant; content = string (codes "a cat\n\nasleep") }
      ∷ []
unfolding shape_messages codes is_space
shape_messages_run = refl
