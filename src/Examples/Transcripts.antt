-- ===== src/Examples/Transcripts.antt =====
-- A claude transcript with a call of a tool, translated for Codex.
use vaultr.Prelude.{ℕ, some, List, [], ◌∷◌}
use vaultr.Text.{Text, chars}
use vaultr.Json.{Value, null}
use vaultr.Transcript.{Message, user, assistant, text, tool_use, tool_result}
use vaultr.Transcript.Translate.{to_codex}
use vaultr.Transcript.Translate.Answers.{InOrder, to_codex-InOrder}

abbrev listing_session : List Message
listing_session =
    record { role = user; blocks = text (chars "list the files") ∷ [] }
    ∷ record { role = assistant; blocks = tool_use (chars "Bash") null (some (chars "t1")) ∷ [] }
    ∷ record { role = user; blocks = tool_result (chars "a.txt") (some (chars "t1")) ∷ [] }
    ∷ []

abbrev printed : Value → Text
printed v = chars "null"

abbrev numbered : ℕ → Text
numbered n = n ∷ []

to_codex-InOrder_example : InOrder (to_codex printed numbered listing_session)
to_codex-InOrder_example = to_codex-InOrder printed numbered listing_session
