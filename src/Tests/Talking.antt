-- ===== src/Tests/Talking.antt =====
-- A conversation (api/src/application/use-cases/ProcessConversationTurnUseCase.ts) of three turns.
use dreamweaver.Prelude.{ℕ, utf16_length, ◌==◌, String, Option, some, Bool, List, [], ◌∷◌}
use dreamweaver.AgentMemory.{initial}
use dreamweaver.Conductor.Attempts.{failed}
use dreamweaver.Conductor.Stores.{in_memory}
use dreamweaver.Consolidation.{SemanticFact}
use dreamweaver.Conversation.{Talk, Mind}

abbrev hello : Talk
hello = record {
  user_id = "0e37df36-f698-4f21-b8a1-6f1a4c2c1a11";
  session_id = "s";
  message = "Tell me of owls";
  now = 5;
  said_id = "mem_1";
  replied_id = "mem_2";
  reply = failed (record { name = "Error"; message = "401" });
  ms = 10;
}

abbrev again : Talk
again = record hello { message = "No, of bears"; now = 9; said_id = "mem_3"; replied_id = "mem_4" }

-- A turn that throws.
abbrev nameless : Talk
nameless = record hello { user_id = "guest"; now = 12; said_id = "mem_5"; replied_id = "mem_6" }

abbrev talks : List Talk
talks = hello ∷ nameless ∷ again ∷ []

abbrev is_uuid : String → Bool
is_uuid id = utf16_length id == 36

abbrev waking : Mind in_memory.Store
waking = record { sessions = []; memories = initial 1; scores = [] }

abbrev eager : String → Option (List SemanticFact)
eager transcript = some (record { fact = "likes owls"; confidence = 90; line_reference = 0 } ∷ [])

abbrev fact_id : ℕ → String
fact_id n = "fact"
