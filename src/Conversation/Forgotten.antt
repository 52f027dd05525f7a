-- ===== src/Conversation/Forgotten.antt =====
-- What a conversation leaves in the memory.
use dreamweaver.Prelude.{ℕ, ◌+◌, String, none, Bool, if◌then◌else◌, List, [], ◌∷◌, ◌≡◌}
use dreamweaver.AgentMemory.{MemoryRecord}
use dreamweaver.Conversation.{Talk}

abbrev pub IsLoose : MemoryRecord → Type 0
IsLoose m = m.session ≡ none

-- How many memories the turns of a conversation leave.
abbrev pub stored : (String → Bool) → List Talk → ℕ
stored is_uuid [] = 0
stored is_uuid (t ∷ ts) = (if is_uuid t.user_id then 2 else 1) + stored is_uuid ts
