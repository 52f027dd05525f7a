-- ===== src/Conversation.antt =====
-- A conversation with the conductor
-- (api/src/application/use-cases/ProcessConversationTurnUseCase.ts), on the volatile memory of the
-- agent. The metadata of what is stored are the trace and the role, and no session.
pub mod Forgotten
use dreamweaver.Prelude.{ℕ, String, Option, none, some, Bool, true, List, [], ◌∷◌, ◌++◌, Dict}
use dreamweaver.AgentMemory.{MemoryRecord, AgentContext, episodic, store, track_outcome}
use dreamweaver.Conductor.{SessionPort}
use dreamweaver.Conductor.Attempts.{Reply}
use dreamweaver.Conductor.Cues.{Outcome}
use dreamweaver.Conductor.Turns.{TurnEnding, replied, emergency, Turn, process_turn}

-- `ProcessTurnRequest`, with what a call meets: its time, the identifiers of the two memories, the
-- answer of the model and how long it takes.
pub record Talk : Type 0 where
  pub user_id : String
  pub session_id : String
  pub message : String
  pub now : ℕ
  pub said_id : String
  pub replied_id : String
  pub reply : Reply
  pub ms : ℕ

-- The sessions, the memories and the scores of the themes.
pub record Mind (S : Type 0) : Type 0 where
  pub sessions : S
  pub memories : List MemoryRecord
  pub scores : Dict ℕ

abbrev pub reply_text : TurnEnding → String
reply_text (replied reply t) = reply
reply_text emergency = "I'm having trouble thinking right now, but I'm here. Let's just relax."

-- What `processTurn` tells the memory of the themes.
unfoldable pub track_all : List Outcome → Dict ℕ → Dict ℕ
track_all [] scores = scores
track_all (o ∷ os) scores = track_all os (track_outcome o.theme o.sentiment scores)

-- The context of what is stored.
abbrev pub memory_context : Talk → AgentContext
memory_context t = record { user_id = some t.user_id; session_id = some t.session_id }

module _ (port : SessionPort) where
  -- What follows the turn; `none` is an exception of the turn.
  abbrev pub remember_reply :
      Talk → Mind port.Store → Option (Turn port.Store) → Mind port.Store × Option String
  remember_reply t m none = (m, none)
  remember_reply t m (some turn) =
      let text = reply_text turn.ending in
      (
        record {
          sessions = turn.store;
          memories = store t.replied_id t.now text episodic (memory_context t) none m.memories;
          scores = track_all turn.outcomes m.scores;
        },
        some text,
      )

module _ (port : SessionPort) (is_uuid : String → Bool) (gate : Bool) where
  abbrev pub turn_of : Talk → Mind port.Store → Option (Turn port.Store)
  turn_of t m =
      process_turn port is_uuid t.now t.session_id t.user_id true gate t.message t.ms t.reply
        m.sessions

  -- `execute`: what it leaves, and the reply; `none` is an exception, after the message was stored.
  unfoldable pub process_conversation_turn :
      Talk → Mind port.Store → Mind port.Store × Option String
  unfolding track_all
  process_conversation_turn t m =
      let told = store t.said_id t.now t.message episodic (memory_context t) none m.memories in
      remember_reply port t (record m { memories = told }) (turn_of t m)

  unfoldable pub converse : List Talk → Mind port.Store → Mind port.Store
  converse [] m = m
  converse (t ∷ ts) m = converse ts (process_conversation_turn t m).0
