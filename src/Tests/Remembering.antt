-- ===== src/Tests/Remembering.antt =====
-- The memory of the agent in a file (api/src/infrastructure/memory/PersistedAgentMemory.ts) at
-- concrete calls.
use dreamweaver.Prelude.{suc, none, some, true, List, [], ◌∷◌, ◌≡◌, refl, arith}
use dreamweaver.AgentMemory.{AgentContext, semantic, matches}
use dreamweaver.Conductor.Cues.{positive}
use dreamweaver.PersistedMemory.{
  Database, Memory, done, write_failed, ends_in_write, store_call, outcome_call, changed, init,
  restart, retrieve,
}
use dreamweaver.PersistedMemory.Durable.{Step, run, replay, up_to_last_written, file_survives}
use dreamweaver.PersistedMemory.Newest.{stored_found_first}

abbrev blank : Database
blank = record { memories = []; theme_scores = []; preference_pairs = [] }

abbrev owls : Step
owls = record {
  now = 5;
  writing = write_failed;
  change = store_call "mem_1" "likes owls" semantic none;
}

abbrev evening : List Step
evening =
    owls
    ∷ record { now = 6; writing = done; change = outcome_call "moon" positive }
    ∷ record {
      now = 7;
      writing = ends_in_write;
      change = store_call "mem_2" "hates spiders" semantic none;
    }
    ∷ []

file_survives_example :
    let m : Memory = record {
      content = some blank;
      disk = record { db = some blank; temp = none };
    } in
    (init 9 true done (restart (run evening m))).0.content
    ≡ some (replay (up_to_last_written evening) blank)
file_survives_example = file_survives evening 9 done blank

abbrev reader : AgentContext
reader = record { user_id = some "u"; session_id = none }

abbrev knowing : Database
knowing = changed 5 (store_call "mem_1" "likes owls" semantic none) blank

stored_found_first_example :
    retrieve "*" reader
      (some semantic)
      (suc 4)
      (changed 8 (store_call "mem_2" "hates spiders" semantic none) knowing)
    ≡ record {
      id = "mem_2";
      type = semantic;
      content = "hates spiders";
      confidence = 100;
      timestamp = 8;
      session = none;
    }
      ∷ retrieve "*" reader (some semantic) 4 knowing
unfolding changed matches
stored_found_first_example =
    stored_found_first 8 "mem_2" "hates spiders" "*" semantic none reader (some semantic) 4 knowing
      (omega arith, tt) refl
