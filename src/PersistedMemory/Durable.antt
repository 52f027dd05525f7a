-- ===== src/PersistedMemory/Durable.antt =====
-- What a process finds in the file that another one left.
use dreamweaver.Prelude.{
  ℕ, none, some, Bool, true, false, List, [], ◌∷◌, ◌≡◌, refl, ◌∙◌, ap, if◌then◌else◌,
}
use dreamweaver.PersistedMemory.{
  Database, Writing, done, write_failed, rename_failed, ends_in_write, ends_before_rename, Memory,
  init, Change, change, changed, restart, persist,
}

-- A call with its time, and how far its write gets.
pub record Step : Type 0 where
  pub now : ℕ
  pub writing : Writing
  pub change : Change

unfoldable pub run : List Step → Memory → Memory
run [] m = m
run (s ∷ ss) m = run ss (change s.now s.writing s.change m).0

abbrev is_done : Writing → Bool
is_done done = true
is_done _ = false

abbrev with_step : Step → List Step → List Step
with_step s [] = if is_done s.writing then s ∷ [] else []
with_step s (t ∷ ts) = s ∷ t ∷ ts

-- The calls up to the last one that was written.
abbrev pub up_to_last_written : List Step → List Step
up_to_last_written [] = []
up_to_last_written (s ∷ ss) = with_step s (up_to_last_written ss)

-- All of these calls, one after the other, without files.
abbrev pub replay : List Step → Database → Database
replay [] d = d
replay (s ∷ ss) d = replay ss (changed s.now s.change d)

abbrev in_file : List Step → (file memory : Database) → Database
in_file [] file memory = file
in_file (s ∷ ss) file memory = replay (s ∷ ss) memory

in_file-if :
    (b : Bool) (s : Step) (file memory : Database)
    → (if b then changed s.now s.change memory else file)
      ≡ in_file (if b then s ∷ [] else []) file memory
in_file-if true s file memory = refl
in_file-if false s file memory = refl

in_file-replay : (ss : List Step) (d : Database) → in_file ss d d ≡ replay ss d
in_file-replay [] d = refl
in_file-replay (s ∷ ss) d = refl

in_file-with_step :
    (s : Step) (ss : List Step) (file memory : Database)
    → in_file ss
        (if is_done s.writing then changed s.now s.change memory else file)
        (changed s.now s.change memory)
      ≡ in_file (with_step s ss) file memory
in_file-with_step s [] file memory = in_file-if (is_done s.writing) s file memory
in_file-with_step s (t ∷ ts) file memory = refl

change-ready :
    (now : ℕ) (w : Writing) (k : Change) (m : Memory) (file memory : Database)
    → m.content ≡ some memory
    → m.disk.db ≡ some file
    → ((change now w k m).0.content ≡ some (changed now k memory))
      × ((change now w k m).0.disk.db ≡ some (if is_done w then changed now k memory else file))
unfolding change persist
change-ready now done k m file memory ready kept = (rw ready refl, rw ready refl)
change-ready now write_failed k m file memory ready kept = (rw ready refl, rw ready kept)
change-ready now rename_failed k m file memory ready kept = (rw ready refl, rw ready kept)
change-ready now ends_in_write k m file memory ready kept = (rw ready refl, rw ready kept)
change-ready now ends_before_rename k m file memory ready kept = (rw ready refl, rw ready kept)

run-ready :
    (ss : List Step) (m : Memory) (file memory : Database)
    → m.content ≡ some memory
    → m.disk.db ≡ some file
    → (run ss m).disk.db ≡ some (in_file (up_to_last_written ss) file memory)
unfolding run
run-ready [] m file memory ready kept = kept
run-ready (s ∷ ss) m file memory ready kept =
    let next = change-ready s.now s.writing s.change m file memory ready kept in
    run-ready ss (change s.now s.writing s.change m).0
      (if is_done s.writing then changed s.now s.change memory else file)
      (changed s.now s.change memory) next.0 next.1
    ∙ ap some (in_file-with_step s (up_to_last_written ss) file memory)

restarted :
    (later : ℕ) (w : Writing) (m : Memory) (d : Database)
    → m.disk.db ≡ some d
    → (init later true w (restart m)).0.content ≡ some d
unfolding init
restarted later w m d kept = rw kept refl

-- A process that starts with the database in its file and makes any calls, of which some writes
-- fail, and that may end in a write, leaves in the file what all its calls up to the last one that
-- was written make of the database, one after the other: the calls that threw before that one
-- included, and none after it. The next process finds that, if it can read the file.
pub file_survives :
    (ss : List Step) (later : ℕ) (w : Writing) (d : Database)
    → (let m : Memory = record { content = some d; disk = record { db = some d; temp = none } } in
        (init later true w (restart (run ss m))).0.content
        ≡ some (replay (up_to_last_written ss) d))
file_survives ss later w d =
    let m : Memory = record { content = some d; disk = record { db = some d; temp = none } } in
    restarted later w (run ss m) (in_file (up_to_last_written ss) d d)
      (run-ready ss m d d refl refl)
    ∙ ap some (in_file-replay (up_to_last_written ss) d)
