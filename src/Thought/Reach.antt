-- ===== src/Thought/Reach.antt =====
-- The diagram of the phases, and what a run of signals reaches.
use dreamweaver.Prelude.{ℕ, ◌≤◌, ◌≡◌, ◌≢◌, ◌⊎◌, inl, refl, List, [], ◌∷◌, ◌++◌, All, arith}
use dreamweaver.Thought.{
  SessionPhase, idle, onboarding, storytelling, reflection, wind_down, asleep, Signal, start,
  story_start, story_end, sleep_detected, wake_up, transition,
}

-- `transition`, applied for each signal in turn.
pub run : SessionPhase → List Signal → SessionPhase
run p [] = p
run p (s ∷ ss) = run (transition p s) ss

-- The phases of a bedtime: how far the session has come.
abbrev pub stage : SessionPhase → ℕ
stage idle = 0
stage onboarding = 1
stage storytelling = 2
stage reflection = 3
stage wind_down = 4
stage asleep = 5

-- Nothing but a wake-up leads back: every other signal keeps the phase or moves it forward, and a
-- wake-up that does not keep or advance the phase takes a sleeping session to `idle`.
pub transition_forward :
    (p : SessionPhase) (s : Signal)
    → (stage p ≤ stage (transition p s)) ⊎ ((p ≡ asleep) × (s ≡ wake_up) × (transition p s ≡ idle))
unfolding transition
transition_forward p s = ground arith

run_forward :
    (p : SessionPhase) (ss : List Signal) → All (λ s. s ≢ wake_up) ss → stage p ≤ stage (run p ss)
unfolding run
run_forward p [] h = omega arith
run_forward p (s ∷ ss) (h, hs) =
    ground (arith, transition_forward p s, run_forward (transition p s) ss hs)

-- Sleep is reached from storytelling, reflection and wind-down by a detected cue, and by nothing
-- else.
pub transition-asleep :
    (p : SessionPhase) (s : Signal)
    → transition p s ≡ asleep
    → ((s ≡ sleep_detected) × (2 ≤ stage p)) ⊎ ((p ≡ asleep) × (s ≢ wake_up))
unfolding transition
transition-asleep p s h = ground arith

-- The diagram as a relation.
pub data Edge : SessionPhase → SessionPhase → Type 0 where
  begin : Edge idle onboarding
  tell : Edge onboarding storytelling
  finish : Edge storytelling reflection
  settle : Edge reflection wind_down
  drop_off : Edge storytelling asleep
  doze : Edge reflection asleep
  drift : Edge wind_down asleep
  wake : Edge asleep idle
  stay : {p : SessionPhase} → Edge p p

ruleset edges = (begin, tell, finish, settle, drop_off, doze, drift, wake, stay)

-- Every transition follows an edge of the diagram.
pub transition-Edge : (p : SessionPhase) (s : Signal) → Edge p (transition p s)
unfolding transition
transition-Edge idle start = begin
transition-Edge onboarding story_start = tell
transition-Edge storytelling sleep_detected = drop_off
transition-Edge storytelling story_end = finish
transition-Edge reflection sleep_detected = doze
transition-Edge reflection start = settle
transition-Edge reflection story_start = settle
transition-Edge reflection story_end = settle
transition-Edge reflection wake_up = settle
transition-Edge wind_down sleep_detected = drift
transition-Edge asleep wake_up = wake
transition-Edge _ _ = stay

-- The signals that the conductor sends.
pub data Sent : Signal → Type 0 where
  sent_start : Sent start
  sent_sleep : Sent sleep_detected

-- What a session whose signals are all sent by the conductor can be in.
abbrev pub IsEarly : SessionPhase → Type 0
IsEarly p = (p ≡ idle) ⊎ (p ≡ onboarding)

pub transition-IsEarly :
    (p : SessionPhase) {s : Signal} → Sent s → IsEarly p → IsEarly (transition p s)
unfolding transition
transition-IsEarly p sent_start h = ground arith
transition-IsEarly p sent_sleep h = ground arith

run-IsEarly : (p : SessionPhase) (ss : List Signal) → All Sent ss → IsEarly p → IsEarly (run p ss)
unfolding run
run-IsEarly p [] _ h = h
run-IsEarly p (s ∷ ss) (k, ks) h = run-IsEarly (transition p s) ss ks (transition-IsEarly p k h)

-- A session that receives the signals `START` and `SLEEP_DETECTED` alone never leaves the first two
-- phases, and so is never asleep.
pub conductor_never_asleep :
    (ss : List Signal) → All Sent ss → IsEarly (run idle ss) × (run idle ss ≢ asleep)
conductor_never_asleep ss h = let early = run-IsEarly idle ss h (inl refl) in (early, ground arith)

run-append : (p : SessionPhase) (ss ts : List Signal) → run p (ss ++ ts) ≡ run (run p ss) ts
unfolding run
run-append p [] ts = refl
run-append p (s ∷ ss) ts = run-append (transition p s) ss ts

abbrev pub bedtime : List Signal
bedtime = start ∷ story_start ∷ sleep_detected ∷ []

bedtime_asleep : (p : SessionPhase) → run p bedtime ≡ asleep
unfolding run transition
bedtime_asleep p = ground arith

-- Whatever a session received before, the signals `START`, `STORY_START` and `SLEEP_DETECTED` in
-- this order end with the child asleep.
pub bedtime_reached : (ss : List Signal) → run idle (ss ++ bedtime) ≡ asleep
bedtime_reached ss = rw run-append (bedtime_asleep (run idle ss))
