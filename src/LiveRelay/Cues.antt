-- ===== src/LiveRelay/Cues.antt =====
-- Whom a sleep cue reaches.
use dreamweaver.Prelude.{List}
