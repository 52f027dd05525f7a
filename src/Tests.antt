-- ===== src/Tests.antt =====
-- Runs of the models at concrete inputs.
mod Sessions
mod Conducting
mod Deciding
mod Serving
mod Storytelling
mod Delivering
mod Keeping
mod Generating
mod Relaying
mod Remembering
mod Talking
