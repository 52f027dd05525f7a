-- ===== src/AgentMemory/Scores.antt =====
-- The scores of the themes.
use dreamweaver.Prelude.{
  ℕ, zero, suc, ◌+◌, ◌*◌, String, Option, none, some, ◌≡◌, refl, ◌∙◌, arith, Dict, lookup,
  lookup-insert_self,
}
use dreamweaver.Conductor.Cues.{negative}
use dreamweaver.AgentMemory.{score_of, shifted, track_outcome}

-- `n` outcomes in a row, all negative.
pub reject : ℕ → String → Dict ℕ → Dict ℕ
reject zero theme scores = scores
reject (suc n) theme scores = track_outcome theme negative (reject n theme scores)

reject-next :
    (k : ℕ) (theme : String) (scores : Dict ℕ) (o : Option ℕ)
    → lookup theme (reject k theme scores) ≡ o
    → lookup theme (reject (suc k) theme scores) ≡ some (shifted negative (score_of o))
unfolding track_outcome reject
reject-next k theme scores o e = lookup-insert_self theme _ (reject k theme scores) ∙ rw e refl

-- A theme that was never tracked has, after any number of rejections, the score of one half or zero:
-- the second rejection brings it to zero, which counts as no score, so that the third brings it
-- back to one half.
pub reject_alternates :
    (n : ℕ) (theme : String) (scores : Dict ℕ)
    → lookup theme scores ≡ none
    → lookup theme (reject (2 * n + 1) theme scores) ≡ some 1
      × (lookup theme (reject (2 * n + 2) theme scores) ≡ some 0)
unfolding reject
reject_alternates zero theme scores e =
    let one : lookup theme (reject 1 theme scores) ≡ some 1 = reject-next 0 theme scores none e in
    (one, reject-next 1 theme scores (some 1) one)
reject_alternates (suc n) theme scores e =
    let (one, two) = reject_alternates n theme scores e in
    let three = reject-next (2 * n + 2) theme scores (some 0) two in
    let four = reject-next (suc (2 * n + 2)) theme scores (some 1) three in
    let odd : 2 * suc n + 1 ≡ suc (2 * n + 2) = omega arith in
    let even : 2 * suc n + 2 ≡ suc (suc (2 * n + 2)) = omega arith in (rw odd three, rw even four)
