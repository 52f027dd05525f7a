-- ===== src/Story/Content.antt =====
-- Raw texts and paragraphs, and when a story can be read.
use Prim.Native.Char.{Char, code}
use Prim.Native.String
use text.Mathlib.TextLemmas.{nil-append, cons-append}
use dreamweaver.Prelude.{
  String, none, some, Bool, true, false, ◌≡◌, refl, ap, ◌∙◌, arith, List, [], ◌∷◌, All, length, ltb,
  ◌==◌, str_eq, trim, if◌then◌else◌,
}
use dreamweaver.Story.{
  StoryContent, create_content, split_from, trimmed, from_raw_text, full_text, Story, completed,
  complete, with_status, is_readable, is_completed,
}

unfoldable pub has_newline : String → Bool
has_newline String.[] = false
has_newline (String.◌∷◌ c s) = let rest = has_newline s in if code c == 10 then true else rest

-- A paragraph as `fromRawText` makes them: not empty, without line breaks, and trimmed.
abbrev pub IsParagraph : String → Type 0
IsParagraph p = (str_eq p "" ≡ false) × (has_newline p ≡ false) × (trim p ≡ p)

split-last : (s : String) → has_newline s ≡ false → split_from false s ≡ s ∷ []
unfolding split_from has_newline
split-last String.[] h = refl
split-last (String.◌∷◌ c s) h = ground (arith, split-last s)

abbrev newline : Char
newline = "\n"

newlines_append : (t : String) → String.◌++◌ "\n\n" t ≡ String.◌∷◌ newline (String.◌∷◌ newline t)
newlines_append t =
    cons-append newline "\n" t
    ∙ ap (String.◌∷◌ newline) (cons-append newline "" t ∙ ap (String.◌∷◌ newline) (nil-append t))

split-newlines :
    (t : String)
    → split_from false (String.◌∷◌ newline (String.◌∷◌ newline t)) ≡ "" ∷ split_from true t
unfolding split_from
split-newlines t = refl

split-break :
    (s t : String)
    → has_newline s ≡ false
    → split_from false (String.◌++◌ s (String.◌∷◌ newline (String.◌∷◌ newline t)))
      ≡ s ∷ split_from true t
unfolding split_from has_newline
split-break String.[] t h = rw (nil-append) (split-newlines t)
split-break (String.◌∷◌ c s) t h = rw cons-append (ground (arith, split-break s t))

split-cons :
    (p t : String)
    → IsParagraph p
    → split_from true (String.◌++◌ p t) ≡ split_from false (String.◌++◌ p t)
unfolding split_from has_newline
split-cons String.[] t (full, h, k) = absurd (ground (arith, full))
split-cons (String.◌∷◌ c s) t (full, h, k) = rw cons-append (ground (arith, h))

split-alone : (p : String) → IsParagraph p → split_from true p ≡ split_from false p
unfolding split_from has_newline
split-alone String.[] (full, h, k) = absurd (ground (arith, full))
split-alone (String.◌∷◌ c s) (full, h, k) = ground (arith, h)

split-start :
    (ps : List String) (p : String)
    → IsParagraph p
    → split_from true (full_text (p ∷ ps)) ≡ split_from false (full_text (p ∷ ps))
unfolding full_text
split-start [] p h = split-alone p h
split-start (q ∷ ps) p h = split-cons p (String.◌++◌ "\n\n" (full_text (q ∷ ps))) h

split-full_text :
    (ps : List String) (p : String)
    → All IsParagraph (p ∷ ps)
    → split_from false (full_text (p ∷ ps)) ≡ p ∷ ps
unfolding full_text
split-full_text [] p ((_, h, _), _) = split-last p h
split-full_text (q ∷ ps) p ((_, h, _), (first, rest)) = rw newlines_append (
    split-break p (full_text (q ∷ ps)) h
    ∙ ap (λ ss. p ∷ ss) (split-start ps q first ∙ split-full_text ps q (first, rest)))

trimmed-paragraphs : (ps : List String) → All IsParagraph ps → trimmed ps ≡ ps
unfolding trimmed
trimmed-paragraphs [] h = refl
trimmed-paragraphs (p ∷ ps) ((full, _, same), h) = rw (same, full, trimmed-paragraphs ps h) refl

-- Content with at least one paragraph, and no paragraph that is empty, has a line break in it or
-- white space at an end, is read back from its full text, with the default score and no chapters.
pub from_raw_text-full_text :
    (ps : List String) (p : String)
    → All IsParagraph (p ∷ ps)
    → from_raw_text (full_text (p ∷ ps))
      ≡ some (record { paragraphs = p ∷ ps; chapters = []; sleep_score = 5 })
unfolding from_raw_text create_content
from_raw_text-full_text ps p h = rw (split-full_text ps p h, trimmed-paragraphs (p ∷ ps) h) refl

create_content-full :
    (ps : List String) (content : StoryContent)
    → create_content ps none none ≡ some content
    → ltb 0 (length content.paragraphs) ≡ true
unfolding create_content
create_content-full [] content e = absurd (cc)
create_content-full (p ∷ ps) content e = ground (arith, e)

-- A story that is made of a raw text can be read once it is completed.
pub completed_is_readable :
    (text : String) (content : StoryContent) (story : Story)
    → from_raw_text text ≡ some content
    → story.content ≡ content
    → is_completed story.status ≡ false
    → (done : Story) × (complete story ≡ some done) × (is_readable done ≡ true)
unfolding from_raw_text create_content complete is_readable
completed_is_readable text content story e same open_ =
    let full = create_content-full (trimmed (split_from false text)) content e in
    (with_status completed story, rw open_ refl, rw (same, full) refl)
