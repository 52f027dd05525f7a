-- ===== src/Generation/Texts.antt =====
-- The texts in the generation of a story: the title and the content that its use case
-- (api/src/application/use-cases/GenerateStoryUseCase.ts) makes of what the model gives.
use Prim.Native.Char.{code}
use Prim.Native.String
use dreamweaver.Prelude.{
  ℕ, String, Option, none, some, Bool, true, false, not, ◌&&◌, ◌||◌, List, [], ◌∷◌, ◌==◌, str_eq,
  or_else, trim, if◌then◌else◌,
}

-- `acc.split('\n')[0]`, if there is a line break.
unfoldable pub first_line : String → Option String
first_line String.[] = none
first_line (String.◌∷◌ c s) =
    let further = first_line s in
    if code c == 10
    then some ""
    else elim further [ none ↦ none | some line ↦ some (String.◌∷◌ c line) ]

-- What is left of a text after another one at its beginning.
unfoldable pub after : String → String → Option String
after String.[] s = some s
after (String.◌∷◌ d t) String.[] = none
after (String.◌∷◌ d t) (String.◌∷◌ c s) =
    let further = after t s in if code c == code d then further else none

-- `s.replace(t, '')`: the first occurrence.
unfoldable pub remove_first : String → String → String
unfolding after
remove_first t String.[] = ""
remove_first t (String.◌∷◌ c s) =
    let further = remove_first t s in or_else (after t (String.◌∷◌ c s)) (String.◌∷◌ c further)

abbrev pub title_from : String → Option String → String
title_from title none = title
title_from title (some line) =
    if str_eq title "Untitled Story" then trim (remove_first "Title: " line) else title

-- The loop over the chunks: the text so far and the title.
unfoldable pub accumulate : List String → String × String → String × String
unfolding first_line remove_first
accumulate [] (text, title) = (text, title)
accumulate (chunk ∷ chunks) (text, title) =
    let longer = String.◌++◌ text chunk in
    accumulate chunks (longer, title_from title (first_line longer))

abbrev pub is_line_end : ℕ → Bool
is_line_end n = n == 10 || (n == 13 || (n == 8232 || n == 8233))

abbrev pub skip : String → String → String
skip t s = or_else (after t s) s

unfoldable pub skip_breaks : String → String
skip_breaks String.[] = ""
skip_breaks (String.◌∷◌ c s) =
    let further = skip_breaks s in if code c == 10 then further else String.◌∷◌ c s

-- `.+\n+`: what is left after a line with at least one character.
unfoldable pub after_line : (empty : Bool) → String → Option String
unfolding skip_breaks
after_line empty String.[] = none
after_line empty (String.◌∷◌ c s) =
    let further = after_line false s in
    if not (is_line_end (code c))
    then further
    else if (code c == 10) && not empty
    then some (skip_breaks s)
    else none

abbrev pub after_title : Option String → Option String
after_title none = none
after_title (some s) = elim (after " " (skip ":" s)) [
  | none ↦ none
  | some line ↦ after_line true line
]

-- `finalContent.replace(/^#? ?Title:? .+\n+/, '').trim()`
unfoldable pub clean : String → String
unfolding after after_line
clean s = trim (or_else (after_title (after "Title" (skip " " (skip "#" s)))) s)

-- `paragraphs.join(' ')`
unfoldable pub joined : List String → String
joined [] = ""
joined (p ∷ []) = p
joined (p ∷ q ∷ ps) = String.◌++◌ p (String.◌++◌ " " (joined (q ∷ ps)))
