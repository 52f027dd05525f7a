-- ===== src/Sharing/Races.antt =====
-- Requests for a shared link that overlap: each reads the link, and later counts its view and answers
-- with what it read.
use dreamweaver.Prelude.{
  ℕ, zero, suc, ◌+◌, ◌≤◌, String, Option, none, some, true, ◌&&◌, ◌≡◌, refl, arith, inl, inr,
  lookup, List, [], ◌∷◌, ◌++◌, ltb, Bool-cases, AllValues, AllValues-insert,
}
use dreamweaver.Sharing.{
  SharedLinkType, SharedLink, Links, add_view, is_valid, increment_found, increment_views,
  SharedContent, content, answer,
}

module _ {C : Type 0} (resource : SharedLinkType → String → Option C) where
  -- The table, the requests that have read their links, and the answers that were given.
  pub record World : Type 0 where
    pub links : Links
    pub reading : List (String × Option SharedLink)
    pub answers : List (SharedContent C)

  -- A step of one of the requests, at any time.
  pub data Step : World → World → Type 0 where
    read :
        (token : String) (w : World)
        → Step w (record w { reading = (token, lookup token w.links) ∷ w.reading })
    reply :
        (now : ℕ) (token : String) (link : Option SharedLink) (links : Links)
        (before after : List (String × Option SharedLink)) (answers : List (SharedContent C))
        → Step
            (record { links = links; reading = before ++ (token, link) ∷ after; answers = answers })
            (record {
              links = (answer resource now token link links).0;
              reading = before ++ after;
              answers = (answer resource now token link links).1 ∷ answers;
            })

  pub data Steps : World → World → Type 0 where
    done : (w : World) → Steps w w
    more : (u v w : World) → Step u v → Steps v w → Steps u w

  -- The count of a link is within its limit.
  abbrev pub IsCounted : SharedLink → Type 0
  IsCounted link = link.current_views ≤ link.max_views

  increment_found-IsCounted :
      (now : ℕ) (token : String) (links : Links) (o : Option SharedLink)
      → AllValues IsCounted links
      → AllValues IsCounted (increment_found now token links o)
  increment_found-IsCounted now token links none h = h
  increment_found-IsCounted now token links (some link) h =
      elim (Bool-cases (ltb now link.expires_at && ltb link.current_views link.max_views)) [
        | inl e ↦
            rw e (AllValues-insert IsCounted token (add_view link) links (ground (arith, e)) h)
        | inr e ↦ rw e h
      ]

  answer-IsCounted :
      (now : ℕ) (token : String) (o : Option SharedLink) (links : Links)
      → AllValues IsCounted links
      → AllValues IsCounted (answer resource now token o links).0
  unfolding answer increment_views
  answer-IsCounted now token none links h = h
  answer-IsCounted now token (some link) links h = elim (Bool-cases (is_valid now link)) [
    | inl e ↦ rw e (increment_found-IsCounted now token links (lookup token links) h)
    | inr e ↦ rw e h
  ]

  Step-IsCounted :
      (u v : World) → Step u v → AllValues IsCounted u.links → AllValues IsCounted v.links
  Step-IsCounted u v (read token w) h = h
  Step-IsCounted u v (reply now token link links before after answers) h =
      answer-IsCounted now token link links h

  -- However the requests overlap, the count of no link passes its limit, if none is over it to
  -- begin with.
  pub Steps-IsCounted :
      (u v : World) → Steps u v → AllValues IsCounted u.links → AllValues IsCounted v.links
  Steps-IsCounted u v (done w) h = h
  Steps-IsCounted u v (more a b w s ss) h = Steps-IsCounted b w ss (Step-IsCounted a b s h)

  abbrev pub copies : {A : Type 0} → ℕ → A → List A
  copies zero a = []
  copies (suc n) a = a ∷ copies n a

  abbrev world : Links → List (String × Option SharedLink) → List (SharedContent C) → World
  world links reading answers = record { links = links; reading = reading; answers = answers }

  Steps-join : (u v w : World) → Steps u v → Steps v w → Steps u w
  Steps-join u v w (done a) t = t
  Steps-join u v w (more a b c s ss) t = more u b w s (Steps-join b v w ss t)

  reads :
      (n : ℕ) (token : String) (links : Links)
      → Steps (world links [] []) (world links (copies n (token, lookup token links)) [])
  reads zero token links = done (world links [] [])
  reads (suc n) token links =
      Steps-join _ _ _ (reads n token links)
        (more _ _ _ (read token (world links (copies n (token, lookup token links)) [])) (done _))

  answer-shows :
      (now : ℕ) (token : String) (link : SharedLink) (c : C) (links : Links)
      → resource link.type link.resource_id ≡ some c
      → is_valid now link ≡ true
      → (answer resource now token (some link) links).1 ≡ content link.type c
  unfolding answer
  answer-shows now token link c links d v = rw (v, d) refl

  reply_with :
      (now : ℕ) (token : String) (link : Option SharedLink) (links : Links)
      (rest : List (String × Option SharedLink)) (answers : List (SharedContent C))
      (r : SharedContent C)
      → (answer resource now token link links).1 ≡ r
      → Step
          (world links ((token, link) ∷ rest) answers)
          (world (answer resource now token link links).0 rest (r ∷ answers))
  reply_with now token link links rest answers r h =
      rw (← h) (reply now token link links [] rest answers)

  replies :
      (n m k now : ℕ) (token : String) (link : SharedLink) (c : C) (links : Links)
      → n + m ≡ k
      → resource link.type link.resource_id ≡ some c
      → is_valid now link ≡ true
      → (links' : Links) × Steps
          (world links (copies n (token, some link)) (copies m (content link.type c)))
          (world links' [] (copies k (content link.type c)))
  replies zero m k now token link c links e d v =
      let same : m ≡ k = omega arith in (links, rw (← same) (done _))
  replies (suc n) m k now token link c links e d v =
      let next = (answer resource now token (some link) links).0 in
      let first =
        reply_with now token (some link) links (copies n (token, some link))
          (copies m (content link.type c)) (content link.type c)
          (answer-shows now token link c links d v) in
      let (links', rest) = replies n (suc m) k now token link c next (omega arith) d v in
      (links', more _ _ _ first rest)

  -- Any number of requests that read a valid link before one of them counts its view all show
  -- the resource, even where the link has one view left: the steps exist for every number.
  pub overlapping_views :
      (n now : ℕ) (token : String) (links : Links) (link : SharedLink) (c : C)
      → lookup token links ≡ some link
      → resource link.type link.resource_id ≡ some c
      → is_valid now link ≡ true
      → (links' : Links) × Steps
          (world links [] [])
          (world links' [] (copies n (content link.type c)))
  overlapping_views n now token links link c e d v =
      let (links', rest) = replies n 0 n now token link c links (omega arith) d v in
      (links', Steps-join _ _ _ (reads n token links) (rw e rest))
