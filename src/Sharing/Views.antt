-- ===== src/Sharing/Views.antt =====
-- How often a link shows its resource, when the requests come one after the other.
use dreamweaver.Prelude.{
  ℕ, ◌+◌, ◌-◌, ◌*◌, ◌<◌, min, String, Option, none, some, true, false, ◌&&◌, ◌≡◌, ◌≢◌, refl, ap,
  ◌∙◌, arith, inl, inr, lookup, insert, lookup-insert_self, length, List, [], ◌∷◌, All, ltb,
  Bool-cases, eq_iff, eq_refl,
}
use dreamweaver.Sharing.{
  SharedLinkType, SharedLink, Links, add_view, is_valid, increment_views, SharedContent, nothing,
  expired, content, answer, get_shared_content, ShareRequest, create_share_link, generate,
  or_default, is_owner,
}

abbrev pub shown : {C : Type 0} → SharedContent C → ℕ
shown nothing = 0
shown (expired type) = 0
shown (content type c) = 1

module _ {C : Type 0} (resource : SharedLinkType → String → Option C) where
  -- How many requests at the given times show the resource.
  pub views : String → List ℕ → Links → ℕ
  unfolding get_shared_content
  views token [] links = 0
  views token (now ∷ times) links =
      let r = get_shared_content resource now token links in
      let rest = views token times r.0 in shown r.1 + rest

  view-valid :
      (now : ℕ) (token : String) (links : Links) (link : SharedLink) (c : C)
      → lookup token links ≡ some link
      → resource link.type link.resource_id ≡ some c
      → is_valid now link ≡ true
      → get_shared_content resource now token links
        ≡ (insert token (add_view link) links, content link.type c)
  unfolding get_shared_content is_valid increment_views answer
  view-valid now token links link c e d v =
      let fresh : (ltb now link.expires_at && ltb link.current_views link.max_views) ≡ true = v in
      let counted : increment_views now token links ≡ insert token (add_view link) links =
        rw (e, fresh) refl in
      rw (e, fresh, d) (ap (λ ls. (ls, content link.type c)) counted)

  view-invalid :
      (now : ℕ) (token : String) (links : Links) (link : SharedLink)
      → lookup token links ≡ some link
      → is_valid now link ≡ false
      → get_shared_content resource now token links ≡ (links, expired link.type)
  unfolding get_shared_content is_valid answer
  view-invalid now token links link e v = rw (e, v) refl

  views-opened :
      (token : String) (times : List ℕ) (links : Links) (link : SharedLink) (c : C)
      → lookup token links ≡ some link
      → resource link.type link.resource_id ≡ some c
      → All (λ t. t < link.expires_at) times
      → views token times links ≡ min (link.max_views - link.current_views) (length times)
  unfolding views
  views-opened token [] links link c e d h = ground arith
  views-opened token (now ∷ times) links link c e d (early, h) =
      elim (Bool-cases (ltb link.current_views link.max_views)) [
        | inl fresh ↦
            let v : is_valid now link ≡ true = unfold is_valid in ground (arith, early, fresh) in
            let rest =
              views-opened token times (insert token (add_view link) links) (add_view link) c
                (lookup-insert_self token (add_view link) links) d h in
            rw (view-valid now token links link c e d v, rest) (ground (arith, fresh))
        | inr used ↦
            let v : is_valid now link ≡ false = unfold is_valid in ground (arith, used) in
            let rest = views-opened token times links link c e d h in
            rw (view-invalid now token links link e v, rest) (ground (arith, used))
      ]

  -- A link that the owner of an existing resource creates shows it, to requests that come one
  -- after the other before the link expires, as often as it may be viewed and no more: three
  -- times if the request names no number, or all the requests if they are fewer.
  pub created_views :
      (owner : SharedLinkType → String → Option String) (id token : String) (now : ℕ)
      (r : ShareRequest) (links : Links) (times : List ℕ) (c : C)
      → owner r.type r.resource_id ≡ some r.owner_id
      → resource r.type r.resource_id ≡ some c
      → All (λ t. t < now + or_default r.expires_in_days 2 * 86400000) times
      → (link : SharedLink) × (links' : Links) × (create_share_link owner id token now r links
          ≡ some (link, links'))
        × (views token times links' ≡ min (or_default r.max_views 3) (length times))
  unfolding create_share_link generate
  created_views owner id token now r links times c o d h =
      let link =
        generate id token now r.owner_id r.resource_id r.type (or_default r.max_views 3)
          (or_default r.expires_in_days 2) in
      let shows =
        views-opened token times (insert token link links) link c
          (lookup-insert_self token link links) d h in
      (
        link,
        insert token link links,
        rw (o, eq_refl r.owner_id) refl,
        shows ∙ ap (λ n. min n (length times)) (omega arith),
      )

is_owner_refused : (o : Option String) (user : String) → o ≢ some user → is_owner o user ≡ false
is_owner_refused none user h = refl
is_owner_refused (some o) user h = ground (arith, eq_iff o user)

-- Nobody but the owner creates a link: the request fails, whatever else it asks for.
pub create_share_link_owner :
    (owner : SharedLinkType → String → Option String) (id token : String) (now : ℕ)
    (r : ShareRequest) (links : Links)
    → owner r.type r.resource_id ≢ some r.owner_id
    → create_share_link owner id token now r links ≡ none
unfolding create_share_link
create_share_link_owner owner id token now r links h =
    rw (is_owner_refused (owner r.type r.resource_id) r.owner_id h) refl
