-- ===== src/Sharing.antt =====
-- Links to a story or a moment (api/src/domain/entities/SharedLink.ts, and CreateShareLinkUseCase.ts
-- and GetSharedContentUseCase.ts under api/src/application/use-cases). The table is a dictionary by
-- token; the count of the views is kept by the function of the database in
-- supabase/migrations/20260129000006_shared_link_logic_cleanup.sql. What the repositories of the
-- stories and the moments hold is a parameter.
pub mod Views
pub mod Races
use dreamweaver.Prelude.{
  ℕ, ◌+◌, ◌*◌, String, Option, none, some, Bool, true, false, ◌&&◌, Dict, lookup, insert, ltb,
  str_eq, ◌==◌, List, [], ◌∷◌, if◌then◌else◌,
}

pub data SharedLinkType : Type 0 where
  story moment : SharedLinkType

pub record SharedLink : Type 0 where
  pub id : String
  pub resource_id : String
  pub owner_id : String
  pub type : SharedLinkType
  pub token : String
  pub max_views : ℕ
  pub current_views : ℕ
  pub expires_at : ℕ
  pub created_at : ℕ

-- The random identifier and token are arguments; a day has 24 hours.
unfoldable pub generate :
    (id token : String)
    → (now : ℕ) → (owner resource : String) → SharedLinkType
    → (max_views days : ℕ) → SharedLink
generate id token now owner resource type max_views days = record {
  id = id;
  resource_id = resource;
  owner_id = owner;
  type = type;
  token = token;
  max_views = max_views;
  current_views = 0;
  expires_at = now + days * 86400000;
  created_at = now;
}

unfoldable pub is_valid : ℕ → SharedLink → Bool
is_valid now link = ltb now link.expires_at && ltb link.current_views link.max_views

abbrev pub Links : Type 0
Links = Dict SharedLink

abbrev pub add_view : SharedLink → SharedLink
add_view link = record link { current_views = link.current_views + 1 }

abbrev pub increment_found : ℕ → String → Links → Option SharedLink → Links
increment_found now token links none = links
increment_found now token links (some link) =
    if ltb now link.expires_at && ltb link.current_views link.max_views
    then insert token (add_view link) links
    else links

-- `increment_shared_link_views`
unfoldable pub increment_views : ℕ → String → Links → Links
increment_views now token links = increment_found now token links (lookup token links)

pub record ShareRequest : Type 0 where
  pub owner_id : String
  pub resource_id : String
  pub type : SharedLinkType
  -- An absent number is 0: the code treats both in the same way.
  pub max_views : ℕ
  pub expires_in_days : ℕ

abbrev pub is_owner : Option String → String → Bool
is_owner none owner = false
is_owner (some o) owner = str_eq o owner

abbrev pub or_default : ℕ → ℕ → ℕ
or_default n d = if n == 0 then d else n

-- `CreateShareLinkUseCase.execute`, where `owner` is the owner of the resource, if there is such a
-- resource. `none` is the exception.
unfoldable pub create_share_link :
    (owner : SharedLinkType → String → Option String)
    → (id token : String) → ℕ
    → ShareRequest
    → Links
    → Option (SharedLink × Links)
unfolding generate
create_share_link owner id token now r links =
    let link =
      generate id token now r.owner_id r.resource_id r.type (or_default r.max_views 3)
        (or_default r.expires_in_days 2) in
    if is_owner (owner r.type r.resource_id) r.owner_id
    then some (link, insert token link links)
    else none

pub data SharedContent (C : Type 0) : Type 0 where
  -- No link, or no resource.
  nothing : SharedContent C
  expired : SharedLinkType → SharedContent C
  content : SharedLinkType → C → SharedContent C

module _ {C : Type 0} (resource : SharedLinkType → String → Option C) where
  abbrev show_resource : SharedLinkType → Option C → SharedContent C
  show_resource type none = nothing
  show_resource type (some c) = content type c

  -- What `GetSharedContentUseCase.execute` does after it has read the link.
  unfoldable pub answer : ℕ → String → Option SharedLink → Links → Links × SharedContent C
  unfolding is_valid increment_views
  answer now token none links = (links, nothing)
  answer now token (some link) links =
      if is_valid now link
      then (
        increment_views now token links,
        show_resource link.type (resource link.type link.resource_id),
      )
      else (links, expired link.type)

  unfoldable pub get_shared_content : ℕ → String → Links → Links × SharedContent C
  unfolding answer
  get_shared_content now token links = answer now token (lookup token links) links
