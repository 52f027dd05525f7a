-- ===== src/Voice.antt =====
-- The voices of parents (api/src/domain/entities/VoiceProfile.ts, and UploadVoiceUseCase.ts and
-- SelectVoiceUseCase.ts of api/src/application/use-cases). Whether the storage takes a file and the
-- repository a profile are parameters.
pub mod Uploads
use Prim.Native.String
use dreamweaver.Prelude.{
  ℕ, String, Option, none, some, Bool, true, false, ◌&&◌, List, [], ◌∷◌, str_eq, is_some, truthy,
  if◌then◌else◌,
}

pub data VoiceProfileStatus : Type 0 where
  pending processing ready failed : VoiceProfileStatus

pub record VoiceProfile : Type 0 where
  pub id : String
  pub user_id : String
  pub name : String
  pub sample_url : Option String
  pub voice_model_id : Option String
  pub status : VoiceProfileStatus
  pub created_at : ℕ
  pub updated_at : Option ℕ

unfoldable pub create_pending : (id : String) (now : ℕ) (user_id name : String) → VoiceProfile
create_pending id now user_id name = record {
  id = id;
  user_id = user_id;
  name = name;
  sample_url = none;
  voice_model_id = none;
  status = pending;
  created_at = now;
  updated_at = none;
}

unfoldable pub set_sample_url : ℕ → String → VoiceProfile → VoiceProfile
set_sample_url now url p = record p {
  sample_url = some url;
  status = processing;
  updated_at = some now;
}

unfoldable pub set_standard_voice : ℕ → String → VoiceProfile → VoiceProfile
set_standard_voice now model p = record p {
  voice_model_id = some model;
  status = ready;
  updated_at = some now;
}

abbrev pub has_sample : VoiceProfile → Bool
has_sample p = is_some (truthy p.sample_url)

-- `none` is the exception for a profile without a sample.
unfoldable pub mark_ready : ℕ → String → VoiceProfile → Option VoiceProfile
mark_ready now model p =
    if has_sample p
    then some (record p { voice_model_id = some model; status = ready; updated_at = some now })
    else none

unfoldable pub mark_failed : ℕ → VoiceProfile → VoiceProfile
mark_failed now p = record p { status = failed; updated_at = some now }

abbrev is_ready_status : VoiceProfileStatus → Bool
is_ready_status ready = true
is_ready_status pending = false
is_ready_status processing = false
is_ready_status failed = false

unfoldable pub is_ready : VoiceProfile → Bool
is_ready p = is_ready_status p.status && is_some (truthy p.voice_model_id)

unfoldable pub get_extension : String → String
get_extension mime =
    if str_eq mime "audio/wav"
    then "wav"
    else if str_eq mime "audio/mpeg"
    then "mp3"
    else if str_eq mime "audio/webm"
    then "webm"
    else if str_eq mime "audio/x-m4a"
    then "m4a"
    else "bin"

unfoldable pub storage_path : VoiceProfile → String → String
unfolding get_extension
storage_path p mime = String.◌++◌ "users/" (
    String.◌++◌ p.user_id
      (String.◌++◌ "/" (String.◌++◌ p.id (String.◌++◌ "." (get_extension mime)))))

-- What the repository was given, in order, and the profile that is returned; `none` is an exception.
pub record Uploaded : Type 0 where
  pub saved : List VoiceProfile
  pub profile : Option VoiceProfile

module _ (now : ℕ) (saves : VoiceProfile → Bool) where
  -- The handler of the exceptions.
  abbrev give_up : VoiceProfile → Uploaded
  give_up p =
      let q = mark_failed now p in record { saved = if saves q then q ∷ [] else []; profile = none }

  abbrev save_ready : VoiceProfile → Option VoiceProfile → Uploaded
  save_ready p none = give_up p
  save_ready p (some q) = if saves q then record { saved = q ∷ []; profile = some q } else give_up q

  abbrev after_upload : VoiceProfile → Option String → Uploaded
  after_upload p none = give_up p
  after_upload p (some url) =
      let sampled = set_sample_url now url p in save_ready sampled (mark_ready now url sampled)

  -- `UploadVoiceUseCase.execute`; `upload` gives the address of a path and a type, or throws.
  unfoldable pub upload_voice :
      (upload : String → String → Option String) (id user_id name mime : String) → Uploaded
  unfolding create_pending set_sample_url mark_ready mark_failed
  upload_voice upload id user_id name mime =
      let p = create_pending id now user_id name in
      after_upload p (upload (storage_path p mime) mime)

  -- `SelectVoiceUseCase.execute`
  unfoldable pub select_voice : (id user_id name model : String) → Uploaded
  unfolding create_pending set_standard_voice
  select_voice id user_id name model =
      let p = set_standard_voice now model (create_pending id now user_id name) in
      if saves p
      then record { saved = p ∷ []; profile = some p }
      else record { saved = []; profile = none }
