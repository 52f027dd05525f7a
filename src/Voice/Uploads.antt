-- ===== src/Voice/Uploads.antt =====
-- What becomes of a voice that is uploaded.
use dreamweaver.Prelude.{
  ℕ, String, Option, none, some, Bool, true, false, [], ◌∷◌, All, ◌≡◌, inl, inr, refl, str_eq,
  Bool-cases,
}
use dreamweaver.Voice.{
  give_up, after_upload, VoiceProfile, ready, failed, create_pending, set_sample_url, mark_ready,
  mark_failed, is_ready, storage_path, upload_voice, Uploaded,
}

-- The profile of an upload that succeeded.
abbrev pub uploaded_profile : ℕ → (id user_id name url : String) → VoiceProfile
uploaded_profile now id user_id name url = record {
  id = id;
  user_id = user_id;
  name = name;
  sample_url = some url;
  voice_model_id = some url;
  status = ready;
  created_at = now;
  updated_at = some now;
}

-- Nothing is returned, and no profile is saved but failed ones.
abbrev IsRefused : Uploaded → Type 0
IsRefused u =
    (u.profile ≡ none)
    × All (λ (p : VoiceProfile). (p.status ≡ failed) × (is_ready p ≡ false)) u.saved

module _ (now : ℕ) (saves : VoiceProfile → Bool) (upload : String → String → Option String)
    (id user_id name mime : String) where
  -- If the storage gives an address that is not empty and the repository takes the profile, the
  -- upload returns a profile that is ready and has the address as its sample and as its model, and
  -- exactly this one is saved.
  pub upload_succeeds :
      (url : String)
      → upload (storage_path (create_pending id now user_id name) mime) mime ≡ some url
      → str_eq url "" ≡ false
      → saves (uploaded_profile now id user_id name url) ≡ true
      → (upload_voice now saves upload id user_id name mime ≡ record {
        saved = uploaded_profile now id user_id name url ∷ [];
        profile = some (uploaded_profile now id user_id name url);
      })
        × (is_ready (uploaded_profile now id user_id name url) ≡ true)
  unfolding upload_voice is_ready
  upload_succeeds url answer full saved = (rw answer (rw full (rw saved refl)), rw full refl)

  give_up-IsRefused : (p : VoiceProfile) → IsRefused (give_up now saves p)
  unfolding mark_failed is_ready
  give_up-IsRefused p = elim (Bool-cases (saves (mark_failed now p))) [
    | inl kept ↦ (refl, rw kept ((refl, refl), tt))
    | inr lost ↦ (refl, rw lost tt)
  ]

  after_upload-IsRefused :
      (o : Option String)
      → ((url : String)
          → o ≡ some url
          → str_eq url "" ≡ false
          → saves (uploaded_profile now id user_id name url) ≡ false)
      → IsRefused (after_upload now saves (create_pending id now user_id name) o)
  unfolding create_pending set_sample_url mark_ready
  after_upload-IsRefused none bad = give_up-IsRefused (create_pending id now user_id name)
  after_upload-IsRefused (some url) bad = elim (Bool-cases (str_eq url "")) [
    | inl empty ↦
        rw empty (give_up-IsRefused (set_sample_url now url (create_pending id now user_id name)))
    | inr full ↦
        rw full
          (rw (bad url refl full) (give_up-IsRefused (uploaded_profile now id user_id name url)))
  ]

  -- If the storage throws, gives the empty address, or the repository refuses the profile, the
  -- upload throws, and nothing is saved but, at most, a profile that is not ready and has failed.
  pub upload_fails :
      ((url : String)
        → upload (storage_path (create_pending id now user_id name) mime) mime ≡ some url
        → str_eq url "" ≡ false
        → saves (uploaded_profile now id user_id name url) ≡ false)
      → ((upload_voice now saves upload id user_id name mime).profile ≡ none)
        × All
            (λ (p : VoiceProfile). (p.status ≡ failed) × (is_ready p ≡ false))
            (upload_voice now saves upload id user_id name mime).saved
  unfolding upload_voice is_ready
  upload_fails bad =
      after_upload-IsRefused (upload (storage_path (create_pending id now user_id name) mime) mime)
        bad
