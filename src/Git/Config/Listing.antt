-- ===== src/Git/Config/Listing.antt =====
-- What `git_config_list_z` of src/git_handler.c appends, and how it is read back.
use magit.Base.{
  ◌≡◌, refl, ◌∙◌, Option, none, some, List, [], ◌∷◌, ◌++◌, append_assoc, append-nil, Bytes,
}
use magit.Git.Api.{
  GitError, error, not_found, unborn_branch, iter_over, other, failure, ConfigEntry, Git,
}
use magit.Git.Store.{
  config, config_iterator, gh_git_err_level, Store, Outcome, done, ends, check-ends, bind_some, ◌▷◌,
}
use magit.Git.Config.{put_value, config_loop, config_end, git_config_list_z}

abbrev pub value_or_empty : Option Bytes → Bytes
value_or_empty none = []
value_or_empty (some v) = v

abbrev pub listing : List ConfigEntry → Bytes
listing [] = []
listing (e ∷ rest) = e.name ++ (b'\n' ∷ (value_or_empty e.value ++ (0 ∷ listing rest)))

module _ (g : Git) where
  open g use {Repo}

  config_step :
      (v : Option Bytes) (e : ConfigEntry) (rest : List ConfigEntry) (s : Store)
      → e.value ≡ v
      → config_loop g (e ∷ rest) s
        ≡ config_loop g rest
            (record s { out = s.out ++ (e.name ++ (b'\n' ∷ (value_or_empty v ++ 0 ∷ []))) })
  unfolding config_loop put_value
  config_step none e rest s h = rw h (simp append_assoc)
  config_step (some v) e rest s h = rw h (simp append_assoc)

  config_loop-listing :
      (items : List ConfigEntry) (s : Store)
      → config_loop g items s ≡ some (tt, record s { out = s.out ++ listing items })
  config_loop-listing [] s = unfold config_loop in simp append-nil
  config_loop-listing (e ∷ rest) s =
      config_step e.value e rest s refl ∙ simp (config_loop-listing rest, append_assoc)

  -- The code that ends the listing, and the log line of a failure.
  abbrev pub listed : Bytes → GitError → Outcome
  listed t iter_over = done t
  listed t e = record { code = failure e; appends = t; logs = gh_git_err_level e ∷ [] }

  abbrev pub config_list : Repo → Outcome
  config_list repo = g.repository_config repo ▷ λ cfg.
      g.config_iterator_new cfg ▷ λ walk. listed (listing walk.items) walk.end_code

  config_end-listed :
      (e : GitError) (t : Bytes) (s : Store)
      → config_end g e (record s { out = s.out ++ t }) ≡ ends s (listed t e)
  unfolding config_end
  config_end-listed iter_over t s = simp append-nil
  config_end-listed error t s = refl
  config_end-listed not_found t s = refl
  config_end-listed unborn_branch t s = refl
  config_end-listed (other n) t s = refl

  -- `git_config_list_z` appends one `name LF value NUL` entry for each that the iterator hands out,
  -- with an empty value for a NULL one, and returns 0 if the iterator ended with GIT_ITEROVER and
  -- its code otherwise. If the configuration or the iterator cannot be opened it returns that code
  -- and appends nothing. What it opened is freed on each of these paths.
  pub git_config_list_z-ends :
      (repo : Repo) (s : Store) → git_config_list_z g repo s ≡ ends s (config_list repo)
  unfolding git_config_list_z
  git_config_list_z-ends repo s =
      check-ends (g.repository_config repo) _ _ _ s s (λ e. simp append-nil)
        λ cfg.
          check-ends (g.config_iterator_new cfg) _ _ _ (record s { held = config ∷ s.held }) s
            (λ e. simp append-nil)
            λ walk.
              bind_some (config_loop g walk.items) _ (
                config_loop-listing walk.items
                  (record s { held = config_iterator ∷ config ∷ s.held }))
              ∙ config_end-listed walk.end_code (listing walk.items) s
