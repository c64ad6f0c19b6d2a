-- ===== src/Git/Tags/OnCommit.antt =====
-- Which tag `get_tag_desc` of src/git_handler.c finds on one commit.
use magit.Base.{
  ◌≡◌, refl, ◌∙◌, Bool, true, false, Option, none, some, List, [], ◌∷◌, Bytes, if◌then◌else◌, arith,
}
use magit.Git.Api.{ok, failed, Git}
use magit.Git.Store.{Handle, text, Store, pure, ◌>>◌, bind_some, acquire}
use magit.Git.Tags.{short_tag_name, tag_matches, tag_names_loop}

abbrev pub with_copy : Option Bytes → List Handle → List Handle
with_copy none held = held
with_copy (some n) held = text ∷ held

module _ (g : Git) where
  open g use {Repo, Oid}

  -- Whether a name is that of a tag object on the commit `oid`.
  abbrev pub is_tag_of : Repo → Oid → Bytes → Bool
  is_tag_of repo oid name = elim (g.reference_lookup repo name) [
    | failed e ↦ false
    | ok r ↦ elim (g.reference_target r) [
      | none ↦ false
      | some tag_oid ↦ elim (g.tag_lookup repo tag_oid) [
        | failed e ↦ false
        | ok t ↦ elim (g.commit_lookup repo (g.tag_target_id t)) [
          | failed e ↦ false
          | ok c ↦ g.oid_equal (g.commit_id c) oid
        ]
      ]
    ]
  ]

  tag_matches-is_tag_of :
      (repo : Repo) (oid : Oid) (name : Bytes) (s : Store)
      → tag_matches g repo oid name s ≡ some (is_tag_of repo oid name, s)
  unfolding tag_matches
  tag_matches-is_tag_of repo oid name s = grind arith

  -- The short name of the first tag on the commit.
  abbrev pub tag_on : Repo → Oid → List Bytes → Option Bytes
  tag_on repo oid [] = none
  tag_on repo oid (name ∷ rest) =
      if is_tag_of repo oid name then some (short_tag_name name) else tag_on repo oid rest

  tag_names_step :
      (repo : Repo) (oid : Oid) (name : Bytes) (rest : List Bytes) (s : Store) (d : Bool)
      → is_tag_of repo oid name ≡ d
      → tag_names_loop g repo oid rest s
        ≡ some (tag_on repo oid rest, record s { held = with_copy (tag_on repo oid rest) s.held })
      → (if d
            then (acquire text >> pure (some (short_tag_name name)))
            else tag_names_loop g repo oid rest)
          s
        ≡ some (
          if d then some (short_tag_name name) else tag_on repo oid rest,
          record s {
            held =
                with_copy (if d then some (short_tag_name name) else tag_on repo oid rest) s.held;
          },
        )
  tag_names_step repo oid name rest s true e ih = refl
  tag_names_step repo oid name rest s false e ih = ih

  pub tag_names_loop-tag_on :
      (repo : Repo) (oid : Oid) (names : List Bytes) (s : Store)
      → tag_names_loop g repo oid names s
        ≡ some (tag_on repo oid names, record s { held = with_copy (tag_on repo oid names) s.held })
  unfolding tag_names_loop
  tag_names_loop-tag_on repo oid [] s = refl
  tag_names_loop-tag_on repo oid (name ∷ rest) s =
      bind_some (tag_matches g repo oid name) _ (tag_matches-is_tag_of repo oid name s)
      ∙ tag_names_step repo oid name rest s (is_tag_of repo oid name) refl
          (tag_names_loop-tag_on repo oid rest s)
