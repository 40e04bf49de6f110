-- ===== src/Tokens/Builder.antt =====
-- secevent/pkg/builder/builder.go. The generator of ids is a function of its own state, which is all
-- that `Generate` changes.
use caep_dev.Base.{String, List, [], ◌∷◌, Option, none, some, ◌==◌, if◌then◌else◌}
use caep_dev.Models.Receiver.{Time}
use caep_dev.Tokens.Single
use caep_dev.Tokens.Single.{SecEvent, new_sec_event}
use caep_dev.Tokens.Multi
use caep_dev.Tokens.Multi.{MultiSecEvent, new_multi_sec_event}

pub record Builder (S : Type 0) : Type 0 where
  pub default_issuer : String
  pub default_id_generator : Option (S → S × String)

module _ {S : Type 0} where
  unfoldable pub with_default_issuer : String → Builder S → Builder S
  with_default_issuer issuer b = record b { default_issuer = issuer }

  unfoldable pub with_default_id_generator : Option (S → S × String) → Builder S → Builder S
  with_default_id_generator generator b = record b { default_id_generator = generator }

  abbrev apply_all : List (Builder S → Builder S) → Builder S → Builder S
  apply_all [] b = b
  apply_all (option ∷ options) b = apply_all options (option b)

  -- `uuid` generates new UUIDs.
  unfoldable pub new_builder : (uuid : S → S × String) → List (Builder S → Builder S) → Builder S
  new_builder uuid options =
      apply_all options (record { default_issuer = ""; default_id_generator = some uuid })

  abbrev identified_by : {T : Type 0} → (String → T → T) → Option (S → S × String) → S → T → S × T
  identified_by with_id none s t = (s, t)
  identified_by with_id (some generate) s t = let (s', id) = generate s in (s', with_id id t)

  -- `NewMultiSecEvent`
  unfoldable pub build_multi :
      (numeric_date : Time → Time) → Time → Builder S → S → S × MultiSecEvent
  unfolding new_multi_sec_event Multi.with_issuer Multi.with_id
  build_multi numeric_date now b s =
      let t = new_multi_sec_event numeric_date now in
      identified_by Multi.with_id b.default_id_generator s
        (if b.default_issuer == "" then t else Multi.with_issuer b.default_issuer t)

  -- `NewSecEvent`
  unfoldable pub build_single : (numeric_date : Time → Time) → Time → Builder S → S → S × SecEvent
  unfolding new_sec_event Single.with_issuer Single.with_id
  build_single numeric_date now b s =
      let t = new_sec_event numeric_date now in
      identified_by Single.with_id b.default_id_generator s
        (if b.default_issuer == "" then t else Single.with_issuer b.default_issuer t)
