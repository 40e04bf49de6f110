-- ===== src/Json/Laws.antt =====
-- What reading a document gives back of what was written.
use mathlib.Core.Path.{subst}
use mathlib.Core.List.{append-nil, append_assoc}
use caep_dev.Base.{
  All, List, String, Bool, true, false, ◌||◌, [], ◌∷◌, ◌++◌, if◌then◌else◌, Bool-cases, inl, inr,
  Option, none, some, ◌≡◌, refl, ◌∙◌, ap, sym, ◌==◌, eq_iff, arith, Result, ok, and_then,
}
use caep_dev.Base.Dict.{Dict, lookup, put, HasDistinctKeys}
use caep_dev.Json.{Json, object, Members}
use caep_dev.Json.Decode.{
  write_fields, field, has_any, or_else, optional, Mismatch, read_map, fill_map, encode_map,
}

module _ {E A : Type 0} (read : A → Json → Result E A) (reads : String → Bool) where
  abbrev pub read_optional : A → Option Json → Result E A
  read_optional kept none = ok kept
  read_optional kept (some v) = read kept v

  -- An optional member is read if it addresses the field.
  pub field-optional :
      (key : String) (o : Option Json) (kept : A) (others : Members)
      → field read reads kept (optional key o others)
        ≡ and_then
            (if reads key then read_optional kept o else ok kept)
            (λ a. field read reads a others)
  unfolding field optional
  field-optional key none kept others = elim (Bool-cases (reads key)) [
    | inl own ↦ rw (own, and_then) refl
    | inr other ↦ rw (other, and_then) refl
  ]
  field-optional key (some v) kept others = refl

abbrev is_written : Option Json → Bool
is_written none = false
is_written (some v) = true

pub has_any-optional :
    (reads : String → Bool) (key : String) (o : Option Json) (others : Members)
    → has_any reads (optional key o others)
      ≡ (if reads key then is_written o else false) || has_any reads others
unfolding has_any optional
has_any-optional reads key none others = elim (Bool-cases (reads key)) [
  | inl own ↦ rw own refl
  | inr other ↦ rw other refl
]
has_any-optional reads key (some v) others = elim (Bool-cases (reads key)) [
  | inl own ↦ rw own refl
  | inr other ↦ rw other refl
]

pub or_else-none : {A : Type 0} (o : Option A) → or_else o none ≡ o
unfolding or_else
or_else-none none = refl
or_else-none (some v) = refl

module _ {A : Type 0} where
  lookup-middle :
      (j k : String) (v : A) (before after : Dict A)
      → lookup j (before ++ (k, v) ∷ after) ≡ none
      → (j == k) ≡ false
  unfolding lookup
  lookup-middle j k v [] after h = ground (arith, eq_iff j k, eq_iff k j)
  lookup-middle j k v ((i, w) ∷ before) after h = ground (arith, lookup-middle j k v before after)

  put_new :
      (k : String) (v : A) (before after : Dict A)
      → HasDistinctKeys (before ++ (k, v) ∷ after)
      → put k v before ≡ before ++ (k, v) ∷ []
  unfolding put lookup
  put_new k v [] after h = refl
  put_new k v ((j, w) ∷ before) after (fresh, h) =
      ground (arith, lookup-middle j k v before after fresh, put_new k v before after h)

module _ {A : Type 0} (read : Json → Result Mismatch A) (write : A → Json)
    (read-write : (a : A) → read (write a) ≡ ok a) where
  read_map-encode_map :
      (before m : Dict A)
      → HasDistinctKeys (before ++ m)
      → read_map read before (encode_map write m) ≡ ok (before ++ m)
  unfolding read_map encode_map
  read_map-encode_map before [] h = ap ok (sym (append-nil before))
  read_map-encode_map before ((k, v) ∷ m) h =
      rw (read-write v, put_new k v before m h)
        (read_map-encode_map (before ++ (k, v) ∷ []) m
            (subst (λ es. HasDistinctKeys es) (sym (append_assoc before ((k, v) ∷ []) m)) h)
          ∙ ap ok (append_assoc before ((k, v) ∷ []) m))

  -- A map comes back as it was, if its keys are distinct.
  pub fill_map-encode_map :
      (m : Dict A)
      → HasDistinctKeys m
      → fill_map read none (object (encode_map write m)) ≡ ok (some m)
  unfolding fill_map
  fill_map-encode_map m h = rw (read_map-encode_map [] m h) refl

module _ {E A : Type 0} (read : A → Json → Result E A) (reads : String → Bool) where
  -- Members that do not address the field leave it alone.
  pub field-write_fields :
      (fields : List (String × Option Json)) (kept : A) (others : Members)
      → All (λ f. reads f.0 ≡ false) fields
      → field read reads kept (write_fields fields others) ≡ field read reads kept others
  unfolding write_fields and_then
  field-write_fields [] kept others h = refl
  field-write_fields ((key, o) ∷ fields) kept others (h, hs) =
      field-optional read reads key o kept (write_fields fields others)
      ∙ rw h (field-write_fields fields kept others hs)

pub has_any-write_fields :
    (reads : String → Bool) (fields : List (String × Option Json)) (others : Members)
    → All (λ f. reads f.0 ≡ false) fields
    → has_any reads (write_fields fields others) ≡ has_any reads others
unfolding write_fields
has_any-write_fields reads [] others h = refl
has_any-write_fields reads ((key, none) ∷ fields) others (h, hs) =
    has_any-optional reads key none (write_fields fields others)
    ∙ rw h (has_any-write_fields reads fields others hs)
has_any-write_fields reads ((key, some v) ∷ fields) others (h, hs) =
    has_any-optional reads key (some v) (write_fields fields others)
    ∙ rw h (has_any-write_fields reads fields others hs)
