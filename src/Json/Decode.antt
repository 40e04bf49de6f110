-- ===== src/Json/Decode.antt =====
-- How Go's `encoding/json` fills a struct or a map from a document, and writes them.
-- A type error does not stop the decoder, which reports the first at the end: the decoders of one
-- field and of one map fail in its place, and name no reason.
use caep_dev.Base.{
  String, Bool, false, not, ◌&&◌, ◌||◌, List, [], ◌∷◌, contains, Option, none, some, leb, ◌==◌,
  if◌then◌else◌, Result, ok, err, and_then,
}
use caep_dev.Base.Int.{ℤ, pos, negsuc}
use caep_dev.Base.Text.{same_fold}
use caep_dev.Base.Dict.{Dict, put}
use caep_dev.Json.{Json, null, text, integer, object, Members, empty, member}

-- A key addresses the field that it names, and, if it names none of them, one it folds to. No two
-- of the struct's names fold to the same.
unfoldable pub addresses : List String → String → String → Bool
unfolding contains
addresses names name key = key == name || (not (contains names key) && same_fold key name)

-- a key addresses some of the fields
unfoldable pub has_any : (String → Bool) → Members → Bool
has_any reads empty = false
has_any reads (member key v others) = reads key || has_any reads others

module _ {A : Type 0} where
  unfoldable pub or_else : Option A → Option A → Option A
  or_else none o = o
  or_else (some v) o = some v

  -- a field of type `json.RawMessage`: the last member wins
  unfoldable pub last_entry : (String → Bool) → Dict A → Option A
  unfolding or_else
  last_entry reads [] = none
  last_entry reads ((key, v) ∷ entries) =
      or_else (last_entry reads entries) (if reads key then some v else none)

-- a field that a member that addresses it sets, or adds to, by `read`
module _ {E A : Type 0} (read : A → Json → Result E A) (reads : String → Bool) where
  unfoldable pub field : A → Members → Result E A
  unfolding and_then
  field kept empty = ok kept
  field kept (member key v others) =
      and_then (if reads key then read kept v else ok kept) (λ a. field a others)

-- The document has no value of the type that Go asks for.
pub data Mismatch : Type 0 where
  mismatch : Mismatch

-- `string`: null changes nothing
abbrev pub read_text : String → Json → Result Mismatch String
read_text kept null = ok kept
read_text kept (text s) = ok s
read_text kept _ = err mismatch

-- `*string`: null makes it nil
abbrev pub read_pointer : Option String → Json → Result Mismatch (Option String)
read_pointer kept null = ok none
read_pointer kept (text s) = ok (some s)
read_pointer kept _ = err mismatch

abbrev pub is_int64 : ℤ → Bool
is_int64 (pos n) = leb n 9223372036854775807
is_int64 (negsuc n) = leb n 9223372036854775807

-- `*int64`: an integer literal that 64 bits hold
unfoldable pub read_int64 : Option ℤ → Json → Result Mismatch (Option ℤ)
read_int64 kept null = ok none
read_int64 kept (integer n) = if is_int64 n then ok (some n) else err mismatch
read_int64 kept _ = err mismatch

-- one element of a `map[string]string`: null stores ""
abbrev pub read_entry : Json → Result Mismatch String
read_entry null = ok ""
read_entry (text s) = ok s
read_entry _ = err mismatch

-- one element of a `map[string]interface{}`, which keeps its document
abbrev pub read_any : Json → Result Mismatch Json
read_any v = ok v

module _ {A : Type 0} (read : Json → Result Mismatch A) where
  -- The members add to a map that stands before.
  unfoldable pub read_map : Dict A → Members → Result Mismatch (Dict A)
  unfolding and_then
  read_map m empty = ok m
  read_map m (member key v others) = and_then (read v) (λ a. read_map (put key a m) others)

  -- a field of a map type: null makes it nil
  unfoldable pub fill_map : Option (Dict A) → Json → Result Mismatch (Option (Dict A))
  unfolding read_map and_then
  fill_map kept null = ok none
  fill_map kept (object members) =
      and_then (read_map (elim kept [ none ↦ [] | some m ↦ m ]) members) (λ m. ok (some m))
  fill_map kept _ = err mismatch

  -- `json.Unmarshal(data, &m)`, for a nil map
  unfoldable pub decode_map : Json → Result Mismatch (Dict A)
  unfolding read_map
  decode_map null = ok []
  decode_map (object members) = read_map [] members
  decode_map _ = err mismatch

-- The members from which `json.Unmarshal` fills a struct; null leaves the struct as it is.
unfoldable pub struct_members : Json → Result Mismatch Members
struct_members null = ok empty
struct_members (object members) = ok members
struct_members _ = err mismatch

-- `json.Marshal` of a map. It sorts the keys, which are distinct; here they keep their order.
module _ {A : Type 0} (write : A → Json) where
  unfoldable pub encode_map : Dict A → Members
  encode_map [] = empty
  encode_map ((key, a) ∷ m) = member key (write a) (encode_map m)

-- a member whose field has `omitempty`
unfoldable pub optional : String → Option Json → Members → Members
optional key none others = others
optional key (some v) others = member key v others

-- the members of a struct, before others: a field with `omitempty` may be left out
unfoldable pub write_fields : List (String × Option Json) → Members → Members
unfolding optional
write_fields [] others = others
write_fields ((key, o) ∷ fields) others = optional key o (write_fields fields others)
