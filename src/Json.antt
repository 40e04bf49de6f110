-- ===== src/Json.antt =====
-- JSON documents as Go's `encoding/json` reads them into the structs and maps of secevent/pkg.
use caep_dev.Base.{String, Bool}
use caep_dev.Base.Int.{ℤ}
pub mod Decode
pub mod Laws

-- A number is an integer literal, or the text of a literal with a fraction or an exponent. A text
-- stands without its escapes, an object has its members in the order of the document.
mutual
  pub data Json : Type 0 where
    null : Json
    flag : Bool → Json
    integer : ℤ → Json
    fraction : (literal : String) → Json
    text : String → Json
    array : (elements : Elements) → Json
    object : (members : Members) → Json

  pub data Elements : Type 0 where
    no_elements : Elements
    element : (first : Json) (others : Elements) → Elements

  pub data Members : Type 0 where
    empty : Members
    member : (key : String) (content : Json) (others : Members) → Members
