-- ===== src/Graph/Json.antt =====
-- encoding/json as internal/graph/store.go uses it: the documents, the fields of a struct with
-- `omitempty`, and what a field of each type is read from. The text of a document is left out.
use nomici_orchestrator.Common.{
  zero, suc, ℤ, pos, negsuc, String, ◌==◌, Bool, Option, none, some, List, [], ◌∷◌, is_empty,
  if◌then◌else◌,
}

mutual
  pub data Json : Type 0 where
    null : Json
    bool : Bool → Json
    num : ℤ → Json
    str : String → Json
    arr : Elements → Json
    obj : Members → Json

  pub data Elements : Type 0 where
    nil : Elements
    cons : Json → Elements → Elements

  pub data Members : Type 0 where
    end : Members
    member : String → Json → Members → Members

-- the fields of a struct in the order of the struct, by their tags; `none` is a field that is omitted
abbrev pub Fields : Type 0
Fields = List (String × Option Json)

-- what is written for a struct
unfoldable pub emit : Fields → Members
emit [] = end
emit ((tag, none) ∷ fields) = emit fields
emit ((tag, some value) ∷ fields) = member tag value (emit fields)

-- `omitempty` on a text, an integer, a slice and a map
unfoldable pub omit_text : String → Option Json
omit_text s = if is_empty s then none else some (str s)

unfoldable pub omit_integer : ℤ → Option Json
omit_integer (pos zero) = none
omit_integer (pos (suc n)) = some (num (pos (suc n)))
omit_integer (negsuc n) = some (num (negsuc n))

module _ {A : Type 0} where
  -- a slice
  unfoldable pub elements : (A → Json) → List A → Elements
  elements value [] = nil
  elements value (x ∷ xs) = cons (value x) (elements value xs)

  -- a map; its members are in the order of the list, where Go sorts them
  unfoldable pub members : (A → String) → (A → Json) → List A → Members
  members key value [] = end
  members key value (x ∷ xs) = member (key x) (value x) (members key value xs)

  unfoldable pub omit_slice : (A → Json) → List A → Option Json
  unfolding elements
  omit_slice value [] = none
  omit_slice value (x ∷ xs) = some (arr (elements value (x ∷ xs)))

  unfoldable pub omit_map : (A → String) → (A → Json) → List A → Option Json
  unfolding members
  omit_map key value [] = none
  omit_map key value (x ∷ xs) = some (obj (members key value (x ∷ xs)))

-- the member that a field is read from, by the exact tag
unfoldable pub find : String → Members → Option Json
find tag end = none
find tag (member k value ms) = if k == tag then some value else find tag ms

-- A field of the zero value is left as it is where the member is missing or null. A value of another
-- type is an error.
unfoldable pub text_in : Option Json → Option String
text_in none = some ""
text_in (some null) = some ""
text_in (some (str s)) = some s
text_in (some value) = none

unfoldable pub integer_in : Option Json → Option ℤ
integer_in none = some (pos 0)
integer_in (some null) = some (pos 0)
integer_in (some (num n)) = some n
integer_in (some value) = none

module _ {A : Type 0} where
  infixl 5 ◌>>=◌
  unfoldable pub ◌>>=◌ : {B : Type 0} → Option A → (A → Option B) → Option B
  ◌>>=◌ none f = none
  ◌>>=◌ (some a) f = f a

module _ {A : Type 0} where
  unfoldable pub read_elements : (Json → Option A) → Elements → Option (List A)
  unfolding ◌>>=◌
  read_elements read nil = some []
  read_elements read (cons value xs) = do
    x ← read value
    rest ← read_elements read xs
    some (x ∷ rest)

  unfoldable pub read_members : (String → Json → Option A) → Members → Option (List A)
  unfolding ◌>>=◌
  read_members read end = some []
  read_members read (member k value ms) = do
    x ← read k value
    rest ← read_members read ms
    some (x ∷ rest)

  unfoldable pub slice_in : (Json → Option A) → Option Json → Option (List A)
  unfolding read_elements
  slice_in read none = some []
  slice_in read (some null) = some []
  slice_in read (some (arr xs)) = read_elements read xs
  slice_in read (some value) = none

  unfoldable pub map_in : (String → Json → Option A) → Option Json → Option (List A)
  unfolding read_members
  map_in read none = some []
  map_in read (some null) = some []
  map_in read (some (obj ms)) = read_members read ms
  map_in read (some value) = none

  -- a struct, by what it reads under each tag
  unfoldable pub struct_in : ((String → Option Json) → Option A) → Option Json → Option A
  unfolding find
  struct_in read none = read (λ tag. none)
  struct_in read (some null) = read (λ tag. none)
  struct_in read (some (obj ms)) = read (λ tag. find tag ms)
  struct_in read (some value) = none
