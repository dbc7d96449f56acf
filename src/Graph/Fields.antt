-- ===== src/Graph/Fields.antt =====
-- The JSON of internal/graph: what the members of a struct, and the values in them, are read back as.
use nomici_orchestrator.Common.{
  zero, suc, ℤ, pos, negsuc, String, ◌==◌, eq_iff, ◌≡◌, refl, sym, ap, subst, Bool, true, false,
  not, ◌&&◌, Option, none, some, List, [], ◌∷◌, map, any, arith, is_empty, if◌then◌else◌,
  Bool-cases, inl, inr,
}
use nomici_orchestrator.Graph.Json.{
  Json, arr, obj, Fields, emit, omit_text, omit_integer, elements, members, omit_slice, omit_map,
  find, text_in, integer_in, ◌>>=◌, read_elements, read_members, slice_in, map_in, struct_in,
}

-- what a struct has under a tag
abbrev pub field : String → Fields → Option Json
field tag [] = none
field tag (f ∷ fs) = if f.0 == tag then f.1 else field tag fs

abbrev pub has_tag : String → Fields → Bool
has_tag tag fs = any (λ f. f.0 == tag) fs

-- no tag stands twice
abbrev pub distinct : Fields → Bool
distinct [] = true
distinct (f ∷ fs) = not (has_tag f.0 fs) && distinct fs

find-emit_gone : (tag : String) (fs : Fields) → has_tag tag fs ≡ false → find tag (emit fs) ≡ none
unfolding find emit
find-emit_gone tag [] h = refl
find-emit_gone tag ((k, none) ∷ fs) h = find-emit_gone tag fs (ground arith)
find-emit_gone tag ((k, some value) ∷ fs) h = ground (arith, find-emit_gone tag fs)

-- A struct whose tags are distinct has in its JSON, under each tag, what it has there.
pub find-emit :
    (tag : String) (fs : Fields) → distinct fs ≡ true → find tag (emit fs) ≡ field tag fs
unfolding find emit
find-emit tag [] h = refl
find-emit tag ((k, none) ∷ fs) h = elim (Bool-cases (k == tag)) [
  | inl t ↦
      let gone : has_tag k fs ≡ false = ground arith in
      rw t (find-emit_gone tag fs (subst (λ x. has_tag x fs ≡ false) ((eq_iff k tag).0 t) gone))
  | inr t ↦ rw t (find-emit tag fs (ground arith))
]
find-emit tag ((k, some value) ∷ fs) h = ground (arith, find-emit tag fs)

-- so a struct is read from its JSON as it is from its fields
pub struct_in-emit :
    {A : Type 0} (read : (String → Option Json) → Option A) (fs : Fields)
    → distinct fs ≡ true
    → struct_in read (some (obj (emit fs))) ≡ read (λ tag. field tag fs)
unfolding struct_in
struct_in-emit read fs h = λ i. read (λ tag. find-emit tag fs h i)

is_empty-eq : (s : String) → is_empty s ≡ true → s ≡ ""
unfolding is_empty
is_empty-eq String.[] h = refl
is_empty-eq (String.◌∷◌ c s) h = absurd (ground arith)

pub text_in-omit_text : (s : String) → text_in (omit_text s) ≡ some s
unfolding text_in omit_text
text_in-omit_text s = elim (Bool-cases (is_empty s)) [
  | inl e ↦ rw e (ap some (sym (is_empty-eq s e)))
  | inr e ↦ rw e refl
]

pub integer_in-omit_integer : (n : ℤ) → integer_in (omit_integer n) ≡ some n
unfolding integer_in omit_integer
integer_in-omit_integer (pos zero) = refl
integer_in-omit_integer (pos (suc n)) = refl
integer_in-omit_integer (negsuc n) = refl

module _ {A : Type 0} (value : A → Json) (back : A → A) where
  module _ (read : Json → Option A) (reads : (x : A) → read (value x) ≡ some (back x)) where
    pub read_elements-elements :
        (xs : List A) → read_elements read (elements value xs) ≡ some (map back xs)
    unfolding read_elements elements ◌>>=◌
    read_elements-elements [] = refl
    read_elements-elements (x ∷ xs) = rw (reads x, read_elements-elements xs) refl

    pub slice_in-elements :
        (xs : List A) → slice_in read (some (arr (elements value xs))) ≡ some (map back xs)
    unfolding slice_in
    slice_in-elements xs = read_elements-elements xs

    pub slice_in-omit_slice :
        (xs : List A) → slice_in read (omit_slice value xs) ≡ some (map back xs)
    unfolding slice_in omit_slice
    slice_in-omit_slice [] = refl
    slice_in-omit_slice (x ∷ xs) = read_elements-elements (x ∷ xs)

  module _ (key : A → String) (read : String → Json → Option A)
      (reads : (x : A) → read (key x) (value x) ≡ some (back x)) where
    pub read_members-members :
        (xs : List A) → read_members read (members key value xs) ≡ some (map back xs)
    unfolding read_members members ◌>>=◌
    read_members-members [] = refl
    read_members-members (x ∷ xs) = rw (reads x, read_members-members xs) refl

    pub map_in-members :
        (xs : List A) → map_in read (some (obj (members key value xs))) ≡ some (map back xs)
    unfolding map_in
    map_in-members xs = read_members-members xs

    pub map_in-omit_map : (xs : List A) → map_in read (omit_map key value xs) ≡ some (map back xs)
    unfolding map_in omit_map
    map_in-omit_map [] = refl
    map_in-omit_map (x ∷ xs) = read_members-members (x ∷ xs)
