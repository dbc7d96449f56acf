-- ===== src/Paths.antt =====
-- The functions of Go's path/filepath that the program calls, as they are on Unix, and what the
-- program asks of the host that it runs on.
pub mod Parts
use Prim.Native.Char.{code}
use nomici_orchestrator.Common.{
  String, ◌==◌, Bool, Option, some, List, [], ◌∷◌, if◌then◌else◌, codes, has_prefix, ◌^+◌, ◌=ℕ=◌,
}
use mathlib.Core.Option

-- The working directory, `none` where os.Getwd fails; whether runtime.GOOS is "windows"; SHA-256 of a
-- text, in hexadecimal.
pub record Host : Type 0 where
  pub working_directory : Option String
  pub windows : Bool
  pub sha256_hex : String → String

unfoldable pub starts_with : String → String → Bool
unfolding has_prefix
starts_with prefix s = has_prefix (codes prefix) (codes s)

-- a character in front of the first part
unfoldable pub extend : String → List String → List String
extend c [] = c ∷ []
extend c (p ∷ ps) = (c ^+ p) ∷ ps

-- The parts between the slashes, empty ones included; there is one at least.
unfoldable pub split : String → List String
unfolding extend
split String.[] = "" ∷ []
split (String.◌∷◌ c s) =
    let rest = split s in
    if code c =ℕ= b'/' then "" ∷ rest else extend (String.◌∷◌ c String.[]) rest

-- strings.Join(parts, "/")
unfoldable pub join_parts : List String → String
join_parts [] = ""
join_parts (p ∷ []) = p
join_parts (p ∷ q ∷ ps) = p ^+ "/" ^+ join_parts (q ∷ ps)

unfoldable pub is_abs : String → Bool
unfolding starts_with
is_abs p = starts_with "/" p

-- What filepath.Clean does with one part, the parts kept so far last first: an empty part and `.` are
-- dropped, and `..` takes the last part away, if there is one other than `..`; a rooted path drops
-- it otherwise.
unfoldable pub clean_part : Bool → List String → String → List String
clean_part rooted [] p =
    if p == ""
    then []
    else if p == "."
    then []
    else if p == ".."
    then (if rooted then [] else p ∷ [])
    else p ∷ []
clean_part rooted (k ∷ kept) p =
    if p == ""
    then k ∷ kept
    else if p == "."
    then k ∷ kept
    else if p == ".."
    then (if k == ".." then p ∷ k ∷ kept else kept)
    else p ∷ k ∷ kept

unfoldable pub clean_parts : Bool → List String → List String → List String
unfolding clean_part
clean_parts rooted kept [] = kept
clean_parts rooted kept (p ∷ ps) = clean_parts rooted (clean_part rooted kept p) ps

-- the parts kept, put in order
unfoldable pub ordered : List String → List String → List String
ordered [] acc = acc
ordered (k ∷ ks) acc = ordered ks (k ∷ acc)

-- filepath.Clean
unfoldable pub clean : String → String
unfolding split join_parts is_abs clean_parts ordered
clean p =
    let parts = ordered (clean_parts (is_abs p) [] (split p)) [] in
    if is_abs p
    then "/" ^+ join_parts parts
    else (let joined = join_parts parts in if joined == "" then "." else joined)

-- filepath.Join of two elements
unfoldable pub join : String → String → String
unfolding clean
join a b =
    if a == ""
    then (if b == "" then "" else clean b)
    else if b == ""
    then clean a
    else clean (a ^+ "/" ^+ b)

-- filepath.Abs
unfoldable pub abs : Host → String → Option String
unfolding clean join
abs host p =
    if is_abs p then some (clean p) else Option.map (λ dir. join dir p) host.working_directory

-- what stands before the last slash, with the slash
before_last : List String → String
unfolding join_parts
before_last [] = ""
before_last (p ∷ []) = ""
before_last (p ∷ q ∷ ps) = p ^+ "/" ^+ before_last (q ∷ ps)

-- filepath.Dir
unfoldable pub dir : String → String
unfolding clean split before_last
dir p = clean (before_last (split p))
