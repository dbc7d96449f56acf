-- ===== src/Paths/Parts.antt =====
-- path/filepath: the parts of a path.
use Prim.Native.Char.{Char, code}
use Prim.Native.String.append
use nomici_orchestrator.Common.{
  ℕ, String, ◌==◌, eq_iff, ◌≡◌, refl, sym, ◌∙◌, ap, subst, inl, inr, Bool, true, false, ◌&&◌, some,
  List, [], ◌∷◌, ◌++◌, arith, has_prefix, ◌^+◌, ◌=ℕ=◌, Bool-cases, All, map-eq-some,
}
use mathlib.Core.Option
use text.Mathlib.TextEquality.{Char-path}
use text.Mathlib.TextLemmas.{append_assoc}
use nomici_orchestrator.Paths.{
  split, extend, join_parts, is_abs, starts_with, clean_part, clean_parts, ordered, clean, join,
  abs, Host,
}

split-cons : (s : String) → (p : String) × (ps : List String) × (split s ≡ p ∷ ps)
unfolding split extend
split-cons String.[] = ("", [], refl)
split-cons (String.◌∷◌ c s) = elim (Bool-cases (code c =ℕ= b'/')) [
  | inl e ↦ ("", split s, rw e refl)
  | inr e ↦
      let (p, ps, same) = split-cons s in (String.◌∷◌ c String.[] ^+ p, ps, rw e (rw same refl))
]

extend-append :
    (c s : String) (qs : List String) → extend c (split s ++ qs) ≡ extend c (split s) ++ qs
unfolding extend
extend-append c s qs = let (p, ps, same) = split-cons s in rw same refl

slash : (t : String) → "/" ^+ t ≡ String.◌∷◌ "/" t
slash t = append.cons "/" "" t ∙ ap (λ x. String.◌∷◌ "/" x) (append.nil t)

-- the parts of a path before a slash and of what follows it
pub split-append : (s t : String) → split (s ^+ "/" ^+ t) ≡ split s ++ split t
unfolding split
split-append String.[] t = rw (append.nil ("/" ^+ t), slash t) refl
split-append (String.◌∷◌ c s) t =
    rw (append.cons c s ("/" ^+ t)) (elim (Bool-cases (code c =ℕ= b'/')) [
      | inl e ↦ rw e (ap (λ x. "" ∷ x) (split-append s t))
      | inr e ↦ rw e (rw (split-append s t) (extend-append (String.◌∷◌ c String.[]) s (split t)))
    ])

-- a part holds no slash
abbrev IsPart : String → Type 0
IsPart p = split p ≡ p ∷ []

split-IsPart : (s : String) → All IsPart (split s)
unfolding split extend
split-IsPart String.[] = (refl, tt)
split-IsPart (String.◌∷◌ c s) = elim (Bool-cases (code c =ℕ= b'/')) [
  | inl e ↦ rw e (refl, split-IsPart s)
  | inr e ↦
      let (p, ps, same) = split-cons s in
      let parts : All IsPart (p ∷ ps) = subst (All IsPart) same (split-IsPart s) in
      rw e (rw same (longer c p e parts.0, parts.1))
]
  where
    longer :
        (c : Char) (p : String)
        → code c =ℕ= b'/' ≡ false
        → IsPart p
        → IsPart (String.◌∷◌ c String.[] ^+ p)
    longer c p e h =
        rw (append.cons c "" p, append.nil p)
          (rw e (
            rw h (ap (λ x. x ∷ []) (append.cons c "" p ∙ ap (λ x. String.◌∷◌ c x) (append.nil p)))))

-- The path of some parts has these parts.
split-join_parts :
    (p : String) (ps : List String) → All IsPart (p ∷ ps) → split (join_parts (p ∷ ps)) ≡ p ∷ ps
unfolding join_parts
split-join_parts p [] h = h.0
split-join_parts p (q ∷ ps) h =
    split-append p (join_parts (q ∷ ps)) ∙ rw (h.0, split-join_parts q ps h.1) refl

-- a part that `clean` keeps in a rooted path
abbrev Stays : String → Type 0
Stays p = IsPart p × (p == ".." ≡ false)

clean_part-Stays :
    (kept : List String) (p : String)
    → All Stays kept
    → IsPart p
    → All Stays (clean_part true kept p)
unfolding clean_part
clean_part-Stays [] p h part = elim (Bool-cases (p == "")) [
  | inl e ↦ rw e tt
  | inr e ↦ elim (Bool-cases (p == ".")) [
    | inl f ↦ rw (e, f) tt
    | inr f ↦ elim (Bool-cases (p == "..")) [
      | inl g ↦ rw (e, f, g) tt
      | inr g ↦ rw (e, f, g) ((part, g), tt)
    ]
  ]
]
clean_part-Stays (k ∷ kept) p h part = elim (Bool-cases (p == "")) [
  | inl e ↦ rw e h
  | inr e ↦ elim (Bool-cases (p == ".")) [
    | inl f ↦ rw (e, f) h
    | inr f ↦ elim (Bool-cases (p == "..")) [
      | inl g ↦ rw (e, f, g, h.0.1) h.1
      | inr g ↦ rw (e, f, g) ((part, g), h)
    ]
  ]
]

clean_parts-Stays :
    (kept ps : List String) → All Stays kept → All IsPart ps → All Stays (clean_parts true kept ps)
unfolding clean_parts
clean_parts-Stays kept [] h parts = h
clean_parts-Stays kept (p ∷ ps) h parts =
    clean_parts-Stays (clean_part true kept p) ps (clean_part-Stays kept p h parts.0) parts.1

ordered-Stays : (ps acc : List String) → All Stays ps → All Stays acc → All Stays (ordered ps acc)
unfolding ordered
ordered-Stays [] acc h k = k
ordered-Stays (p ∷ ps) acc h k = ordered-Stays ps (p ∷ acc) h.1 (h.0, k)

Stays-IsPart : (ps : List String) → All Stays ps → All IsPart ps
Stays-IsPart [] h = tt
Stays-IsPart (p ∷ ps) h = (h.0.0, Stays-IsPart ps h.1)

starts_with-cut : (r p : String) → starts_with r p ≡ true → (t : String) × (p ≡ r ^+ t)
unfolding starts_with has_prefix
starts_with-cut String.[] p h = (p, sym (append.nil p))
starts_with-cut (String.◌∷◌ c r) String.[] h = absurd (ground arith)
starts_with-cut (String.◌∷◌ c r) (String.◌∷◌ d p) h =
    let (first, rest) = both _ _ h in
    let (t, same) = starts_with-cut r p rest in
    let chars : d ≡ c = sym (Char-path c d (same_number (code c) (code d) first)) in
    (
      t,
      ap (λ x. String.◌∷◌ d x) same
          ∙ ap (λ x. String.◌∷◌ x (r ^+ t)) chars
          ∙ sym (append.cons c r t),
    )
  where
    both : (a b : Bool) → a && b ≡ true → (a ≡ true) × (b ≡ true)
    both a b h = ground arith

    same_number : (m n : ℕ) → m =ℕ= n ≡ true → m ≡ n
    same_number m n h = ground arith

-- None of the parts of a path leads up.
abbrev pub IsDown : List String → Type 0
IsDown = All (λ p. p == ".." ≡ false)

Stays-IsDown : (ps : List String) → All Stays ps → IsDown ps
Stays-IsDown [] h = tt
Stays-IsDown (p ∷ ps) h = (h.0.1, Stays-IsDown ps h.1)

split-slash : (t : String) → split ("/" ^+ t) ≡ "" ∷ split t
unfolding split
split-slash t = rw (slash t) refl

rooted-IsDown : (ps : List String) → All Stays ps → IsDown (split ("/" ^+ join_parts ps))
unfolding split join_parts
rooted-IsDown [] h = (refl, (refl, tt))
rooted-IsDown (p ∷ ps) h =
    rw (split-slash (join_parts (p ∷ ps)), split-join_parts p ps (Stays-IsPart (p ∷ ps) h))
      (refl, Stays-IsDown (p ∷ ps) h)

-- A cleaned rooted path does not lead up.
pub clean-IsDown : (q : String) → is_abs q ≡ true → IsDown (split (clean q))
unfolding clean
clean-IsDown q rooted =
    rw rooted
      (rooted-IsDown _ (ordered-Stays _ [] (clean_parts-Stays [] (split q) tt (split-IsPart q)) tt))

is_abs-append : (a b : String) → is_abs a ≡ true → is_abs (a ^+ b) ≡ true
unfolding is_abs starts_with has_prefix
is_abs-append String.[] b h = absurd (ground arith)
is_abs-append (String.◌∷◌ c s) b h = rw (append.cons c s b) h

join-IsDown : (a b : String) → is_abs a ≡ true → IsDown (split (join a b))
unfolding join is_abs starts_with has_prefix
join-IsDown a b rooted = elim (Bool-cases (a == "")) [
  | inl e ↦ absurd (empty (subst (λ x. is_abs x ≡ true) ((eq_iff a "").0 e) rooted))
  | inr e ↦ elim (Bool-cases (b == "")) [
    | inl f ↦ rw (e, f) (clean-IsDown a rooted)
    | inr f ↦ rw (e, f) (clean-IsDown (a ^+ "/" ^+ b) (is_abs-append a ("/" ^+ b) rooted))
  ]
]
  where
    empty : is_abs "" ≡ true → ⊥
    empty h = ground arith

-- Where the working directory is a rooted path, an absolute path does not lead up.
pub abs-IsDown :
    (host : Host) (q : String) {p : String}
    → ((dir : String) → host.working_directory ≡ some dir → is_abs dir ≡ true)
    → abs host q ≡ some p
    → IsDown (split p)
unfolding abs
abs-IsDown host q {p} dir_abs e = elim (Bool-cases (is_abs q)) [
  | inl a ↦
      let same : some (clean q) ≡ some p = rw (← e, a) refl in
      rw (← some_inj same) (clean-IsDown q a)
  | inr a ↦
      let there : Option.map (λ dir. join dir q) host.working_directory ≡ some p =
        rw (← e, a) refl in
      let (dir, at, same) = map-eq-some _ host.working_directory there in
      rw (← same) (join-IsDown dir q (dir_abs dir at))
]
  where
    some_inj : {x y : String} → some x ≡ some y → x ≡ y
    some_inj h = ground arith

-- A path that begins with another one and a slash has the parts of that one first.
pub starts_with-split :
    (r p : String)
    → starts_with (r ^+ "/") p ≡ true
    → (rest : List String) × (split p ≡ split r ++ rest)
starts_with-split r p h =
    let (t, same) = starts_with-cut (r ^+ "/") p h in
    (split t, ap split (same ∙ append_assoc r "/" t) ∙ split-append r t)
