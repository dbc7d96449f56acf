-- ===== src/AgentSpec/Printed.antt =====
-- internal/agentspec/types.go itoa: that it writes the number, and that its buffer is long enough.
use Prim.Native.Char.{code}
use Prim.Native.Nat.{◌/◌, ◌%◌, ◌^◌}
use nomici_orchestrator.Common.{
  ℕ, zero, suc, ◌+◌, ◌-◌, ◌*◌, ◌<◌, ◌≤◌, String, ◌≡◌, refl, ◌∙◌, ap, some, List, [], ◌∷◌, ◌=ℕ=◌,
  Bool-cases, inl, inr, arith, codes, digit, length, All,
}
use nomici_orchestrator.AgentSpec.Decimal.{fill, itoa}

-- the number that decimal digits stand for, after the digits of `n`
abbrev pub number_of : ℕ → List ℕ → ℕ
number_of n [] = n
number_of n (c ∷ cs) = number_of (n * 10 + (c - b'0')) cs

abbrev pub IsDigit : ℕ → Type 0
IsDigit c = (b'0' ≤ c) × (c ≤ b'9')

digit-code : (d : ℕ) → d < 10 → code (digit d) ≡ b'0' + d
unfolding digit
digit-code zero h = refl
digit-code (suc zero) h = refl
digit-code (suc (suc zero)) h = refl
digit-code (suc (suc (suc zero))) h = refl
digit-code (suc (suc (suc (suc zero)))) h = refl
digit-code (suc (suc (suc (suc (suc zero))))) h = refl
digit-code (suc (suc (suc (suc (suc (suc zero)))))) h = refl
digit-code (suc (suc (suc (suc (suc (suc (suc zero))))))) h = refl
digit-code (suc (suc (suc (suc (suc (suc (suc (suc zero)))))))) h = refl
digit-code (suc (suc (suc (suc (suc (suc (suc (suc (suc zero))))))))) h = refl
digit-code (suc (suc (suc (suc (suc (suc (suc (suc (suc (suc n)))))))))) h = absurd (omega arith)

-- ten to the power of `k`
tens : ℕ → ℕ
tens zero = 1
tens (suc k) = 10 * tens k

-- What the loop makes of a number with no more than `k` digits, where as many bytes are free.
record Written (value k : ℕ) (text s : String) : Type 0 where
  number : number_of 0 (codes s) ≡ number_of value (codes text)
  digits : All IsDigit (codes text) → All IsDigit (codes s)
  short : length (codes s) ≤ k + length (codes text)

unwritten : (value : ℕ) (k : ℕ) (text : String) → value ≡ 0 → Written value k text text
unwritten value k text e = record {
  number = rw e (leading (codes text));
  digits = λ h. h;
  short = omega arith;
}
  where
    leading : (cs : List ℕ) → number_of 0 cs ≡ number_of 0 cs
    leading cs = refl

-- one digit more in front of the text
digit-Written :
    (value k : ℕ) (text s : String)
    → Written (value / 10) k (String.◌∷◌ (digit (value % 10)) text) s
    → Written value (suc k) text s
digit-Written value k text s w =
    let is : code (digit (value % 10)) ≡ b'0' + value % 10 =
      digit-code (value % 10) (omega arith) in
    record {
      number = w.number ∙ ap (λ n. number_of n (codes text)) (omega (arith, is));
      digits = λ h. w.digits ((omega (arith, is), omega (arith, is)), h);
      short = omega (arith, w.short);
    }

fill-Written :
    (free k value : ℕ) (text : String)
    → k ≤ free
    → value < tens k
    → (s : String) × (fill free value text ≡ some s) × Written value k text s
unfolding fill tens
fill-Written zero zero value text h v =
    let e : value ≡ 0 = omega arith in (text, rw e refl, unwritten value zero text e)
fill-Written zero (suc k) value text h v = absurd (omega arith)
fill-Written (suc free) zero value text h v =
    let e : value ≡ 0 = omega arith in (text, rw e refl, unwritten value zero text e)
fill-Written (suc free) (suc k) value text h v = elim (Bool-cases (value =ℕ= 0)) [
  | inl e ↦ (text, rw e refl, unwritten value (suc k) text (ground arith))
  | inr e ↦
      let (s, done, w) =
        fill-Written free k (value / 10) (String.◌∷◌ (digit (value % 10)) text) (omega arith)
          (omega arith) in
      (s, rw e done, digit-Written value k text s w)
]

-- A number below 2 ^ 63 is written within the buffer: as decimal digits that stand for it, 19 at
-- most.
pub itoa-IsDecimal :
    (value : ℕ)
    → value < 2 ^ 63
    → (s : String) × (itoa value ≡ some s)
      × (number_of 0 (codes s) ≡ value)
      × All IsDigit (codes s)
      × (length (codes s) ≤ 19)
unfolding itoa tens
itoa-IsDecimal value h = elim (Bool-cases (value =ℕ= 0)) [
  | inl e ↦ ("0", rw e refl, ground arith, ((omega arith, omega arith), tt), omega arith)
  | inr e ↦
      let (s, done, w) = fill-Written 20 19 value "" (omega arith) (omega arith) in
      (s, rw e done, w.number, w.digits tt, w.short)
]
