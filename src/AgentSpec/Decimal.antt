-- ===== src/AgentSpec/Decimal.antt =====
-- internal/agentspec/types.go itoa (and agentspecIndex of internal/graph/compiler.go, which is the same
-- function): a number in decimal, written from the end of a buffer of 20 bytes. A negative number,
-- which neither is called with, is left out.
use nomici_orchestrator.Common.{
  ℕ, zero, suc, String, Option, none, some, if◌then◌else◌, ◌=ℕ=◌, digit,
}
use Prim.Native.Nat.{◌/◌, ◌%◌}

-- The loop, with the bytes that are free and the text behind them; `none` is the panic where there is
-- no byte left.
unfoldable pub fill : ℕ → ℕ → String → Option String
unfolding digit
fill zero value text = if value =ℕ= 0 then some text else none
fill (suc free) value text =
    let rest = fill free (value / 10) (String.◌∷◌ (digit (value % 10)) text) in
    if value =ℕ= 0 then some text else rest

unfoldable pub itoa : ℕ → Option String
itoa value = if value =ℕ= 0 then some "0" else fill 20 value ""

-- `itoa` of an index, which is less than 2 ^ 63 and so not beyond the buffer
unfoldable pub index_text : ℕ → String
unfolding itoa
index_text index = elim (itoa index) [ some text ↦ text | none ↦ "" ]
