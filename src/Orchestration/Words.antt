-- ===== src/Orchestration/Words.antt =====
-- internal/orchestration/router.go: what the words of a prompt say. A text that is searched is the
-- list of its code points.
use Prim.Native.Char.{Char, code}
use nomici_orchestrator.Common.{
  ℕ, String, Bool, true, false, ◌&&◌, ◌||◌, not, List, [], ◌∷◌, ◌=ℕ=◌, leb, ltb, codes, is_space,
  contains, has_prefix, if◌then◌else◌, any, length, map,
}

module _ {A : Type 0} (p : A → Bool) where
  add_to_first : A → List (List A) → List (List A)
  add_to_first a [] = (a ∷ []) ∷ []
  add_to_first a (xs ∷ rest) = (a ∷ xs) ∷ rest

  -- what stands between the elements that pass the test, empty pieces included
  pieces : List A → List (List A)
  unfolding add_to_first
  pieces [] = [] ∷ []
  pieces (a ∷ l) = let rest = pieces l in if p a then [] ∷ rest else add_to_first a rest

  filled : List (List A) → List (List A)
  filled [] = []
  filled ([] ∷ rest) = filled rest
  filled ((a ∷ xs) ∷ rest) = (a ∷ xs) ∷ filled rest

  -- strings.FieldsFunc
  unfoldable pub fields_by : List A → List (List A)
  unfolding pieces filled
  fields_by l = filled (pieces l)

  skip : List A → List A
  skip [] = []
  skip (a ∷ l) = if p a then skip l else a ∷ l

  skip_end : List A → List A
  skip_end [] = []
  skip_end (a ∷ l) =
      let rest = skip_end l in if p a && elim rest [ [] ↦ true | _ ↦ false ] then [] else a ∷ rest

  -- strings.TrimFunc
  unfoldable pub trim_by : List A → List A
  unfolding skip skip_end
  trim_by l = skip_end (skip l)

chars : String → List Char
chars String.[] = []
chars (String.◌∷◌ c s) = c ∷ chars s

text_of : List Char → String
text_of [] = String.[]
text_of (c ∷ cs) = String.◌∷◌ c (text_of cs)

-- strings.Fields
unfoldable pub fields : String → List String
unfolding chars text_of fields_by is_space
fields s = map text_of (fields_by (λ c. is_space (code c)) (chars s))

unfoldable pub equal_codes : List ℕ → List ℕ → Bool
equal_codes [] [] = true
equal_codes [] (d ∷ ds) = false
equal_codes (c ∷ cs) [] = false
equal_codes (c ∷ cs) (d ∷ ds) = c =ℕ= d && equal_codes cs ds

unfoldable pub contains_any : List ℕ → List String → Bool
unfolding contains
contains_any value needles = any (λ n. contains (codes n) value) needles

abbrev is_token_code : ℕ → Bool
is_token_code r = (leb b'a' r && leb r b'z') || (leb b'0' r && leb r b'9')

unfoldable pub contains_token : List ℕ → List String → Bool
unfolding fields_by equal_codes
contains_token value tokens =
    any (λ field. any (λ token. equal_codes field (codes token)) tokens)
      (fields_by (λ r. not (is_token_code r)) value)

unfoldable pub wants_plan : List ℕ → Bool
wants_plan lower = contains_any lower ("plan" ∷ "roadmap" ∷ "方案" ∷ "计划" ∷ "拆解" ∷ "规划" ∷ [])

unfoldable pub wants_research : List ℕ → Bool
wants_research lower = contains_any lower (
    "research" ∷ "compare" ∷ "investigate" ∷ "analyze" ∷ "inspect" ∷ "review" ∷ "audit" ∷ "查" ∷ "研究"
    ∷ "对比" ∷ "分析" ∷ "参考" ∷ "审视" ∷ [])

unfoldable pub wants_fresh_info : List ℕ → Bool
wants_fresh_info lower =
    contains_any lower (
      "price" ∷ "quote" ∷ "market" ∷ "stock" ∷ "bitcoin" ∷ "crypto" ∷ "current" ∷ "latest" ∷ "实时"
      ∷ "价格" ∷ "行情" ∷ "最新" ∷ [])
    || contains_token lower ("btc" ∷ "today" ∷ "now" ∷ [])

unfoldable pub wants_implementation : List ℕ → Bool
wants_implementation lower = contains_any lower (
    "implement" ∷ "build" ∷ "fix" ∷ "change" ∷ "edit" ∷ "refactor" ∷ "test" ∷ "ship" ∷ "code" ∷ "实现"
    ∷ "修复" ∷ "改造" ∷ "创建" ∷ "编排" ∷ "测试" ∷ "提交" ∷ "合并" ∷ [])

unfoldable pub wants_mutation : List ℕ → Bool
wants_mutation lower = contains_any lower (
    "write" ∷ "edit" ∷ "delete" ∷ "merge" ∷ "commit" ∷ "deploy" ∷ "改" ∷ "写" ∷ "删" ∷ "提交" ∷ "合并"
    ∷ "部署" ∷ [])

unfoldable pub has_workspace_intent : List ℕ → Bool
has_workspace_intent lower =
    wants_implementation lower
    || wants_research lower
    || wants_fresh_info lower
    || wants_plan lower
    || wants_mutation lower

unfoldable pub is_direct_query : List ℕ → Bool
unfolding contains
is_direct_query lower =
    not (
      wants_implementation lower
      || wants_research lower
      || contains (codes "plan") lower
      || contains (codes "计划") lower)
    && contains_any lower (
        "status" ∷ "doctor" ∷ "setup" ∷ "settings" ∷ "配置" ∷ "设置" ∷ "状态" ∷ "怎么启动" ∷ "how do i"
        ∷ "help" ∷ "what can you do" ∷ "你能做什么" ∷ "怎么用" ∷ [])

-- the characters that isCasualChat takes off a text
abbrev is_closing : ℕ → Bool
is_closing r = any (λ c. c =ℕ= r) (codes " \t\r\n.!?。！？")

casual_value : List ℕ → List ℕ
unfolding trim_by is_space
casual_value lower = trim_by is_space (trim_by is_closing lower)

abbrev is_filled : List ℕ → Bool
is_filled [] = false
is_filled (c ∷ cs) = true

unfoldable pub is_casual_chat : List ℕ → Bool
unfolding casual_value equal_codes has_prefix
is_casual_chat lower =
    let value = casual_value lower in
    is_filled value
    && (any (λ phrase. equal_codes value (codes phrase))
          ("hi" ∷ "hey" ∷ "hello" ∷ "yo" ∷ "sup" ∷ "你好" ∷ "您好" ∷ "嗨" ∷ "哈喽" ∷ "hello there" ∷ [])
        || ((has_prefix (codes "hey ") value
              || has_prefix (codes "hi ") value
              || has_prefix (codes "hello ") value)
            && not (wants_implementation value)
            && not (wants_research value)
            && not (wants_plan value)))

unfoldable pub is_ambiguous : List ℕ → Bool
unfolding fields_by is_space
is_ambiguous lower = ltb (length lower) 8 || leb (length (fields_by is_space lower)) 1
