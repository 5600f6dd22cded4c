-- ===== src/Context/Text.antt =====
-- The text functions of context/broker.ts. A string is the list of its code points, as `for ... of`
-- yields them; `units` counts the UTF-16 units that `length` and `slice` go by.
pub mod Split
use agent_supervisor_runtime.Base.{
  ℕ, ◌+◌, ◌-◌, List, [], ◌∷◌, Option, none, some, ltb, leb, nat_eq, if◌then◌else◌,
}

abbrev pub Content : Type 0
Content = List ℕ

-- `Buffer.byteLength` of one code point. A lone surrogate takes the 3 bytes of its replacement.
abbrev pub utf8_size : ℕ → ℕ
utf8_size c = if ltb c 128 then 1 else if ltb c 2048 then 2 else if ltb c 65536 then 3 else 4

-- `length` of one code point.
abbrev pub units : ℕ → ℕ
units c = if ltb c 65536 then 1 else 2

abbrev pub byte_length : Content → ℕ
byte_length [] = 0
byte_length (c ∷ cs) = utf8_size c + byte_length cs

-- `slice(0, n)` and `slice(n)`, for an `n` that does not part a surrogate pair.
unfoldable pub slice_to : ℕ → Content → Content
slice_to n [] = []
slice_to n (c ∷ cs) = if leb (units c) n then c ∷ slice_to (n - units c) cs else []

unfoldable pub slice_from : ℕ → Content → Content
slice_from n [] = []
slice_from n (c ∷ cs) = if leb (units c) n then slice_from (n - units c) cs else c ∷ cs

-- The loop of `splitUtf8`, from its counters `bytes` and `index` to its last `index`.
unfoldable pub split_index : ℕ → ℕ → ℕ → Content → ℕ
split_index max_bytes bytes index [] = index
split_index max_bytes bytes index (c ∷ cs) =
    let rest = split_index max_bytes (bytes + utf8_size c) (index + units c) cs in
    if ltb max_bytes (bytes + utf8_size c) then index else rest

pub record Pieces : Type 0 where
  pub head : Content
  pub tail : Content

-- `none` stands for CONTEXT_BUDGET_EXCEEDED.
unfoldable pub split_utf8 : Content → ℕ → Option Pieces
unfolding split_index slice_to slice_from
split_utf8 content max_bytes =
    if leb (byte_length content) max_bytes
    then some (record { head = content; tail = [] })
    else let index = split_index max_bytes 0 0 content in
      if nat_eq index 0
      then none
      else some (record { head = slice_to index content; tail = slice_from index content })
