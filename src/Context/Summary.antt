-- ===== src/Context/Summary.antt =====
-- context/broker.ts: `summarize`, the line of a manifest item that says what is in it.
use Prim.Native.String.{◌++◌ as str_append}
use agent_supervisor_runtime.Base.{
  ℕ, ◌+◌, ◌-◌, ◌/◌, Bool, false, ◌&&◌, [], ◌∷◌, nat_eq, leb, ltb, if◌then◌else◌,
}
use agent_supervisor_runtime.Contracts.Identifiers.{codes}
use agent_supervisor_runtime.Workers.Prompt.{decimal}
use agent_supervisor_runtime.Context.Text.{Content, byte_length, units}

abbrev pub begins_line : Content → Bool
begins_line [] = false
begins_line (c ∷ cs) = nat_eq c 10

-- The text before the first end of a line.
unfoldable pub first_line : Content → Content
first_line [] = []
first_line (c ∷ cs) =
    if nat_eq c 10 then [] else if nat_eq c 13 && begins_line cs then [] else c ∷ first_line cs

-- `slice(0, n)`, which counts units and leaves the first half of a pair that it cuts.
unfoldable pub slice_units : ℕ → Content → Content
slice_units n [] = []
slice_units n (c ∷ cs) =
    if leb (units c) n
    then c ∷ slice_units (n - units c) cs
    else if ltb 0 n
    then (55296 + (c - 65536) / 1024) ∷ []
    else []

-- What an empty text stands for.
abbrev pub or_size : Content → Content → Content
or_size [] content = codes (str_append (decimal (byte_length content)) " bytes")
or_size (c ∷ cs) content = c ∷ cs

-- `trim` is the language's.
unfoldable pub summarize : (Content → Content) → Content → Content
unfolding first_line slice_units
summarize trim content = or_size (slice_units 160 (trim (first_line content))) content
